-- ===== src/Restatement/Current.antt =====
-- What is up to date stays up to date while other windows are computed.
use trueup.Prelude.{
  ℕ, ◌≤◌, ◌≡◌, refl, sym, ap, ◌∙◌, ◌&&◌, true, false, List, [], ◌∷◌, ◌++◌, filter, any, All, ok,
  ◌==◌, inl, inr, ok_injective, Bool-cases, arith,
}
use mathlib.Core.Bool.{true≢false}
use trueup.Errors.{Error}
use trueup.Store.{Store, SubPeriodReturn}
use trueup.Store.Keeps.{bind-ok}
use trueup.Valuation.{newest}
use trueup.Valuation.Twr.{
  same_figures, sub_period_row, is_window, latest_for_sub_period, recompute_sub_period,
  recompute_windows,
}
use trueup.Restatement.Snapshots.{is_visible}
use trueup.Restatement.Derived.{filter-append_left, sub_period_row-fields}
use trueup.Restatement.Recomputed.{
  IsCurrent, Outcome, found, added, recompute-Outcome, sub_period_row-append, same_figures_refl,
  newest-append,
}

-- No row is from after the transaction's instant.
abbrev pub Past : ℕ → Store → Type 0
Past now s = All (λ x. x.recorded_at ≤ now) s.sub_period_returns

-- The rows of windows, each up to date.
abbrev pub AllCurrent : ℕ → ℕ → List (ℕ × ℕ) → List SubPeriodReturn → Store → Type 0
AllCurrent now customer [] [] s = Unit
AllCurrent now customer (w ∷ ws) (r ∷ rs) s =
    IsCurrent now customer w r s × AllCurrent now customer ws rs s
AllCurrent now customer _ _ s = ⊥

pub visible_all :
    (now : ℕ) (rows : List SubPeriodReturn)
    → All (λ x. x.recorded_at ≤ now) rows
    → filter (is_visible now) rows ≡ rows
visible_all now [] past = refl
visible_all now (x ∷ xs) past =
    let shown : is_visible now x ≡ true = ground (arith, past.0) in
    rw shown (ap (λ r. x ∷ r) (visible_all now xs past.1))

module _ (now customer : ℕ) where
  Past-append :
      (rows : List SubPeriodReturn) (r : SubPeriodReturn)
      → All (λ x. x.recorded_at ≤ now) rows
      → r.recorded_at ≤ now
      → All (λ x. x.recorded_at ≤ now) (rows ++ r ∷ [])
  Past-append [] r past new = (new, tt)
  Past-append (x ∷ xs) r past new = (past.0, Past-append xs r past.1 new)

  own_window :
      (w : ℕ × ℕ) (s : Store) {r : SubPeriodReturn}
      → sub_period_row now customer w s ≡ ok r
      → is_window customer w r ≡ true
  own_window w s e = let fields = sub_period_row-fields now customer w s e in ground arith

  pub Outcome-IsCurrent :
      (w : ℕ × ℕ) (s : Store) {r : SubPeriodReturn} {s' : Store}
      → Past now s
      → Outcome now customer w s r s'
      → IsCurrent now customer w r s' × Past now s'
  unfolding latest_for_sub_period
  Outcome-IsCurrent w s past (found current) = (current, past)
  Outcome-IsCurrent w s {r} {s'} past (added computed next free differ) =
      let fields = sub_period_row-fields now customer w s computed in
      let (of_customer, start, ends, at) = fields in
      let free' : any (λ x. is_window customer w x && x.recorded_at == r.recorded_at)
            s.sub_period_returns
          ≡ false =
        rw (← of_customer, ← start, ← ends) free in
      let past' : All (λ x. x.recorded_at ≤ r.recorded_at) s.sub_period_returns = rw at past in
      rw next (
        record {
          row = r;
          computed =
              sub_period_row-append now customer w s (s.sub_period_returns ++ r ∷ []) ∙ computed;
          latest =
              newest-append (is_window customer w) s.sub_period_returns r (own_window w s computed)
                past' free';
          same = same_figures_refl r;
        },
        Past-append s.sub_period_returns r past (omega arith),
      )

  -- Another window's computation leaves what is up to date so.
  Outcome-keeps :
      (v w : ℕ × ℕ) (s : Store) {r0 r : SubPeriodReturn} {s' : Store}
      → IsCurrent now customer v r0 s
      → Outcome now customer w s r s'
      → IsCurrent now customer v r0 s'
  unfolding latest_for_sub_period
  Outcome-keeps v w s current (found other) = current
  Outcome-keeps v w s {r0} {r} {s'} current (added computed next free differ) =
      elim (Bool-cases (is_window customer v r)) [
        | inl same ↦
            let (of_customer, start, ends, at) = sub_period_row-fields now customer w s computed in
            let start' : v.0 ≡ w.0 = ground arith in
            let ends' : v.1 ≡ w.1 = ground arith in
            let one : v ≡ w = cc in
            let mine : sub_period_row now customer w s ≡ ok current.row =
              rw (← one) current.computed in
            let row : r ≡ current.row = ok_injective {E = Error} (sym computed ∙ mine) in
            let no = differ r0 (rw (← one) current.latest) in
            let yes_same : same_figures r0 r ≡ true = rw row current.same in
            absurd (true≢false (sym yes_same ∙ no))
        | inr other ↦ rw next (record {
          row = current.row;
          computed =
              sub_period_row-append now customer v s (s.sub_period_returns ++ r ∷ [])
              ∙ current.computed;
          latest =
              ap (λ rows. newest (λ x. x.recorded_at) rows)
                (filter-append_left (is_window customer v) s.sub_period_returns r other)
              ∙ current.latest;
          same = current.same;
        })
      ]

  pub recompute_windows-keeps :
      (v : ℕ × ℕ) (ws : List (ℕ × ℕ)) (s : Store) {r0 : SubPeriodReturn} {rs : List SubPeriodReturn}
      {s' : Store}
      → IsCurrent now customer v r0 s
      → recompute_windows now customer ws s ≡ ok (rs, s')
      → IsCurrent now customer v r0 s'
  unfolding recompute_windows
  recompute_windows-keeps v [] s {r0} {rs} {s'} current e =
      let end : s ≡ s' =
        ap (λ (p : List SubPeriodReturn × Store). p.1) (ok_injective {E = Error} e) in
      rw (← end) current
  recompute_windows-keeps v (w ∷ ws) s {r0} {rs} {s'} current e =
      let (r, s1, e1, k1) = bind-ok (recompute_sub_period now customer w) _ s e in
      let (rest, s2, e2, k2) = bind-ok (recompute_windows now customer ws) _ s1 k1 in
      let end : s2 ≡ s' =
        ap (λ (p : List SubPeriodReturn × Store). p.1) (ok_injective {E = Error} k2) in
      let step = Outcome-keeps v w s current (recompute-Outcome now customer w s e1) in
      rw (← end) (recompute_windows-keeps v ws s1 step e2)
