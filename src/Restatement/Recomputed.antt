-- ===== src/Restatement/Recomputed.antt =====
-- What a computation of a window's return leaves on file.
use trueup.Prelude.{
  ℕ, ◌≤◌, ◌≡◌, refl, sym, ap, ◌∙◌, ◌&&◌, not, Bool, true, false, Option, none, some, List, [], ◌∷◌,
  ◌++◌, filter, any, All, Result, ok, err, leb, ltb, ◌==◌, Result-cases, inl, inr, ok_injective,
  Bool-cases, arith,
}
use trueup.Prelude.Int.{eqb_ℤ_refl, abs}
use trueup.Errors.{Error, integrity_error, numeric_overflow}
use trueup.Store.{Store, guard, SubPeriodReturn}
use trueup.Store.Keeps.{bind-ok, guard-ok}
use trueup.Decimal.{digits}
use trueup.Valuation.{newest, value_book, cash_balance, position_units_of}
use trueup.Valuation.Twr.{
  flow_amount_on, sub_period_row, is_recorded_at, latest_for_sub_period, same_figures,
  add_sub_period, keep_or_add, recompute_sub_period,
}

pub newest-append :
    (p : SubPeriodReturn → Bool) (rows : List SubPeriodReturn) (r : SubPeriodReturn)
    → p r ≡ true
    → All (λ x. x.recorded_at ≤ r.recorded_at) rows
    → any (λ x. p x && x.recorded_at == r.recorded_at) rows ≡ false
    → newest (λ x. x.recorded_at) (filter p (rows ++ r ∷ [])) ≡ some r
newest-append p [] r own past new = rw own refl
newest-append p (x ∷ xs) r own past new = elim (Bool-cases (p x)) [
  | inl mine ↦
      let older : (x.recorded_at == r.recorded_at) ≡ false = ground arith in
      let rest : any (λ x. p x && x.recorded_at == r.recorded_at) xs ≡ false = ground arith in
      let before : ltb x.recorded_at r.recorded_at ≡ true = ground (arith, past.0) in
      rw (mine, newest-append p xs r own past.1 rest, before) refl
  | inr other ↦
      let rest : any (λ x. p x && x.recorded_at == r.recorded_at) xs ≡ false = ground arith in
      rw other (newest-append p xs r own past.1 rest)
]

pub same_figures_refl : (r : SubPeriodReturn) → same_figures r r ≡ true
unfolding same_figures
same_figures_refl r = ground (
  arith,
  eqb_ℤ_refl r.return_pct,
  eqb_ℤ_refl r.value_begin,
  eqb_ℤ_refl r.value_end,
  eqb_ℤ_refl r.flow_amount,
)

-- A row more leaves what is computed from the ledger and the closes alone.
pub sub_period_row-append :
    (now customer : ℕ) (w : ℕ × ℕ) (s : Store) (rows : List SubPeriodReturn)
    → sub_period_row now customer w (record s { sub_period_returns = rows })
      ≡ sub_period_row now customer w s
unfolding sub_period_row value_book cash_balance position_units_of flow_amount_on
sub_period_row-append now customer w s rows = refl

-- The store with a row more.
abbrev pub with_row : Store → SubPeriodReturn → Store
with_row s r = record s { sub_period_returns = s.sub_period_returns ++ r ∷ [] }

add_sub_period-ok :
    (row : SubPeriodReturn) (s : Store) {r : SubPeriodReturn} {s' : Store}
    → add_sub_period row s ≡ ok (r, s')
    → (r ≡ row) × (s' ≡ with_row s row) × (any (is_recorded_at row) s.sub_period_returns ≡ false)
unfolding add_sub_period
add_sub_period-ok row s e =
    let (u, s1, g1, k1) =
      bind-ok (guard (any (is_recorded_at row) s.sub_period_returns) integrity_error) _ s e in
    let (same1, free) =
      guard-ok (any (is_recorded_at row) s.sub_period_returns) integrity_error s g1 in
    let (v, s2, g2, k2) =
      bind-ok (guard (not (leb (digits (abs row.return_pct)) 18)) numeric_overflow) _ s1 k1 in
    let (same2, fits) =
      guard-ok (not (leb (digits (abs row.return_pct)) 18)) numeric_overflow s1 g2 in
    let here : s2 ≡ s = same2 ∙ same1 in
    let end = ok_injective {E = Error} k2 in
    (
      sym (ap (λ (p : SubPeriodReturn × Store). p.0) end),
      sym (ap (λ (p : SubPeriodReturn × Store). p.1) end) ∙ ap (λ x. with_row x row) here,
      free,
    )

-- What is on file for a window is up to date.
pub record IsCurrent (now customer : ℕ) (w : ℕ × ℕ) (r : SubPeriodReturn) (s : Store) : Type 0 where
  pub row : SubPeriodReturn
  pub computed : sub_period_row now customer w s ≡ ok row
  pub latest : latest_for_sub_period customer w s.sub_period_returns ≡ some r
  pub same : same_figures r row ≡ true

-- What a computation that returned did: it found the figures on file, or it added a row with others.
pub data Outcome (now customer : ℕ) (w : ℕ × ℕ) (s : Store) : SubPeriodReturn → Store → Type 0 where
  found : {r : SubPeriodReturn} → IsCurrent now customer w r s → Outcome now customer w s r s
  added :
      {r : SubPeriodReturn} {s' : Store}
      → sub_period_row now customer w s ≡ ok r
      → s' ≡ with_row s r
      → any (is_recorded_at r) s.sub_period_returns ≡ false
      → ((old : SubPeriodReturn)
          → latest_for_sub_period customer w s.sub_period_returns ≡ some old
          → same_figures old r ≡ false)
      → Outcome now customer w s r s'

module _ (now customer : ℕ) where
  keep_or_add-Outcome :
      (w : ℕ × ℕ) (s : Store) (row : SubPeriodReturn) (old : Option SubPeriodReturn)
      {r : SubPeriodReturn} {s' : Store}
      → sub_period_row now customer w s ≡ ok row
      → latest_for_sub_period customer w s.sub_period_returns ≡ old
      → keep_or_add row old s ≡ ok (r, s')
      → Outcome now customer w s r s'
  keep_or_add-Outcome w s row none {r} {s'} computed latest e =
      let (is, next, free) = add_sub_period-ok row s e in
      rw is (
        added computed next free
          (λ o h. let no : ◌≡◌ {A = Option SubPeriodReturn} none (some o) = sym latest ∙ h in cc))
  keep_or_add-Outcome w s row (some old) {r} {s'} computed latest e =
      elim (Bool-cases (same_figures old row)) [
        | inl same ↦
            let end = ok_injective {E = Error} {a = (old, s)} {b = (r, s')} (rw same at e) in
            let is : old ≡ r = ap (λ (p : SubPeriodReturn × Store). p.0) end in
            let next : s ≡ s' = ap (λ (p : SubPeriodReturn × Store). p.1) end in
            rw (← next, ← is)
              (found (record { row = row; computed = computed; latest = latest; same = same }))
        | inr differ ↦
            let (is, next, free) = add_sub_period-ok row s (rw differ at e) in
            rw is (
              added computed next free (λ o h.
                let it : ◌≡◌ {A = Option SubPeriodReturn} (some old) (some o) = sym latest ∙ h in
                let one : old ≡ o = cc in rw (← one) differ))
      ]

  pub recompute-Outcome :
      (w : ℕ × ℕ) (s : Store) {r : SubPeriodReturn} {s' : Store}
      → recompute_sub_period now customer w s ≡ ok (r, s')
      → Outcome now customer w s r s'
  unfolding recompute_sub_period
  recompute-Outcome w s {r} {s'} e = elim (Result-cases (sub_period_row now customer w s)) [
    | inl (row, computed) ↦
        keep_or_add-Outcome w s row (latest_for_sub_period customer w s.sub_period_returns) computed
          refl (rw computed at e)
    | inr (x, failed) ↦
        let no : ◌≡◌ {A = Result Error (SubPeriodReturn × Store)} (err x) (ok (r, s')) =
          rw failed at e in
        cc
  ]
