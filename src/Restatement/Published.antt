-- ===== src/Restatement/Published.antt =====
-- A snapshot reproduces at its own watermark.
use trueup.Prelude.{ℕ, ◌≤◌, ◌≡◌, refl, sym, ap, ◌∙◌, List, [], ◌∷◌, ◌++◌, All, ok, ok_injective}
use trueup.Prelude.Int.{pos, eqb_ℤ_refl}
use trueup.Errors.{Error}
use trueup.Store.{Store, lift, SubPeriodReturn, PublishedSnapshot, SnapshotHolding}
use trueup.Store.Keeps.{bind-ok, lift-ok}
use trueup.Valuation.Twr.{
  is_window, latest_for_sub_period, recompute_sub_period, recompute_windows, TwrResult, compute_twr,
  boundaries, pairwise, link,
}
use trueup.Restatement.Snapshots.{
  is_visible, as_of_for_sub_period, derive_windows, derive, last_value, current_holdings, publish,
  cross_check,
}
use trueup.Restatement.Derived.{filter-and}
use trueup.Restatement.Recomputed.{Outcome, found, added, recompute-Outcome}
use trueup.Restatement.Current.{
  Past, AllCurrent, visible_all, Outcome-IsCurrent, recompute_windows-keeps,
}

module _ (now customer : ℕ) where
  Outcome-ledger :
      (w : ℕ × ℕ) (s : Store) {r : SubPeriodReturn} {s' : Store}
      → Outcome now customer w s r s'
      → (s'.journal_entries ≡ s.journal_entries) × (s'.postings ≡ s.postings)
  Outcome-ledger w s (found current) = (refl, refl)
  Outcome-ledger w s (added computed next free differ) =
      (ap (λ (x : Store). x.journal_entries) next, ap (λ (x : Store). x.postings) next)

  -- The windows of a computation that returned are up to date, and the ledger is as it was.
  recompute_windows-AllCurrent :
      (ws : List (ℕ × ℕ)) (s : Store) {rs : List SubPeriodReturn} {s' : Store}
      → Past now s
      → recompute_windows now customer ws s ≡ ok (rs, s')
      → AllCurrent now customer ws rs s'
        × Past now s'
        × (s'.journal_entries ≡ s.journal_entries)
        × (s'.postings ≡ s.postings)
  unfolding recompute_windows
  recompute_windows-AllCurrent [] s {rs} {s'} past e =
      let end = ok_injective {E = Error} {a = ([], s)} {b = (rs, s')} e in
      let rows : [] ≡ rs = ap (λ (p : List SubPeriodReturn × Store). p.0) end in
      let next : s ≡ s' = ap (λ (p : List SubPeriodReturn × Store). p.1) end in
      rw (← next, ← rows) (tt, past, refl, refl)
  recompute_windows-AllCurrent (w ∷ ws) s {rs} {s'} past e =
      let (r, s1, e1, k1) = bind-ok (recompute_sub_period now customer w) _ s e in
      let (rest, s2, e2, k2) = bind-ok (recompute_windows now customer ws) _ s1 k1 in
      let end = ok_injective {E = Error} {a = (r ∷ rest, s2)} {b = (rs, s')} k2 in
      let rows : r ∷ rest ≡ rs = ap (λ (p : List SubPeriodReturn × Store). p.0) end in
      let next : s2 ≡ s' = ap (λ (p : List SubPeriodReturn × Store). p.1) end in
      let outcome = recompute-Outcome now customer w s e1 in
      let (current, past1) = Outcome-IsCurrent now customer w s past outcome in
      let (entries1, postings1) = Outcome-ledger w s outcome in
      let (currents, past2, entries2, postings2) = recompute_windows-AllCurrent ws s1 past1 e2 in
      rw (← next, ← rows)
        (
          (recompute_windows-keeps now customer w ws s1 current e2, currents),
          past2,
          entries2 ∙ entries1,
          postings2 ∙ postings1,
        )

  derive_windows-AllCurrent :
      (ws : List (ℕ × ℕ)) (rs : List SubPeriodReturn) (s : Store)
      → Past now s
      → AllCurrent now customer ws rs s
      → derive_windows customer now ws s.sub_period_returns ≡ ok rs
  unfolding derive_windows as_of_for_sub_period latest_for_sub_period
  derive_windows-AllCurrent [] [] s past all = refl
  derive_windows-AllCurrent [] (r ∷ rs) s past all = elim all [ ]
  derive_windows-AllCurrent (w ∷ ws) [] s past all = elim all [ ]
  derive_windows-AllCurrent (w ∷ ws) (r ∷ rs) s past all = rw (
    filter-and (is_window customer w) (is_visible now) s.sub_period_returns,
    visible_all now s.sub_period_returns past,
    all.0.latest,
    derive_windows-AllCurrent ws rs s past all.1,
  )

  compute_twr-AllCurrent :
      (a b : ℕ) (s : Store) {result : TwrResult} {s' : Store}
      → Past now s
      → compute_twr now customer a b s ≡ ok (result, s')
      → AllCurrent now customer
          (pairwise (boundaries customer a b s'.journal_entries s'.postings))
          result.sub_periods
          s'
        × Past now s'
        × (link result.sub_periods ≡ ok result.twr)
  unfolding compute_twr
  compute_twr-AllCurrent a b s {result} {s'} past e =
      let ws = pairwise (boundaries customer a b s.journal_entries s.postings) in
      let (rows, s1, e1, k1) = bind-ok (recompute_windows now customer ws) _ s e in
      let (currents, past1, entries, postings) = recompute_windows-AllCurrent ws s past e1 in
      let (twr, s2, e2, k2) = bind-ok (lift (link rows)) _ s1 k1 in
      let (same, linked) = lift-ok (link rows) s1 e2 in
      let end = ok_injective {E = Error} k2 in
      let of_rows : rows ≡ result.sub_periods =
        ap (λ (p : TwrResult × Store). p.0.sub_periods) end in
      let of_twr : twr ≡ result.twr = ap (λ (p : TwrResult × Store). p.0.twr) end in
      let next : s1 ≡ s' = sym same ∙ ap (λ (p : TwrResult × Store). p.1) end in
      rw (← next, ← of_rows, ← of_twr) (rw (entries, postings) currents, past1, linked)

-- The two results of `publish`, after the computation and the holdings.
abbrev snapshot_of : ℕ → ℕ → ℕ → ℕ → TwrResult → List SnapshotHolding → PublishedSnapshot
snapshot_of now customer period_start period_end result holdings = record {
  customer_id = customer;
  period_start = period_start;
  period_end = period_end;
  publish_watermark = now;
  twr = result.twr;
  balance = last_value (pos 0) result.sub_periods;
  holdings = holdings;
  published_at = now;
}

abbrev with_snapshot : Store → PublishedSnapshot → Store
with_snapshot s snapshot = record s { published_snapshots = s.published_snapshots ++ snapshot ∷ [] }

passes :
    (now customer period_start period_end : ℕ) (result : TwrResult)
    (holdings : List SnapshotHolding) (s : Store)
    → Past now s
    → AllCurrent now customer
        (pairwise (boundaries customer period_start period_end s.journal_entries s.postings))
        result.sub_periods
        s
    → link result.sub_periods ≡ ok result.twr
    → let snapshot = snapshot_of now customer period_start period_end result holdings in
      cross_check snapshot (with_snapshot s snapshot) ≡ ok (tt, with_snapshot s snapshot)
unfolding cross_check derive
passes now customer period_start period_end result holdings s past currents linked =
    rw
      (
        derive_windows-AllCurrent now customer
            (pairwise (boundaries customer period_start period_end s.journal_entries s.postings))
            result.sub_periods s past currents,
        linked,
        eqb_ℤ_refl result.twr,
        eqb_ℤ_refl (last_value (pos 0) result.sub_periods),
      )
      refl

passes_at :
    (x y : PublishedSnapshot) (s t : Store)
    → x ≡ y
    → s ≡ t
    → cross_check y t ≡ ok (tt, t)
    → cross_check x s ≡ ok (tt, s)
passes_at x y s t e f h = rw (e, f) h

-- What was published passes its cross-check in the same transaction: the figures derived at its
-- watermark are the published ones, if no row on file is from after the transaction's instant.
pub publish-cross_check :
    (now customer period_start period_end : ℕ) (s : Store) {snapshot : PublishedSnapshot}
    {s' : Store}
    → All (λ row. row.recorded_at ≤ now) s.sub_period_returns
    → publish now customer period_start period_end s ≡ ok (snapshot, s')
    → cross_check snapshot s' ≡ ok (tt, s')
unfolding publish
publish-cross_check now customer period_start period_end s {snapshot} {s'} past e =
    let (result, s1, e1, k1) = bind-ok (compute_twr now customer period_start period_end) _ s e in
    let (currents, past1, linked) =
      compute_twr-AllCurrent now customer period_start period_end s past e1 in
    let (holdings, s2, e2, k2) = bind-ok (lift (current_holdings customer period_end s1)) _ s1 k1 in
    let (same, listed) = lift-ok (current_holdings customer period_end s1) s1 e2 in
    let end = ok_injective {E = Error} k2 in
    let made = snapshot_of now customer period_start period_end result holdings in
    passes_at snapshot made s' (with_snapshot s1 made)
      (sym (ap (λ (p : PublishedSnapshot × Store). p.0) end))
      (sym (ap (λ (p : PublishedSnapshot × Store). p.1) end) ∙ ap (λ x. with_snapshot x made) same)
      (passes now customer period_start period_end result holdings s1 past1 currents linked)
