-- ===== src/Restatement/Derived.antt =====
-- What a derivation depends on: the rows that are visible at its watermark, the entries and the
-- postings.
use trueup.Prelude.{
  ℕ, ◌≡◌, refl, ap, ◌&&◌, ◌||◌, not, inl, inr, Bool, false, Bool-cases, List, [], ◌∷◌, ◌++◌, filter,
  Result, ok, err, sym, >>=-eq-ok, ok_injective,
}
use trueup.Prelude.Int.{eqb_ℤ}
use trueup.Errors.{Error, snapshot_cross_check_failed}
use trueup.Store.{Store, guard, lift, ◌>>=◌, SubPeriodReturn, PublishedSnapshot}
use trueup.Valuation.{value_book}
use trueup.Valuation.Twr.{
  flow_amount_on, window_return, sub_period_row, is_window, boundaries, pairwise,
}
use trueup.Restatement.Snapshots.{
  is_visible, as_of_for_sub_period, derive_windows, DerivedFigures, derive, cross_check,
}

pub filter-and :
    {A : Type 0} (p q : A → Bool) (xs : List A)
    → filter (λ x. p x && q x) xs ≡ filter p (filter q xs)
filter-and p q [] = refl
filter-and p q (x ∷ xs) = elim (Bool-cases (q x)) [
  | inl seen ↦ elim (Bool-cases (p x)) [
    | inl kept ↦ rw (seen, kept) (ap (λ r. x ∷ r) (filter-and p q xs))
    | inr left ↦ rw (seen, left) (filter-and p q xs)
  ]
  | inr hidden ↦ elim (Bool-cases (p x)) [
    | inl kept ↦ rw (hidden, kept) (filter-and p q xs)
    | inr left ↦ rw (hidden, left) (filter-and p q xs)
  ]
]

-- An element that is filtered out may stand at the end.
pub filter-append_left :
    {A : Type 0} (p : A → Bool) (xs : List A) (x : A)
    → p x ≡ false
    → filter p (xs ++ x ∷ []) ≡ filter p xs
filter-append_left p [] x h = rw h refl
filter-append_left p (y ∷ ys) x h = elim (Bool-cases (p y)) [
  | inl kept ↦ rw kept (ap (λ r. y ∷ r) (filter-append_left p ys x h))
  | inr left ↦ rw left (filter-append_left p ys x h)
]

-- The row of a computation is for its window and carries the instant of its transaction.
pub sub_period_row-fields :
    (now customer : ℕ) (w : ℕ × ℕ) (s : Store) {r : SubPeriodReturn}
    → sub_period_row now customer w s ≡ ok r
    → (r.customer_id ≡ customer)
      × (r.sub_period_start ≡ w.0)
      × (r.sub_period_end ≡ w.1)
      × (r.recorded_at ≡ now)
unfolding sub_period_row
sub_period_row-fields now customer w s {r} e =
    let (begins, e1, k1) = >>=-eq-ok (value_book customer w.0 s) _ e in
    let (ends, e2, k2) = >>=-eq-ok (value_book customer w.1 s) _ k1 in
    let (flow, e3, k3) = >>=-eq-ok (flow_amount_on customer w.1 s) _ k2 in
    let (back, e4, k4) = >>=-eq-ok (window_return begins.total_value ends.total_value flow) _ k3 in
    let row = sym (ok_injective {E = Error} k4) in
    (
      ap (λ (x : SubPeriodReturn). x.customer_id) row,
      ap (λ (x : SubPeriodReturn). x.sub_period_start) row,
      ap (λ (x : SubPeriodReturn). x.sub_period_end) row,
      ap (λ (x : SubPeriodReturn). x.recorded_at) row,
    )

module _ (cutoff : ℕ) (rows rows' : List SubPeriodReturn)
    (same : filter (is_visible cutoff) rows' ≡ filter (is_visible cutoff) rows) where
  as_of-eq :
      (customer : ℕ) (w : ℕ × ℕ)
      → as_of_for_sub_period customer w cutoff rows' ≡ as_of_for_sub_period customer w cutoff rows
  unfolding as_of_for_sub_period
  as_of-eq customer w = rw (
    filter-and (is_window customer w) (is_visible cutoff) rows',
    filter-and (is_window customer w) (is_visible cutoff) rows,
    same,
  )

  pub derive_windows-eq :
      (customer : ℕ) (ws : List (ℕ × ℕ))
      → derive_windows customer cutoff ws rows' ≡ derive_windows customer cutoff ws rows
  unfolding derive_windows
  derive_windows-eq customer [] = refl
  derive_windows-eq customer (w ∷ ws) = rw (as_of-eq customer w, derive_windows-eq customer ws)

-- Two stores that agree for the reader of a watermark.
pub record AgreeAt (cutoff : ℕ) (s s' : Store) : Type 0 where
  pub rows :
      filter (is_visible cutoff) s'.sub_period_returns
      ≡ filter (is_visible cutoff) s.sub_period_returns
  pub entries : s'.journal_entries ≡ s.journal_entries
  pub postings : s'.postings ≡ s.postings

pub derive-eq :
    (customer period_start period_end cutoff : ℕ) (s s' : Store)
    → AgreeAt cutoff s s'
    → derive customer period_start period_end cutoff s'
      ≡ derive customer period_start period_end cutoff s
unfolding derive
derive-eq customer period_start period_end cutoff s s' agree = rw (
  agree.entries,
  agree.postings,
  derive_windows-eq cutoff s.sub_period_returns s'.sub_period_returns agree.rows customer
      (pairwise (boundaries customer period_start period_end s.journal_entries s.postings)),
)

-- The comparison of what was derived with the snapshot.
pub compared :
    (snapshot : PublishedSnapshot) (derived : Result Error DerivedFigures) (s s' : Store)
    → (lift derived >>= λ d.
          guard
            (not (eqb_ℤ d.twr snapshot.twr) || not (eqb_ℤ d.balance snapshot.balance))
            snapshot_cross_check_failed)
        s
      ≡ ok (tt, s)
    → (lift derived >>= λ d.
          guard
            (not (eqb_ℤ d.twr snapshot.twr) || not (eqb_ℤ d.balance snapshot.balance))
            snapshot_cross_check_failed)
        s'
      ≡ ok (tt, s')
compared snapshot (err e) s s' h = cc
compared snapshot (ok d) s s' h =
    elim (Bool-cases (not (eqb_ℤ d.twr snapshot.twr) || not (eqb_ℤ d.balance snapshot.balance))) [
      | inl differs ↦
          let no : ◌≡◌ {A = Result Error (Unit {0} × Store)} (err snapshot_cross_check_failed)
              (ok (tt, s)) =
            rw differs at h in
          cc
      | inr same ↦ rw same refl
    ]

pub cross_check-agree :
    (snapshot : PublishedSnapshot) (s s' : Store)
    → AgreeAt snapshot.publish_watermark s s'
    → cross_check snapshot s ≡ ok (tt, s)
    → cross_check snapshot s' ≡ ok (tt, s')
unfolding cross_check
cross_check-agree snapshot s s' agree h =
    rw
      (derive-eq snapshot.customer_id snapshot.period_start snapshot.period_end
        snapshot.publish_watermark s s' agree)
      (compared snapshot
        (derive snapshot.customer_id snapshot.period_start snapshot.period_end
          snapshot.publish_watermark s)
        s s' h)
