-- ===== src/Reconciliation/Sides.antt =====
-- What holds of the keys of both sides of a comparison, said of every key.
use trueup.Prelude.{
  ℕ, ◌≡◌, ◌↔◌, refl, ap, sym, ◌∙◌, inl, inr, Bool, true, false, Bool-cases, ◌||◌, List, [], ◌∷◌,
  none, All, any, ok, ==→eq, ok_injective, >>=-eq-ok, ◌==◌, arith,
}
use trueup.Prelude.Int.{pos}
use trueup.Errors.{Error}
use trueup.Money.{Units}
use trueup.Store.{Store, Customer, JournalEntry}
use trueup.Reconciliation.Files.{
  CustodianPositionRow, CustodianCashRow, InternalTransactionSnapshot, same_key, add_key,
  quantity_in, totals_of, for_journal_entry, snapshots_of,
}
use trueup.Reconciliation.Loops.{row_key, all_keys, all_customers}
use trueup.Reconciliation.Keys.{has_key, self}

-- The customers of both sides.
pub has_key-all_customers :
    (n : ℕ) (customers : List Customer) (rows : List CustodianCashRow)
    → has_key (λ m. m) n (all_customers customers rows)
      ≡ (has_key (λ r. r.customer_id) n rows || has_key (λ c. c.id) n customers)
unfolding all_customers
has_key-all_customers n [] [] = refl
has_key-all_customers n (c ∷ cs) [] = rw (has_key-all_customers n cs []) refl
has_key-all_customers n customers (r ∷ rs) =
    let ih = has_key-all_customers n customers rs in
    let rest = all_customers customers rs in
    elim (Bool-cases (has_key (λ m. m) r.customer_id rest)) [
      | inl there ↦ rw there (
          ih ∙ elim (Bool-cases (r.customer_id == n)) [
            | inl own ↦
                let is = ==→eq r.customer_id n own in
                let known : has_key (λ m. m) n rest ≡ true = rw is at there in
                rw own (sym ih ∙ known)
            | inr other ↦ rw other refl
          ])
      | inr absent ↦ rw (absent, ih) (ground arith)
    ]

-- A row stands under the key.
abbrev has_position : ℕ × ℕ → List CustodianPositionRow → Bool
has_position k rows = any (λ r. same_key k (row_key r)) rows

same_key-eq : (k j : ℕ × ℕ) → same_key k j ≡ true → k ≡ j
same_key-eq (a, b) (c, d) e =
    let first : a ≡ c = ground arith in let second : b ≡ d = ground arith in rw (first, second) refl

add_key-known :
    (k j : ℕ × ℕ) (ks : List (ℕ × ℕ))
    → any (same_key k) (add_key j ks) ≡ (same_key k j || any (same_key k) ks)
add_key-known k j ks = elim (Bool-cases (any (same_key j) ks)) [
  | inl there ↦ rw there (elim (Bool-cases (same_key k j)) [
    | inl own ↦ let is = same_key-eq k j own in rw (own, is, there) refl
    | inr other ↦ rw other refl
  ])
  | inr absent ↦ rw absent refl
]

all_keys-known :
    (k : ℕ × ℕ) (internal rows : List CustodianPositionRow)
    → any (same_key k) (all_keys internal rows) ≡ (has_position k rows || has_position k internal)
unfolding all_keys
all_keys-known k [] [] = refl
all_keys-known k (x ∷ xs) [] = rw (all_keys-known k xs []) refl
all_keys-known k internal (r ∷ rs) =
    rw (add_key-known k (row_key r) (all_keys internal rs), all_keys-known k internal rs)
      (ground arith)

quantity_in-absent :
    (k : ℕ × ℕ) (value : Units) (rows : List CustodianPositionRow)
    → has_position k rows ≡ false
    → quantity_in k value rows ≡ value
unfolding quantity_in
quantity_in-absent k value [] e = refl
quantity_in-absent k value (r ∷ rs) e =
    let other : same_key (row_key r) k ≡ false = ground arith in
    let rest : has_position k rs ≡ false = ground arith in
    rw other (quantity_in-absent k value rs rest)

all_known :
    (P : ℕ × ℕ → Type 0) (k : ℕ × ℕ) (ks : List (ℕ × ℕ))
    → All P ks
    → any (same_key k) ks ≡ true
    → P k
all_known P k [] h e = cc
all_known P k (j ∷ js) h e = elim (Bool-cases (same_key k j)) [
  | inl own ↦ let is = same_key-eq k j own in rw is h.0
  | inr other ↦ all_known P k js h.1 (rw other at e)
]

everywhere : (P : ℕ × ℕ → Type 0) (ks : List (ℕ × ℕ)) → ((k : ℕ × ℕ) → P k) → All P ks
everywhere P [] h = tt
everywhere P (k ∷ ks) h = (h k, everywhere P ks h)

-- The quantities agree on the keys of both sides exactly if they agree on every key.
pub all_keys_iff :
    (internal rows : List CustodianPositionRow)
    → All
        (λ k. quantity_in k (pos 0) internal ≡ quantity_in k (pos 0) rows)
        (all_keys internal rows)
      ↔ ((k : ℕ × ℕ) → quantity_in k (pos 0) internal ≡ quantity_in k (pos 0) rows)
all_keys_iff internal rows =
    let agree = λ (k : ℕ × ℕ). quantity_in k (pos 0) internal ≡ quantity_in k (pos 0) rows in
    (
      λ h k.
          let known = all_keys-known k internal rows in
          elim (Bool-cases (any (same_key k) (all_keys internal rows))) [
            | inl there ↦ all_known agree k (all_keys internal rows) h there
            | inr absent ↦
                let neither : (has_position k rows || has_position k internal) ≡ false =
                  sym known ∙ absent in
                quantity_in-absent k (pos 0) internal (ground arith)
                ∙ sym (quantity_in-absent k (pos 0) rows (ground arith))
          ],
      λ h. everywhere agree (all_keys internal rows) h,
    )

all_found : (P : ℕ → Type 0) (n : ℕ) (ns : List ℕ) → All P ns → has_key (λ m. m) n ns ≡ true → P n
all_found P n [] h e = cc
all_found P n (m ∷ ms) h e = elim (Bool-cases (m == n)) [
  | inl own ↦ let is = ==→eq m n own in rw is at h.0
  | inr other ↦ all_found P n ms h.1 (rw other at e)
]

found_all :
    (P : ℕ → Type 0) (ns : List ℕ) → ((n : ℕ) → has_key (λ m. m) n ns ≡ true → P n) → All P ns
found_all P [] h = tt
found_all P (m ∷ ms) h = (
  h m (rw (self m) refl),
  found_all P ms
      (λ n e. h n (elim (Bool-cases (m == n)) [ inl own ↦ rw own refl | inr other ↦ rw other e ])),
)

-- What holds of the customers of both sides, in open terms.
pub all_customers_iff :
    (P : ℕ → Type 0) (customers : List Customer) (rows : List CustodianCashRow)
    → All P (all_customers customers rows) ↔ (
        (n : ℕ)
        → (has_key (λ r. r.customer_id) n rows || has_key (λ c. c.id) n customers) ≡ true
        → P n)
all_customers_iff P customers rows = (
  λ h n e.
      all_found P n (all_customers customers rows) h (has_key-all_customers n customers rows ∙ e),
  λ h.
      found_all P (all_customers customers rows)
        (λ n e. h n (sym (has_key-all_customers n customers rows) ∙ e)),
)

-- The snapshots carry the events of the entries.
pub snapshots_of-has_key :
    (source : ℕ → ℕ) (s : Store) (t : ℕ) (es : List JournalEntry)
    {xs : List InternalTransactionSnapshot}
    → snapshots_of source s es ≡ ok xs
    → has_key (λ x. x.source_event) t xs ≡ has_key (λ e. source e.source_event_id) t es
unfolding snapshots_of
snapshots_of-has_key source s t [] e =
    ap (λ (xs : List InternalTransactionSnapshot). has_key (λ x. x.source_event) t xs)
      (sym (ok_injective {E = Error} e))
snapshots_of-has_key source s t (x ∷ es) e =
    let (totals, summed, e1) =
      >>=-eq-ok (totals_of (pos 0) none (for_journal_entry x.id s.postings)) _ e in
    let (rest, others, e2) = >>=-eq-ok (snapshots_of source s es) _ e1 in
    let ih = snapshots_of-has_key source s t es others in
    rw (← ok_injective {E = Error} e2) (rw ih refl)
