-- ===== src/Reconciliation/Keys.antt =====
-- Which keys a dict that is built from rows holds, and when two lists of rows have the same keys.
use trueup.Prelude.{
  ℕ, ◌≡◌, ◌↔◌, refl, sym, ◌∙◌, inl, inr, Bool, true, false, Bool-cases, ◌&&◌, ◌||◌, List, [], ◌∷◌,
  ◌++◌, All, any, filter, is_some, find_by, put_by, set_by, dict_of, ==→eq, ◌==◌, arith,
}

-- Some row has the key.
abbrev pub has_key : {A : Type 0} → (A → ℕ) → ℕ → List A → Bool
has_key key t rows = any (λ r. key r == t) rows

pub self : (n : ℕ) → (n == n) ≡ true
self n = ground arith

implied : (a b : Bool) → (a ≡ true → b ≡ true) → (b ≡ true → a ≡ true) → a ≡ b
implied true true h k = refl
implied false false h k = refl
implied true false h k = sym (h refl)
implied false true h k = k refl

module _ {A : Type 0} (key : A → ℕ) where
  has_key-put_by :
      (t : ℕ) (new : A) (rows : List A) → has_key key t (put_by key new rows) ≡ has_key key t rows
  has_key-put_by t new [] = refl
  has_key-put_by t new (x ∷ xs) = elim (Bool-cases (key x == key new)) [
    | inl here ↦ let is = ==→eq (key x) (key new) here in rw (here, is) refl
    | inr there ↦ rw (there, has_key-put_by t new xs) refl
  ]

  is_some-find_by : (n : ℕ) (rows : List A) → is_some (find_by key n rows) ≡ has_key key n rows
  is_some-find_by n [] = refl
  is_some-find_by n (x ∷ xs) = elim (Bool-cases (key x == n)) [
    | inl here ↦ rw here refl
    | inr there ↦ rw there (is_some-find_by n xs)
  ]

  has_key-append :
      (t : ℕ) (rows : List A) (new : A)
      → has_key key t (rows ++ new ∷ []) ≡ (key new == t || has_key key t rows)
  has_key-append t [] new = refl
  has_key-append t (x ∷ xs) new = rw (has_key-append t xs new) (ground arith)

  has_key-set_by :
      (t : ℕ) (new : A) (rows : List A)
      → has_key key t (set_by key new rows) ≡ (key new == t || has_key key t rows)
  has_key-set_by t new rows =
      let found = is_some-find_by (key new) rows in
      elim (Bool-cases (has_key key (key new) rows)) [
        | inl there ↦
            rw (found, there, has_key-put_by t new rows)
              (elim (Bool-cases (key new == t)) [
                | inl own ↦ let is = ==→eq (key new) t own in rw own (rw is at there)
                | inr other ↦ rw other refl
              ])
        | inr absent ↦ rw (found, absent) (has_key-append t rows new)
      ]

  pub has_key-dict_of :
      (t : ℕ) (dict rows : List A)
      → has_key key t (dict_of key dict rows) ≡ (has_key key t rows || has_key key t dict)
  has_key-dict_of t dict [] = refl
  has_key-dict_of t dict (r ∷ rs) =
      has_key-dict_of t (set_by key r dict) rs ∙ rw (has_key-set_by t r dict) (ground arith)

module _ {A B : Type 0} (f : A → ℕ) (g : B → ℕ) (bs : List B) where
  -- Each key of one list is one of the other.
  within :
      (xs : List A) (t : ℕ)
      → All (λ a. has_key g (f a) bs ≡ true) xs
      → has_key f t xs ≡ true
      → has_key g t bs ≡ true
  within [] t h e = cc
  within (x ∷ xs) t h e = elim (Bool-cases (f x == t)) [
    | inl own ↦ let is = ==→eq (f x) t own in rw is at h.0
    | inr other ↦ within xs t h.1 (rw other at e)
  ]

  all_within :
      (xs : List A)
      → ((t : ℕ) → has_key f t xs ≡ true → has_key g t bs ≡ true)
      → All (λ a. has_key g (f a) bs ≡ true) xs
  all_within [] h = tt
  all_within (x ∷ xs) h = (
    h (f x) (rw (self (f x)) refl),
    all_within xs (λ t e.
        h t (elim (Bool-cases (f x == t)) [ inl own ↦ rw own refl | inr other ↦ rw other e ])),
  )

-- Two lists have the same keys.
pub same_keys_iff :
    {A B : Type 0} (f : A → ℕ) (g : B → ℕ) (xs : List A) (ys : List B)
    → (All (λ a. has_key g (f a) ys ≡ true) xs × All (λ b. has_key f (g b) xs ≡ true) ys)
      ↔ ((t : ℕ) → has_key f t xs ≡ has_key g t ys)
same_keys_iff f g xs ys = (
  λ p t.
      implied (has_key f t xs) (has_key g t ys) (within f g ys xs t p.0) (within g f xs ys t p.1),
  λ h. (all_within f g ys xs (λ t e. sym (h t) ∙ e), all_within g f xs ys (λ t e. h t ∙ e)),
)

pub has_key-filter :
    {A : Type 0} (key : A → ℕ) (p : A → Bool) (t : ℕ) (rows : List A)
    → has_key key t (filter p rows) ≡ any (λ r. p r && key r == t) rows
has_key-filter key p t [] = refl
has_key-filter key p t (x ∷ xs) = elim (Bool-cases (p x)) [
  | inl kept ↦ rw (kept, has_key-filter key p t xs) refl
  | inr left ↦ rw (left, has_key-filter key p t xs) refl
]
