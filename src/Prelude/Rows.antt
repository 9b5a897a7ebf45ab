-- ===== src/Prelude/Rows.antt =====
-- A table as a list of rows with a key: the row under a key, and an update of it in place.
use Prim.Native.Nat.{ℕ}
use mathlib.Core.Path.{◌≡◌, refl}
use mathlib.Core.Logic.{inl, inr}
use mathlib.Core.Bool.{true, false}
use mathlib.Core.Option.{Option, none, some}
use mathlib.Core.List.{List, [], ◌∷◌, ◌++◌}
use native.Mathlib.Omega.{arith}
use trueup.Prelude.Tests.{◌==◌, ==→eq, if◌then◌else◌, Bool-cases, is_some}

module _ {A : Type 0} (key : A → ℕ) where
  abbrev pub find_by : ℕ → List A → Option A
  find_by n [] = none
  find_by n (r ∷ rs) = if key r == n then some r else find_by n rs

  abbrev pub put_by : A → List A → List A
  put_by new [] = []
  put_by new (r ∷ rs) = if key r == key new then new ∷ rs else r ∷ put_by new rs

  -- A dict that is built from rows: a key keeps its first place and its last row.
  abbrev pub set_by : A → List A → List A
  set_by new rows = if is_some (find_by (key new) rows) then put_by new rows else rows ++ new ∷ []

  abbrev pub dict_of : List A → List A → List A
  dict_of dict [] = dict
  dict_of dict (r ∷ rs) = dict_of (set_by r dict) rs

  pub find_by-key : (n : ℕ) (rs : List A) {r : A} → find_by n rs ≡ some r → key r ≡ n
  find_by-key n [] e = cc
  find_by-key n (x ∷ rs) {r} e = elim (Bool-cases (key x == n)) [
    | inl here ↦
        let same : ◌≡◌ {A = Option A} (some x) (some r) = rw here at e in
        let is = ==→eq (key x) n here in let row : x ≡ r = cc in rw (← row) is
    | inr there ↦ find_by-key n rs (rw there at e)
  ]

  pub find_by-put_by :
      (n : ℕ) (rs : List A) {old : A} (new : A)
      → find_by n rs ≡ some old
      → key new ≡ n
      → find_by n (put_by new rs) ≡ some new
  find_by-put_by n [] new e k = cc
  find_by-put_by n (x ∷ rs) new e k = elim (Bool-cases (key x == n)) [
    | inl here ↦
        let put : (key x == key new) ≡ true = rw k here in
        let found : (key new == n) ≡ true = ground arith in rw (put, found)
    | inr there ↦
        let put : (key x == key new) ≡ false = rw k there in
        rw (put, there) (find_by-put_by n rs new (rw there at e) k)
  ]

  pub find_by-append :
      (n : ℕ) (rs : List A) (new : A)
      → find_by n rs ≡ none
      → key new ≡ n
      → find_by n (rs ++ new ∷ []) ≡ some new
  find_by-append n [] new e k = let found : (key new == n) ≡ true = ground arith in rw found refl
  find_by-append n (x ∷ rs) new e k = elim (Bool-cases (key x == n)) [
    | inl here ↦ let no : ◌≡◌ {A = Option A} (some x) none = rw here at e in cc
    | inr there ↦ rw there (find_by-append n rs new (rw there at e) k)
  ]
