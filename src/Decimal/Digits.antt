-- ===== src/Decimal/Digits.antt =====
-- The digit count against powers of ten.
use native.Mathlib.Nat.{pow-suc}
use trueup.Prelude.{ℕ, zero, suc, ◌/◌, ◌^◌, ◌≤◌, ◌<◌, ◌↔◌, arith}
use trueup.Decimal.{digits, digits_on}

pub pow_pos : (k : ℕ) → 0 < 10 ^ k
pow_pos zero = omega arith
pow_pos (suc k) = rw pow-suc (omega (arith, pow_pos k))

step_down : (n k : ℕ) → (n / 10 < 10 ^ k) ↔ (n < 10 ^ suc k)
step_down n k = rw pow-suc (λ h. omega arith, λ h. omega arith)

digits_on_iff : (fuel k n : ℕ) → k < fuel → (digits_on fuel n ≤ k) ↔ (n < 10 ^ k)
unfolding digits_on
digits_on_iff zero k n h = absurd (omega arith)
digits_on_iff (suc fuel) zero n h = ground arith
digits_on_iff (suc fuel) (suc k) n h =
    ground (arith, digits_on_iff fuel k (n / 10) (omega arith), step_down n k, pow_pos (suc k))

pub digits_iff : (k n : ℕ) → k < 64 → (digits n ≤ k) ↔ (n < 10 ^ k)
unfolding digits
digits_iff k n h = digits_on_iff 64 k n h
