-- ===== src/Fees/Telescope.antt =====
-- No gain is charged twice: over a run of days the gains add up to the rise of the mark.
use trueup.Prelude.{
  ℕ, ◌≡◌, ap, inl, inr, Bool-cases, List, [], ◌∷◌, All, Result, ok, if◌then◌else◌, ok_injective,
  >>=-eq-ok, arith,
}
use trueup.Prelude.Int.{pos, ◌+ℤ◌, ◌-ℤ◌, ◌≤ℤ◌, leb_ℤ, sum_ℤ, int_laws, parts_of_eq}
use trueup.Errors.{Error}
use trueup.Money.{money, Money, sub}
use trueup.Money.Precision.{make-InRange}
use trueup.Store.{HighWaterMark}
use trueup.Fees.{ratchet}

-- The mark through a list of days, each with its instant and its shadow value.
pub data Ratchets : HighWaterMark → List Money → List Money → HighWaterMark → Type 0 where
  none : {h : HighWaterMark} → Ratchets h [] [] h
  day :
      {h h' end : HighWaterMark} {shadow gain : Money} {shadows gains : List Money} (now : ℕ)
      → ratchet now h shadow ≡ ok (gain, h')
      → Ratchets h' shadows gains end
      → Ratchets h (shadow ∷ shadows) (gain ∷ gains) end

ratchet-ok :
    (now : ℕ) (h : HighWaterMark) (shadow : Money) {gain : Money} {h' : HighWaterMark}
    → ratchet now h shadow ≡ ok (gain, h')
    → (h.peak_value +ℤ gain ≡ h'.peak_value)
      × (h.peak_value ≤ℤ h'.peak_value)
      × (shadow ≤ℤ h'.peak_value)
      × (pos 0 ≤ℤ gain)
unfolding ratchet sub
ratchet-ok now h shadow {gain} {h'} e =
    let (g, made, k) = >>=-eq-ok (sub money shadow h.peak_value) _ e in
    let is = (make-InRange money (shadow -ℤ h.peak_value) made).0 in picked g is k
  where
    picked :
        (g : Money)
        → g ≡ shadow -ℤ h.peak_value
        → ◌≡◌ {A = Result Error (Money × HighWaterMark)}
            (if leb_ℤ g (pos 0)
              then ok (pos 0, h)
              else ok (g, record h { peak_value = shadow; updated_at = now }))
            (ok (gain, h'))
        → (h.peak_value +ℤ gain ≡ h'.peak_value)
          × (h.peak_value ≤ℤ h'.peak_value)
          × (shadow ≤ℤ h'.peak_value)
          × (pos 0 ≤ℤ gain)
    picked g is k = elim (Bool-cases (leb_ℤ g (pos 0))) [
      | inl under ↦
          let pair = ok_injective {E = Error} (rw under at k) in
          let no_gain : pos 0 ≡ gain = ap (λ (p : Money × HighWaterMark). p.0) pair in
          let kept : h.peak_value ≡ h'.peak_value =
            ap (λ (p : Money × HighWaterMark). p.1.peak_value) pair in
          let a = parts_of_eq is in
          let b = parts_of_eq no_gain in
          let c = parts_of_eq kept in
          let d : g ≤ℤ pos 0 = ground arith in
          (omega int_laws, omega int_laws, omega int_laws, omega int_laws)
      | inr above ↦
          let pair = ok_injective {E = Error} (rw above at k) in
          let gained : g ≡ gain = ap (λ (p : Money × HighWaterMark). p.0) pair in
          let raised : shadow ≡ h'.peak_value =
            ap (λ (p : Money × HighWaterMark). p.1.peak_value) pair in
          let a = parts_of_eq is in
          let b = parts_of_eq gained in
          let c = parts_of_eq raised in
          let d : pos 0 ≤ℤ g = ground arith in
          (omega int_laws, omega int_laws, omega int_laws, omega int_laws)
    ]

-- Over any run of days the gains are at least 0 and add up to the rise of the mark, which never
-- falls and in the end is at least every day's shadow value.
pub gains-telescope :
    {h end : HighWaterMark} {shadows gains : List Money}
    → Ratchets h shadows gains end
    → (h.peak_value +ℤ sum_ℤ gains ≡ end.peak_value)
      × (h.peak_value ≤ℤ end.peak_value)
      × All (λ s. s ≤ℤ end.peak_value) shadows
      × All (λ g. pos 0 ≤ℤ g) gains
unfolding sum_ℤ
gains-telescope none = (omega int_laws, omega arith, tt, tt)
gains-telescope (day {h} {h'} {end} {shadow} {gain} now e rest) =
    let (sum, up, over, gained) = ratchet-ok now h shadow e in
    let (sums, ups, overs, gaineds) = gains-telescope rest in
    let s1 = parts_of_eq sum in
    let s2 = parts_of_eq sums in
    (omega int_laws, omega arith, ((omega arith), overs), (gained, gaineds))
