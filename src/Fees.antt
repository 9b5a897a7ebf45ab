-- ===== src/Fees.antt =====
-- services/fees/high_water_mark_service.py: the performance fee's high-water mark.
pub mod Telescope
pub mod Dunning
pub mod Charges
pub mod Billing
pub mod Billed
pub mod Failures
pub mod Exhausted
pub mod Charged
use trueup.Prelude.{ℕ, Result, ok, err, if◌then◌else◌, ◌>>=◌}
use trueup.Prelude.Int.{pos, leb_ℤ}
use trueup.Errors.{Error}
use trueup.Money.{money, Money, sub}
use trueup.Store.{HighWaterMark}

-- `ratchet` on the clock's instant: the gain above the mark, and the mark after it.
unfoldable pub ratchet : ℕ → HighWaterMark → Money → Result Error (Money × HighWaterMark)
ratchet now hwm shadow_value = do
  gain ← sub money shadow_value hwm.peak_value
  if leb_ℤ gain (pos 0)
      then ok (pos 0, hwm)
      else ok (gain, record hwm { peak_value = shadow_value; updated_at = now })
