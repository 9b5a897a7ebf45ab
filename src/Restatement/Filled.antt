-- ===== src/Restatement/Filled.antt =====
-- The restatement of a wash sale fills the interface that the lots rely on, so that what they
-- promise of a restatement holds of the program's own.
use trueup.Prelude.{ℕ, suc, true, arith}
use trueup.Store.Keeps.{Keeps-bind, Keeps-pure}
use trueup.Store.{wash_sale_trigger}
use trueup.Ledger.Written.{IsLedger, IsBefore-mono}
use trueup.Lots.Balanced.{IsRestatement}
use trueup.Lots.Once.{IsAdjusted, KeepsAdjustments}
use trueup.Restatement.Service.{wash_sale_restatement}
use trueup.Restatement.Writes.{Bears, restate-Keeps}

IsLedger-Bears : (now : ℕ) → Bears now IsLedger
IsLedger-Bears now = record {
  ids = λ s h. record {
    balanced = h.balanced;
    known = IsBefore-mono s.next_id (suc s.next_id) s.postings (omega arith) h.known;
  };
  events = λ s rows h. record { balanced = h.balanced; known = h.known };
  disclosures = λ s rows h. record { balanced = h.balanced; known = h.known };
  returns = λ s r e h. record { balanced = h.balanced; known = h.known };
}

IsAdjusted-Bears : (now n : ℕ) → Bears now (IsAdjusted n)
IsAdjusted-Bears now n = record {
  ids = λ s h. h;
  events = λ s rows h. h;
  disclosures = λ s rows h. h;
  returns = λ s r e h. h;
}

pub wash_sale-IsRestatement : (now : ℕ) → IsRestatement (wash_sale_restatement now)
wash_sale-IsRestatement now = record {
  keeps = λ customer date event.
      Keeps-bind (restate-Keeps now (IsLedger-Bears now) true customer wash_sale_trigger event date)
        (λ rows. Keeps-pure tt);
}

pub wash_sale-KeepsAdjustments : (now : ℕ) → KeepsAdjustments (wash_sale_restatement now)
wash_sale-KeepsAdjustments now = record {
  keeps = λ n customer date event.
      Keeps-bind
        (restate-Keeps now (IsAdjusted-Bears now n) true customer wash_sale_trigger event date)
        (λ rows. Keeps-pure tt);
}
