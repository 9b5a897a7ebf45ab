-- ===== src/Reconciliation/Agreement.antt =====
-- A morning without breaks is one on which both sides say the same.
use trueup.Store.{Store}
use trueup.Reconciliation.Agrees.{Agrees}
