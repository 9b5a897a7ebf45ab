-- ===== src/Lots/ActionsBalanced.antt =====
-- Dividends and splits keep the ledger balanced.
use trueup.Prelude.{ℕ, List, [], ◌∷◌}
use trueup.Money.{Money, Price}
use trueup.Store.Keeps.{Keeps, Keeps-pure, Keeps-bind}
use trueup.Ledger.Written.{IsLedger}
use trueup.Ledger.Kept.{ledger_rules}
use trueup.Lots.WashSale.{Restatement}
use trueup.Lots.Splits.{SplitRatio}
use trueup.Lots.Balanced.{IsRestatement}
use trueup.Lots.CorporateActions.{
  declare_dividend_for, declare_each, declare_dividend_ex_date, pay_dividend, split_for, split_each,
  apply_split,
}

module _ (r : Restatement) (h : IsRestatement r) where
  Keeps-restate : (customer date event : ℕ) → Keeps IsLedger (r.restate customer date event)
  Keeps-restate = h.keeps

  declare_dividend_for-IsLedger :
      (security : ℕ) (per_share : Price) (date income customer : ℕ)
      → Keeps IsLedger (declare_dividend_for r security per_share date income customer)
  unfolding declare_dividend_for
  declare_dividend_for-IsLedger security per_share date income customer =
      search (ledger_rules, Keeps-restate) depth 40 fits 12000

  declare_each-IsLedger :
      (security : ℕ) (per_share : Price) (date income : ℕ) (ns : List ℕ)
      → Keeps IsLedger (declare_each r security per_share date income ns)
  unfolding declare_each
  declare_each-IsLedger security per_share date income [] = Keeps-pure []
  declare_each-IsLedger security per_share date income (n ∷ ns) =
      Keeps-bind (declare_dividend_for-IsLedger security per_share date income n) (λ entries.
        Keeps-bind (declare_each-IsLedger security per_share date income ns) (λ rest. Keeps-pure _))

  pub declare_dividend_ex_date-IsLedger :
      (security : ℕ) (per_share : Price) (date : ℕ)
      → Keeps IsLedger (declare_dividend_ex_date r security per_share date)
  unfolding declare_dividend_ex_date
  declare_dividend_ex_date-IsLedger security per_share date =
      search (ledger_rules, declare_each-IsLedger) depth 24

  pub pay_dividend-IsLedger :
      (customer : ℕ) (amount : Money) (date : ℕ)
      → Keeps IsLedger (pay_dividend r customer amount date)
  unfolding pay_dividend
  pay_dividend-IsLedger customer amount date =
      search (ledger_rules, Keeps-restate) depth 30 fits 8000

  split_for-IsLedger :
      (security : ℕ) (ratio : SplitRatio) (date customer : ℕ)
      → Keeps IsLedger (split_for r security ratio date customer)
  unfolding split_for
  split_for-IsLedger security ratio date customer =
      search (ledger_rules, Keeps-restate) depth 40 fits 12000

  split_each-IsLedger :
      (security : ℕ) (ratio : SplitRatio) (date : ℕ) (ns : List ℕ)
      → Keeps IsLedger (split_each r security ratio date ns)
  unfolding split_each
  split_each-IsLedger security ratio date [] = Keeps-pure []
  split_each-IsLedger security ratio date (n ∷ ns) =
      Keeps-bind (split_for-IsLedger security ratio date n)
        (λ entries. Keeps-bind (split_each-IsLedger security ratio date ns) (λ rest. Keeps-pure _))

  -- A split of every holding keeps every journal entry balanced, if restatements do.
  pub apply_split-IsLedger :
      (security : ℕ) (ratio : SplitRatio) (date : ℕ)
      → Keeps IsLedger (apply_split r security ratio date)
  unfolding apply_split
  apply_split-IsLedger security ratio date = search (ledger_rules, split_each-IsLedger) depth 24
