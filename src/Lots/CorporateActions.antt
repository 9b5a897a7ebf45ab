-- ===== src/Lots/CorporateActions.antt =====
-- services/lots/corporate_action_service.py: dividends and splits.
use trueup.Prelude.{ℕ, ◌&&◌, none, some, List, [], ◌∷◌, ◌++◌, any, is_empty, ◌==◌, if◌then◌else◌}
use trueup.Prelude.Int.{pos, ltb_ℤ, leb_ℤ}
use trueup.Errors.{invalid_ratio}
use trueup.Money.{money, Money, Price, negate, mul_price_units}
use trueup.Store.{
  Action, pure, gets, lift, guard, modify, fresh_id, ◌>>=◌, ◌>>◌, TaxLot, JournalEntry, dividend,
  split, cash, dividend_income, dividend_receivable, position_units,
}
use trueup.Ledger.Accounts.{
  get_or_create_customer_account, get_or_create_house_account, require_customer_account,
}
use trueup.Ledger.Entries.{money_leg, units_leg, post}
use trueup.Ledger.Settlement.{add_obligation}
use trueup.Lots.Table.{lock_open_for_security, total_remaining}
use trueup.Lots.WashSale.{Restatement}
use trueup.Lots.Splits.{SplitRatio, at_most_one, split_holding}

-- `list_customers_holding`; the order of the distinct rows is not specified.
unfoldable pub list_customers_holding : ℕ → List TaxLot → List ℕ
list_customers_holding security [] = []
list_customers_holding security (l ∷ ls) =
    let rest = list_customers_holding security ls in
    if l.security_id == security && ltb_ℤ (pos 0) l.quantity_remaining
    then if any (λ n. n == l.customer_id) rest then rest else l.customer_id ∷ rest
    else rest

module _ (restatement : Restatement) where
  -- The round of `declare_dividend_ex_date` for one holder.
  unfoldable pub declare_dividend_for : ℕ → Price → ℕ → ℕ → ℕ → Action (List JournalEntry)
  declare_dividend_for security per_share_amount ex_date income customer = do
    total ←
        gets (λ s. total_remaining (pos 0) (lock_open_for_security customer security s.tax_lots))
    quantity_held ← lift total
    if leb_ℤ quantity_held (pos 0)
        then pure []
        else lift (mul_price_units per_share_amount quantity_held) >>= λ amount.
            get_or_create_customer_account customer dividend_receivable none >>= λ receivable.
            fresh_id >>= λ event. lift (negate money amount) >>= λ credit.
            post dividend ex_date event
              (money_leg receivable.id amount ∷ money_leg income credit ∷ [])
            >>= λ entry.
                restatement.restate customer ex_date entry.source_event_id >> pure (entry ∷ [])

  unfoldable pub declare_each : ℕ → Price → ℕ → ℕ → List ℕ → Action (List JournalEntry)
  declare_each security per_share_amount ex_date income [] = pure []
  declare_each security per_share_amount ex_date income (n ∷ ns) = do
    entries ← declare_dividend_for security per_share_amount ex_date income n
    rest ← declare_each security per_share_amount ex_date income ns
    pure (entries ++ rest)

  unfoldable pub declare_dividend_ex_date : ℕ → Price → ℕ → Action (List JournalEntry)
  declare_dividend_ex_date security per_share_amount ex_date = do
    income ← get_or_create_house_account dividend_income
    holders ← gets (λ s. list_customers_holding security s.tax_lots)
    declare_each security per_share_amount ex_date income.id holders

  unfoldable pub pay_dividend : ℕ → Money → ℕ → Action JournalEntry
  pay_dividend customer amount pay_date = do
    cash_account ← require_customer_account customer cash
    receivable ← get_or_create_customer_account customer dividend_receivable none
    event ← fresh_id
    credit ← lift (negate money amount)
    entry ←
        post dividend pay_date event
          (money_leg cash_account.id amount ∷ money_leg receivable.id credit ∷ [])
    obligation_event ← fresh_id
    add_obligation entry.id cash_account.id amount pay_date obligation_event
    restatement.restate customer pay_date entry.source_event_id
    pure entry

  -- The round of `apply_split` for one holder.
  unfoldable pub split_for : ℕ → SplitRatio → ℕ → ℕ → Action (List JournalEntry)
  split_for security ratio effective_date customer = do
    held ← gets (λ s. is_empty (lock_open_for_security customer security s.tax_lots))
    if held
        then pure []
        else gets (λ s. split_holding customer security ratio s.tax_lots) >>= λ outcome.
            lift outcome >>= λ after.
            modify (λ s. record s { tax_lots = after.0 })
            >> get_or_create_customer_account customer position_units (some security)
            >>= λ units_account. fresh_id >>= λ event.
                post split effective_date event (units_leg units_account.id after.1 ∷ [])
                >>= λ entry.
                    restatement.restate customer effective_date entry.source_event_id
                    >> pure (entry ∷ [])

  unfoldable pub split_each : ℕ → SplitRatio → ℕ → List ℕ → Action (List JournalEntry)
  split_each security ratio effective_date [] = pure []
  split_each security ratio effective_date (n ∷ ns) = do
    entries ← split_for security ratio effective_date n
    rest ← split_each security ratio effective_date ns
    pure (entries ++ rest)

  unfoldable pub apply_split : ℕ → SplitRatio → ℕ → Action (List JournalEntry)
  apply_split security ratio effective_date = do
    guard (at_most_one ratio) invalid_ratio
    holders ← gets (λ s. list_customers_holding security s.tax_lots)
    split_each security ratio effective_date holders
