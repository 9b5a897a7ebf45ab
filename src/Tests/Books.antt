-- ===== src/Tests/Books.antt =====
-- The ledger and the funding services on a small book.
use trueup.Prelude.{
  ◌≢◌, ℕ, suc, ◌+◌, ◌≤◌, ◌<◌, ◌≡◌, ◌≢◌, ◌↔◌, ◌⊎◌, refl, All, Bool, true, false, Option, none, some,
  List, [], ◌∷◌, Result, ok, err, arith,
}
use trueup.Prelude.Int.{ℤ, pos, negsuc, ◌+ℤ◌, ◌≤ℤ◌}
use trueup.Errors.{Error}
use trueup.Money.{money, Money}
use trueup.Store.{
  Store, Account, cash, customer_equity, money_dimension, units_dimension, position_units,
  position_cost, Customer, approved, BankLink, active, SettlementObligation, pending, confirmed,
  failed, deposit, JournalEntry, withdrawal,
}
use trueup.Store.Keeps.{Holds}
use trueup.Ledger.Entries.{PostingLeg, money_leg, units_leg, validate_legs, write}
use trueup.Ledger.Balance.{SetsOne, legs_sum, validate_legs_sound}
use trueup.Ledger.Written.{IsLedger, write-IsLedger}
use trueup.Ledger.Settlement.{
  find_obligation, Settle, confirms, confirm, single_transition, settles_once,
}
use trueup.Ledger.CashPolicy.{HoldsProvider, withdrawable, settled_total}
use trueup.Funding.{
  DepositContext, find_customer, check_deposit_caps, initiate_deposit, apply_ach_return,
  initiate_withdrawal,
}
use trueup.Funding.Returned.{apply_ach_return-once}
use trueup.Funding.Limits.{initiate_withdrawal-within}

abbrev account : ℕ → Account
account n = record {
  id = n;
  customer_id = some 1;
  security_id = none;
  role = cash;
  dimension = money_dimension;
}

abbrev ann : Customer
ann = record { id = 1; kyc_status = approved; account_approval_status = approved }

abbrev pub opening : Store
opening = record {
  next_id = 100;
  accounts = account 10 ∷ record (account 11) { role = customer_equity } ∷ [];
  journal_entries = [];
  postings = [];
  obligations = [];
  tax_lots = [];
  lot_consumptions = [];
  adjustments = [];
  customers = ann ∷ [];
  bank_links = record { id = 5; customer_id = 1; status = active } ∷ [];
  kyc_sessions = [];
  orders = [];
  order_events = [];
  approval_holds = [];
  agent_action_requests = [];
  reconciliation_breaks = [];
  fee_charges = [];
  dunning_states = [];
  fee_accruals = [];
  securities = 7 ∷ [];
  daily_closes = [];
  sub_period_returns = [];
  published_snapshots = [];
  restatement_events = [];
  fee_restatement_disclosures = [];
  high_water_marks = [];
  customer_model_assignments = [];
  target_weights = [];
  idempotency_keys = [];
  outbox = [];
}

pub opening-IsLedger : IsLedger opening
unfolding trueup.Ledger.Balance.entry_total
opening-IsLedger = record { balanced = λ e. refl; known = tt }

abbrev today : DepositContext
today = record {
  deposit_cap_per_transaction = pos 1000000;
  deposit_cap_per_day = pos 1500000;
  now = 777;
  today = 20;
}

abbrev two_legs : List PostingLeg
two_legs = money_leg 10 (pos 2500) ∷ money_leg 11 (negsuc 2499) ∷ []

validate_legs_sound_example : (two_legs ≢ []) × All SetsOne two_legs × (legs_sum two_legs ≡ pos 0)
unfolding validate_legs trueup.Ledger.Entries.total_legs trueup.Ledger.Entries.add_leg
    trueup.Money.add trueup.Money.make trueup.Money.integer_digits ◌+ℤ◌
validate_legs_sound_example = validate_legs_sound two_legs refl

write-IsLedger_example : Holds IsLedger (write deposit 20 9 two_legs none opening)
write-IsLedger_example = (write-IsLedger deposit 20 9 two_legs none).at opening opening-IsLedger

-- A deposit of 2500 quanta that awaits the custodian, and its return.
abbrev awaited : SettlementObligation
awaited = record {
  id = 103;
  journal_entry_id = 50;
  account_id = 10;
  amount_money = pos 2500;
  expected_settlement_date = 22;
  status = trueup.Store.pending;
  confirmed_at = none;
  failed_at = none;
  source_event_id = 51;
}

abbrev awaiting : Store
awaiting = record opening { obligations = awaited ∷ [] }

abbrev store_of : Store → Result Error (Unit {0} × Store) → Store
store_of s (ok r) = r.1
store_of s (err e) = s

abbrev bounced : Store
bounced = store_of awaiting (apply_ach_return today 103 awaiting)

bounces : apply_ach_return today 103 awaiting ≡ ok (tt, bounced)
unfolding apply_ach_return trueup.Ledger.Settlement.fail
    trueup.Ledger.Accounts.get_or_create_customer_account trueup.Ledger.Accounts.create
    trueup.Store.fresh_id trueup.Funding.ach_return_legs trueup.Money.negate trueup.Money.make
    trueup.Money.integer_digits trueup.Prelude.Int.neg trueup.Ledger.Entries.post write
    validate_legs trueup.Ledger.Entries.total_legs trueup.Ledger.Entries.add_leg trueup.Money.add
    ◌+ℤ◌ trueup.Ledger.Entries.insert_entry trueup.Ledger.Entries.add_postings
    trueup.Ledger.Entries.add_posting
bounces = refl

apply_ach_return-once_example :
    (o : SettlementObligation) × (find_obligation 103 awaiting.obligations ≡ some o)
    × (o.status ≡ trueup.Store.pending)
    × (find_obligation 103 bounced.obligations
        ≡ some (record o { status = trueup.Store.failed; failed_at = some today.now }))
    × ((end : Store) → apply_ach_return today 103 (record bounced { accounts = [] }) ≢ ok (tt, end))
apply_ach_return-once_example =
    apply_ach_return-once today today 103 awaiting {s' = bounced} (record bounced { accounts = [] })
      bounces refl

abbrev no_holds : HoldsProvider
no_holds = record { holds = λ c. ok (pos 0); open_buy_commitments = λ c. ok (pos 0) }

-- 2500 quanta paid in and not subject to settlement, as an older entry.
abbrev funded : Store
funded = record opening {
  postings =
      record {
        journal_entry_id = 50;
        account_id = 10;
        customer_id = some 1;
        amount_money = some (pos 2500);
        quantity_units = none;
      }
      ∷ record {
        journal_entry_id = 50;
        account_id = 11;
        customer_id = some 1;
        amount_money = some (negsuc 2499);
        quantity_units = none;
      }
      ∷ [];
}

abbrev paid_out : Store
paid_out = record funded {
  next_id = 102;
  journal_entries =
      record {
        id = 101;
        entry_type = withdrawal;
        effective_date = 20;
        source_event_id = 100;
        superseded_by = none;
      }
      ∷ [];
  postings =
      record {
        journal_entry_id = 50;
        account_id = 10;
        customer_id = some 1;
        amount_money = some (pos 2500);
        quantity_units = none;
      }
      ∷ record {
        journal_entry_id = 50;
        account_id = 11;
        customer_id = some 1;
        amount_money = some (negsuc 2499);
        quantity_units = none;
      }
      ∷ record {
        journal_entry_id = 101;
        account_id = 10;
        customer_id = some 1;
        amount_money = some (negsuc 2499);
        quantity_units = none;
      }
      ∷ record {
        journal_entry_id = 101;
        account_id = 11;
        customer_id = some 1;
        amount_money = some (pos 2500);
        quantity_units = none;
      }
      ∷ [];
}

initiate_withdrawal-within_example :
    (c : Customer) × (available : Money) × (find_customer 1 funded.customers ≡ some c)
    × (c.kyc_status ≡ approved)
    × (c.account_approval_status ≡ approved)
    × (withdrawable no_holds 1 funded ≡ ok available)
    × (pos 2500 ≤ℤ available)
unfolding initiate_withdrawal trueup.Funding.check_eligibility trueup.Funding.check_customer
    trueup.Funding.check_active_bank_link trueup.Funding.check_link trueup.Funding.check_link_status
    withdrawable trueup.Ledger.CashPolicy.settled_cash trueup.Money.make trueup.Money.integer_digits
    settled_total trueup.Ledger.CashPolicy.settled_sum ◌+ℤ◌ trueup.Money.sub trueup.Prelude.Int.◌-ℤ◌
    trueup.Ledger.Accounts.require_customer_account trueup.Store.fresh_id trueup.Money.negate
    trueup.Prelude.Int.neg trueup.Ledger.Entries.post write validate_legs
    trueup.Ledger.Entries.total_legs trueup.Ledger.Entries.add_leg trueup.Money.add
    trueup.Ledger.Entries.insert_entry trueup.Ledger.Entries.add_postings
    trueup.Ledger.Entries.add_posting
initiate_withdrawal-within_example =
    initiate_withdrawal-within no_holds today 1 (pos 2500) funded
      {entry = record {
        id = 101;
        entry_type = withdrawal;
        effective_date = 20;
        source_event_id = 100;
        superseded_by = none;
      }}
      {s' = paid_out} refl

abbrev obligation : SettlementObligation
obligation = record {
  id = 103;
  journal_entry_id = 101;
  account_id = 10;
  amount_money = pos 2500;
  expected_settlement_date = 22;
  status = pending;
  confirmed_at = none;
  failed_at = none;
  source_event_id = 102;
}

abbrev settled_row : SettlementObligation
settled_row = record obligation { status = confirmed; confirmed_at = some 800 }

abbrev settlement : Settle obligation settled_row
unfolding confirm
settlement = confirms 800 refl

settles_once_example :
    (obligation.status ≡ pending)
    × ((settled_row.status ≡ confirmed) × (settled_row.failed_at ≡ none)
        ⊎ (settled_row.status ≡ failed) × (settled_row.confirmed_at ≡ none))
    × (single_transition obligation settled_row ≡ ok settled_row)
    × (settled_row.id ≡ 103)
    × (settled_row.journal_entry_id ≡ 101)
    × (settled_row.amount_money ≡ pos 2500)
    × ((q : SettlementObligation) → ¬ Settle settled_row q)
settles_once_example = settles_once {o = obligation} {r = settled_row} settlement

-- The settled cash after a deposit that bounces before it is confirmed: the deposit was never
-- counted, its correction is.
abbrev settled_after : Result Error (Unit {0} × Store) → Option ℤ
settled_after (ok (u, s)) = some (settled_total 1 s)
settled_after (err e) = none

abbrev returned : Result Error (SettlementObligation × Store) → Result Error (Unit {0} × Store)
returned (ok (o, s)) = apply_ach_return today o.id s
returned (err e) = err e

ach_return_debits_unsettled :
    settled_after (returned (initiate_deposit today 1 (pos 2500) opening)) ≡ some (negsuc 2499)
unfolding settled_total initiate_deposit apply_ach_return trueup.Funding.check_eligibility
    trueup.Funding.check_customer trueup.Funding.check_active_bank_link trueup.Funding.check_link
    trueup.Funding.check_link_status trueup.Funding.deposited_on trueup.Money.make
    trueup.Money.integer_digits trueup.Ledger.CashPolicy.settled_sum check_deposit_caps
    trueup.Money.add ◌+ℤ◌ trueup.Ledger.Accounts.require_customer_account trueup.Store.fresh_id
    trueup.Money.negate trueup.Prelude.Int.neg trueup.Ledger.Entries.post trueup.Decimal.digits
    trueup.Funding.ach_return_legs trueup.Ledger.Accounts.create
    trueup.Ledger.Accounts.get_or_create_customer_account trueup.Ledger.Accounts.role_dimension
    trueup.Ledger.Entries.add_leg trueup.Ledger.Entries.add_posting
    trueup.Ledger.Entries.add_postings trueup.Ledger.Entries.dimension_fits
    trueup.Ledger.Entries.insert_entry trueup.Ledger.Entries.total_legs validate_legs write
    trueup.Ledger.Settlement.add_obligation trueup.Ledger.Settlement.fail
ach_return_debits_unsettled = refl
