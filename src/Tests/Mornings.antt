-- ===== src/Tests/Mornings.antt =====
-- A morning on which the custodian and the tables agree, and one on which they do not.
use trueup.Prelude.{none, some, List, [], ◌∷◌}
use trueup.Prelude.Int.{pos}
use trueup.Store.{
  Store, position_units, units_dimension, deposit, JournalEntry, trade_buy, ReconciliationBreak,
}
use trueup.Reconciliation.Files.{
  CustodianFileSet, CustodianPositionRow, InternalTransactionSnapshot,
}
use trueup.Reconciliation.Agrees.{Agrees}
use trueup.Tests.Books.{opening}

-- Two units of security 7, bought in an entry of day 10.
abbrev booked : Store
booked = record opening {
  accounts =
      record {
        id = 20;
        customer_id = some 1;
        security_id = some 7;
        role = position_units;
        dimension = units_dimension;
      }
      ∷ [];
  journal_entries =
      record {
        id = 30;
        entry_type = trade_buy;
        effective_date = 10;
        source_event_id = 31;
        superseded_by = none;
      }
      ∷ [];
  postings =
      record {
        journal_entry_id = 30;
        account_id = 20;
        customer_id = some 1;
        amount_money = none;
        quantity_units = some (pos 2000000);
      }
      ∷ [];
}

abbrev held : CustodianPositionRow
held = record { customer_id = 1; security_id = 7; quantity = pos 2000000 }

abbrev delivered : CustodianFileSet
delivered = record {
  positions = held ∷ [];
  cash = [];
  transactions = record { custodian_transaction_id = 31; customer_id = some 1 } ∷ [];
}

abbrev bought : InternalTransactionSnapshot
bought = record {
  source_event = 31;
  journal_entry_id = 30;
  entry_type = trade_buy;
  customer_id = some 1;
  amount_money = pos 0;
  quantity = some (pos 2000000);
  effective_date = 10;
}

abbrev no_breaks : List ReconciliationBreak
no_breaks = []
