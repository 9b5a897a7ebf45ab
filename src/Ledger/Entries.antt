-- ===== src/Ledger/Entries.antt =====
-- services/ledger/posting_service.py, with the insert trigger of models/ledger/posting.py.
use trueup.Prelude.{
  require, ℕ, Bool, not, Option, none, some, List, [], ◌∷◌, ◌++◌, is_some, Result, ok, err, ◌==◌,
  if◌then◌else◌,
}
use trueup.Prelude.{◌>>=◌ as bind_result}
use trueup.Prelude.Int.{pos}
use trueup.Errors.{
  Error, invalid_posting_leg, unbalanced_entry, missing_account, dimension_mismatch,
}
use trueup.Money.{money, Money, Units, add, is_zero}
use trueup.Store.{
  Action, pure, gets, lift, guard, modify, fresh_id, ◌>>=◌, ◌>>◌, Account, AccountDimension,
  money_dimension, units_dimension, JournalEntry, JournalEntryType, Posting,
}

pub record PostingLeg : Type 0 where
  pub account_id : ℕ
  pub amount_money : Option Money
  pub quantity_units : Option Units

abbrev pub money_leg : ℕ → Money → PostingLeg
money_leg account amount = record {
  account_id = account;
  amount_money = some amount;
  quantity_units = none;
}

abbrev pub units_leg : ℕ → Units → PostingLeg
units_leg account quantity = record {
  account_id = account;
  amount_money = none;
  quantity_units = some quantity;
}

-- One round of the loop in `_validate_legs`, on the running total.
unfoldable pub add_leg : Option Money → Option Units → Money → Result Error Money
add_leg none none total = err invalid_posting_leg
add_leg (some m) (some u) total = err invalid_posting_leg
add_leg (some m) none total = add money total m
add_leg none (some u) total = ok total

unfoldable pub total_legs : Money → List PostingLeg → Result Error Money
total_legs total [] = ok total
total_legs total (l ∷ ls) =
    bind_result (add_leg l.amount_money l.quantity_units total) (λ total'. total_legs total' ls)

-- `_validate_legs`
unfoldable pub validate_legs : List PostingLeg → Result Error (Unit {0})
validate_legs [] = err invalid_posting_leg
validate_legs (l ∷ ls) =
    bind_result (total_legs (pos 0) (l ∷ ls))
      (λ total. if is_zero total then ok tt else err unbalanced_entry)

-- `posting_denormalize_and_validate`: the owner is copied, and the dimension must fit.
unfoldable pub dimension_fits : AccountDimension → PostingLeg → Bool
dimension_fits money_dimension l = not (is_some l.quantity_units)
dimension_fits units_dimension l = not (is_some l.amount_money)

abbrev pub find_account : ℕ → List Account → Option Account
find_account n [] = none
find_account n (a ∷ rest) = if a.id == n then some a else find_account n rest

unfoldable pub add_posting : ℕ → PostingLeg → Action (Unit {0})
unfolding dimension_fits
add_posting entry l = do
  found ← gets (λ s. find_account l.account_id s.accounts)
  account ← lift (require found missing_account)
  guard (not (dimension_fits account.dimension l)) dimension_mismatch
  let posting : Posting = record {
    journal_entry_id = entry;
    account_id = l.account_id;
    customer_id = account.customer_id;
    amount_money = l.amount_money;
    quantity_units = l.quantity_units;
  }
  modify (λ s. record s { postings = s.postings ++ posting ∷ [] })

unfoldable pub add_postings : ℕ → List PostingLeg → Action (Unit {0})
add_postings entry [] = pure tt
add_postings entry (l ∷ ls) = do add_posting entry l; add_postings entry ls

-- `_write` past its validation.
unfoldable pub insert_entry :
    JournalEntryType → ℕ → ℕ → List PostingLeg → Option ℕ → Action JournalEntry
insert_entry entry_type effective_date source_event_id legs superseded_by = do
  id ← fresh_id
  let entry : JournalEntry = record {
    id = id;
    entry_type = entry_type;
    effective_date = effective_date;
    source_event_id = source_event_id;
    superseded_by = superseded_by;
  }
  modify (λ s. record s { journal_entries = s.journal_entries ++ entry ∷ [] })
  add_postings id legs
  pure entry

-- `_write`
unfoldable pub write : JournalEntryType → ℕ → ℕ → List PostingLeg → Option ℕ → Action JournalEntry
write entry_type effective_date source_event_id legs superseded_by = do
  lift (validate_legs legs)
  insert_entry entry_type effective_date source_event_id legs superseded_by

unfoldable pub post : JournalEntryType → ℕ → ℕ → List PostingLeg → Action JournalEntry
post entry_type effective_date source_event_id legs =
    write entry_type effective_date source_event_id legs none

unfoldable pub correct : JournalEntry → ℕ → ℕ → List PostingLeg → Action JournalEntry
correct original effective_date source_event_id legs =
    write original.entry_type effective_date source_event_id legs (some original.id)
