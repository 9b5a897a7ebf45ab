-- ===== src/Ledger/Apart.antt =====
-- A predicate on other tables than the ledger's stays as it is when the ledger is written to.
use trueup.Prelude.{ℕ, Option, none, some, List, [], ◌∷◌}
use trueup.Store.{
  Store, Action, Account, AccountRole, JournalEntry, JournalEntryType, Posting, fresh_id,
}
use trueup.Store.Keeps.{Keeps, Keeps-modify, Keeps-pure, Keeps-bind, keeps_rules}
use trueup.Ledger.Accounts.{
  create, or_create, get_or_create_customer_account, get_or_create_house_account,
}
use trueup.Ledger.Entries.{PostingLeg, add_posting, add_postings, insert_entry, write, post}

-- The predicate reads neither the ids, nor the accounts, the entries and the postings.
pub record IsApart (P : Store → Type 0) : Type 0 where
  pub ids : (s : Store) (n : ℕ) → P s → P (record s { next_id = n })
  pub to_accounts : (s : Store) (rows : List Account) → P s → P (record s { accounts = rows })
  pub entries :
      (s : Store) (rows : List JournalEntry) → P s → P (record s { journal_entries = rows })
  pub to_postings : (s : Store) (rows : List Posting) → P s → P (record s { postings = rows })

module _ {P : Store → Type 0} (apart : IsApart P) where
  pub apart-fresh_id : Keeps P fresh_id
  unfolding fresh_id
  apart-fresh_id = record { at = λ s h. apart.ids s _ h }

  apart-create :
      (role : AccountRole) (customer security : Option ℕ) → Keeps P (create role customer security)
  unfolding create
  apart-create role customer security =
      search (keeps_rules, Keeps-modify, apart-fresh_id, apart.to_accounts) depth 24

  apart-or_create : (a : Option Account) (m : Action Account) → Keeps P m → Keeps P (or_create a m)
  apart-or_create none m k = k
  apart-or_create (some a) m k = Keeps-pure a

  pub apart-get_or_create :
      (customer : ℕ) (role : AccountRole) (security : Option ℕ)
      → Keeps P (get_or_create_customer_account customer role security)
  unfolding get_or_create_customer_account
  apart-get_or_create customer role security = search (keeps_rules, apart-create, apart-or_create)

  pub apart-house : (role : AccountRole) → Keeps P (get_or_create_house_account role)
  unfolding get_or_create_house_account
  apart-house role = search (keeps_rules, apart-create, apart-or_create)

  apart-add_posting : (entry : ℕ) (l : PostingLeg) → Keeps P (add_posting entry l)
  unfolding add_posting
  apart-add_posting entry l = search (keeps_rules, Keeps-modify, apart.to_postings) depth 24

  apart-add_postings : (entry : ℕ) (ls : List PostingLeg) → Keeps P (add_postings entry ls)
  unfolding add_postings
  apart-add_postings entry [] = Keeps-pure tt
  apart-add_postings entry (l ∷ ls) =
      Keeps-bind (apart-add_posting entry l) (λ u. apart-add_postings entry ls)

  pub apart-post :
      (entry_type : JournalEntryType) (date event : ℕ) (legs : List PostingLeg)
      → Keeps P (post entry_type date event legs)
  unfolding post write insert_entry
  apart-post entry_type date event legs =
      search (keeps_rules, Keeps-modify, apart-fresh_id, apart-add_postings, apart.entries) depth 24
