-- ===== src/Ledger/Kept.antt =====
-- The actions that only look up, create accounts or open obligations leave the ledger as it is.
use trueup.Prelude.{ℕ, suc, ◌≡◌, refl, Option, none, some, Result, ok, err, arith}
use trueup.Money.{Money}
use trueup.Store.{Store, Action, fresh_id, modify, Account, AccountRole}
use trueup.Store.Keeps.{Keeps, Keeps-lift, Keeps-raise, Keeps-pure, keeps_rules}
use trueup.Ledger.Accounts.{
  create, or_create, get_or_create_customer_account, require_customer_account,
  get_or_create_house_account,
}
use trueup.Ledger.Settlement.{add_obligation}
use trueup.Ledger.Written.{
  IsLedger, Keeps-of_same_postings, write-IsLedger, post-IsLedger, correct-IsLedger,
}

pub Keeps-fresh_id : Keeps IsLedger fresh_id
unfolding fresh_id
Keeps-fresh_id = Keeps-of_same_postings fresh_id λ s. (refl, omega arith)

pub Keeps-modify :
    (f : Store → Store)
    → ((s : Store) → (f s).postings ≡ s.postings)
    → ((s : Store) → (f s).next_id ≡ s.next_id)
    → Keeps IsLedger (modify f)
Keeps-modify f same ids =
    Keeps-of_same_postings (modify f) λ s. (same s, let e = ids s in omega arith)

pub Keeps-create :
    (role : AccountRole) (customer security : Option ℕ)
    → Keeps IsLedger (create role customer security)
unfolding create
Keeps-create role customer security = search (keeps_rules, Keeps-fresh_id, Keeps-modify)

Keeps-or_create :
    (a : Option Account) (m : Action Account) → Keeps IsLedger m → Keeps IsLedger (or_create a m)
Keeps-or_create none m k = k
Keeps-or_create (some a) m k = Keeps-pure a

pub Keeps-get_or_create :
    (customer : ℕ) (role : AccountRole) (security : Option ℕ)
    → Keeps IsLedger (get_or_create_customer_account customer role security)
unfolding get_or_create_customer_account
Keeps-get_or_create customer role security = search (keeps_rules, Keeps-create, Keeps-or_create)

pub Keeps-require_account :
    (customer : ℕ) (role : AccountRole) → Keeps IsLedger (require_customer_account customer role)
unfolding require_customer_account
Keeps-require_account customer role = search (keeps_rules, Keeps-or_create)

pub Keeps-house_account : (role : AccountRole) → Keeps IsLedger (get_or_create_house_account role)
unfolding get_or_create_house_account
Keeps-house_account role = search (keeps_rules, Keeps-create, Keeps-or_create)

pub Keeps-add_obligation :
    (entry account : ℕ) (amount : Money) (date event : ℕ)
    → Keeps IsLedger (add_obligation entry account amount date event)
unfolding add_obligation
Keeps-add_obligation entry account amount date event =
    search (keeps_rules, Keeps-fresh_id, Keeps-modify)

pub ruleset ledger_rules = (
  keeps_rules, Keeps-fresh_id, Keeps-modify, refl, Keeps-create, Keeps-get_or_create,
  Keeps-require_account, Keeps-house_account, Keeps-add_obligation, write-IsLedger, post-IsLedger,
  correct-IsLedger,
)
