-- ===== src/Ledger/Accounts.antt =====
-- models/ledger/account.py, and the account lookups of services/lots/_shared.py.
use trueup.Prelude.{
  ℕ, Bool, true, false, ◌&&◌, ◌||◌, not, Option, none, some, List, [], ◌∷◌, ◌++◌, filter, is_some,
  Result, ok, err, ◌==◌, if◌then◌else◌,
}
use trueup.Errors.{Error, missing_account, multiple_results, missing_security}
use trueup.Store.{
  Store, Action, pure, raise, gets, lift, modify, fresh_id, ◌>>=◌, ◌>>◌, Account, AccountRole, cash,
  customer_equity, position_units, position_cost, fees_expense, dividend_income,
  customer_receivable, dividend_receivable, realized_gain_loss, fees_accrued_payable,
  fee_revenue_accrued, fee_revenue_collected, AccountDimension, money_dimension, units_dimension,
}

-- The position of a role in the enumeration, by which roles are compared.
abbrev pub role_code : AccountRole → ℕ
role_code cash = 0
role_code customer_equity = 1
role_code position_units = 2
role_code position_cost = 3
role_code fees_expense = 4
role_code dividend_income = 5
role_code customer_receivable = 6
role_code dividend_receivable = 7
role_code realized_gain_loss = 8
role_code fees_accrued_payable = 9
role_code fee_revenue_accrued = 10
role_code fee_revenue_collected = 11

abbrev pub is_role : AccountRole → AccountRole → Bool
is_role r q = role_code r == role_code q

-- `_ROLE_DIMENSION`
unfoldable pub role_dimension : AccountRole → AccountDimension
role_dimension position_units = units_dimension
role_dimension _ = money_dimension

-- SQL equality with a value: a NULL is never equal.
abbrev pub column_is : Option ℕ → ℕ → Bool
column_is none n = false
column_is (some m) n = m == n

abbrev pub matches : Option ℕ → Option ℕ → Bool
matches wanted none = true
matches wanted (some n) = column_is wanted n

-- `Account.create`; the two position roles want a security.
unfoldable pub create : AccountRole → Option ℕ → Option ℕ → Action Account
unfolding role_dimension
create role customer security = do
  lift (
      if (is_role role position_units || is_role role position_cost) && not (is_some security)
      then err missing_security
      else ok tt)
  id ← fresh_id
  let account : Account = record {
    id = id;
    customer_id = customer;
    security_id = security;
    role = role;
    dimension = role_dimension role;
  }
  modify (λ s. record s { accounts = s.accounts ++ account ∷ [] })
  pure account

-- `scalar_one_or_none()`
abbrev pub one_or_none : {A : Type 0} → List A → Result Error (Option A)
one_or_none [] = ok none
one_or_none (a ∷ []) = ok (some a)
one_or_none (a ∷ b ∷ r) = err multiple_results

abbrev pub customer_accounts : ℕ → AccountRole → Option ℕ → Store → List Account
customer_accounts customer role security s =
    filter
      (λ a.
        column_is a.customer_id customer && is_role a.role role && matches a.security_id security)
      s.accounts

abbrev pub or_create : Option Account → Action Account → Action Account
or_create (some a) m = pure a
or_create none m = m

unfoldable pub get_or_create_customer_account : ℕ → AccountRole → Option ℕ → Action Account
get_or_create_customer_account customer role security = do
  rows ← gets (customer_accounts customer role security)
  account ← lift (one_or_none rows)
  or_create account (create role (some customer) security)

unfoldable pub require_customer_account : ℕ → AccountRole → Action Account
require_customer_account customer role = do
  rows ← gets (customer_accounts customer role none)
  account ← lift (one_or_none rows)
  or_create account (raise missing_account)

unfoldable pub get_or_create_house_account : AccountRole → Action Account
get_or_create_house_account role = do
  rows ← gets (λ s. filter (λ a. not (is_some a.customer_id) && is_role a.role role) s.accounts)
  account ← lift (one_or_none rows)
  or_create account (create role none none)
