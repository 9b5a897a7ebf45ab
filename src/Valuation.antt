-- ===== src/Valuation.antt =====
-- services/valuation/valuation_service.py: what a customer's book is worth at the confirmed closes
-- of a date.
pub mod Twr
use trueup.Prelude.{
  ℕ, Bool, true, false, ◌&&◌, Option, none, some, List, [], ◌∷◌, filter, any, Result, ok, err, leb,
  ltb, ◌==◌, if◌then◌else◌, ◌>>=◌,
}
use trueup.Prelude.Int.{pos}
use trueup.Errors.{Error}
use trueup.Money.{money, units, Money, Units, make, add, mul_price_units, is_zero}
use trueup.Store.{
  Store, Account, position_units, JournalEntry, Posting, DailyClose, DailyCloseStatus, confirmed,
}
use trueup.Ledger.Accounts.{is_role, column_is}
use trueup.Ledger.CashPolicy.{is_cash, settled_sum}
use trueup.Reconciliation.Files.{position_sum}

-- The first row of `order_by(recorded_at.desc())`.
module _ {A : Type 0} (recorded_at : A → ℕ) where
  abbrev pub newer : A → Option A → Option A
  newer r none = some r
  newer r (some q) = if ltb (recorded_at r) (recorded_at q) then some q else some r

  abbrev pub newest : List A → Option A
  newest [] = none
  newest (r ∷ rs) = newer r (newest rs)

abbrev pub is_confirmed_close : DailyCloseStatus → Bool
is_confirmed_close confirmed = true
is_confirmed_close _ = false

unfoldable pub latest_confirmed : ℕ → ℕ → List DailyClose → Option DailyClose
latest_confirmed security market_date closes =
    newest (λ c. c.recorded_at)
      (filter
        (λ c.
          c.security_id == security && c.market_date == market_date && is_confirmed_close c.status)
        closes)

abbrev pub dated_by : ℕ → List JournalEntry → ℕ → Bool
dated_by as_of_date entries n = any (λ e. e.id == n && leb e.effective_date as_of_date) entries

-- `_cash_balance`
unfoldable pub cash_balance : ℕ → ℕ → Store → Result Error Money
cash_balance customer as_of_date s = make money (
    settled_sum
      (λ p.
        column_is p.customer_id customer
        && is_cash s.accounts p.account_id
        && dated_by as_of_date s.journal_entries p.journal_entry_id)
      s.postings)

-- The securities of the accounts that hold units, each once.
abbrev pub add_security : Option ℕ → List ℕ → List ℕ
add_security none rest = rest
add_security (some n) rest = if any (λ m. m == n) rest then rest else n ∷ rest

unfoldable pub held_securities : List Account → List ℕ
held_securities [] = []
held_securities (a ∷ rest) =
    add_security (if is_role a.role position_units then a.security_id else none)
      (held_securities rest)

abbrev pub holds_units : ℕ → ℕ → Store → ℕ → Posting → Bool
holds_units customer as_of_date s security p =
    column_is p.customer_id customer
    && any
        (λ a.
          a.id == p.account_id && is_role a.role position_units && column_is a.security_id security)
        s.accounts
    && dated_by as_of_date s.journal_entries p.journal_entry_id

-- The groups of `_position_units`, by the rows that count for a security; a security that the
-- customer has no row of counts as 0, which every reader passes over.
unfoldable pub held_units :
    (ℕ → Posting → Bool) → List Posting → List ℕ → Result Error (List (ℕ × Units))
held_units counts postings [] = ok []
held_units counts postings (n ∷ ns) = do
  held ← make units (position_sum (counts n) postings)
  rest ← held_units counts postings ns
  ok (if is_zero held then rest else (n, held) ∷ rest)

-- `position_units`
unfoldable pub position_units_of : ℕ → ℕ → Store → Result Error (List (ℕ × Units))
position_units_of customer as_of_date s =
    held_units (holds_units customer as_of_date s) s.postings (held_securities s.accounts)

pub record BookValuation : Type 0 where
  pub total_value : Money
  pub is_complete : Bool

-- One round of the loop of `value_book`, with the close that it found.
unfoldable pub value_position :
    Option DailyClose → Units → BookValuation → Result Error BookValuation
value_position none held book = ok (record book { is_complete = false })
value_position (some close) held book = do
  value ← mul_price_units close.close_price held
  total ← add money book.total_value value
  ok (record book { total_value = total })

unfoldable pub value_positions :
    ℕ → List DailyClose → List (ℕ × Units) → BookValuation → Result Error BookValuation
value_positions as_of_date closes [] book = ok book
value_positions as_of_date closes (held ∷ rest) book = do
  next ← value_position (latest_confirmed held.0 as_of_date closes) held.1 book
  value_positions as_of_date closes rest next

unfoldable pub value_book : ℕ → ℕ → Store → Result Error BookValuation
value_book customer as_of_date s = do
  cash ← cash_balance customer as_of_date s
  positions ← position_units_of customer as_of_date s
  value_positions as_of_date s.daily_closes positions
      (record { total_value = cash; is_complete = true })
