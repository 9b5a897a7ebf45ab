-- ===== src/Valuation/Twr.antt =====
-- services/valuation/twr_service.py and models/marketdata/sub_period_return.py: time-weighted
-- returns, linked from stored rows, of which a new one is written only if a figure has changed.
use trueup.Prelude.{
  ℕ, Bool, not, ◌&&◌, ◌||◌, Option, none, some, List, [], ◌∷◌, ◌++◌, filter, any, Result, ok, leb,
  ltb, ◌==◌, if◌then◌else◌,
}
use trueup.Prelude.{◌>>=◌ as bind_result}
use trueup.Prelude.Int.{ℤ, pos, eqb_ℤ, abs}
use trueup.Errors.{Error, integrity_error, numeric_overflow}
use trueup.Money.{money, Money, make, sub, is_zero}
use trueup.Decimal.{digits}
use trueup.Decimal.Signed.{SignedDecimal, one, of_quanta, plus, minus, product, ratio, quantize_to}
use trueup.Store.{
  Store, Action, pure, gets, lift, guard, modify, ◌>>=◌, ◌>>◌, JournalEntry, deposit, withdrawal,
  Posting, SubPeriodReturn,
}
use trueup.Ledger.Accounts.{column_is}
use trueup.Ledger.CashPolicy.{is_cash, settled_sum, type_code}
use trueup.Valuation.{newest, value_book}

-- NUMERIC(18,10)
abbrev pub return_places : ℕ
return_places = 10

-- `_EXTERNAL_FLOW_TYPES`
abbrev pub is_external_flow : JournalEntry → Bool
is_external_flow e =
    type_code e.entry_type == type_code deposit || type_code e.entry_type == type_code withdrawal

abbrev pub has_posting_of : ℕ → List Posting → ℕ → Bool
has_posting_of customer postings n =
    any (λ p. p.journal_entry_id == n && column_is p.customer_id customer) postings

-- `_flow_dates`
unfoldable pub flow_dates : ℕ → ℕ → ℕ → List JournalEntry → List Posting → List ℕ
flow_dates customer period_start period_end [] postings = []
flow_dates customer period_start period_end (e ∷ es) postings =
    let rest = flow_dates customer period_start period_end es postings in
    if has_posting_of customer postings e.id
      && is_external_flow e
      && ltb period_start e.effective_date
      && ltb e.effective_date period_end
    then e.effective_date ∷ rest
    else rest

-- A date into a sorted list of dates, each once.
unfoldable pub insert_date : ℕ → List ℕ → List ℕ
insert_date d [] = d ∷ []
insert_date d (x ∷ xs) =
    if ltb d x then d ∷ x ∷ xs else if d == x then x ∷ xs else x ∷ insert_date d xs

unfoldable pub sorted_dates : List ℕ → List ℕ
sorted_dates [] = []
sorted_dates (d ∷ ds) = insert_date d (sorted_dates ds)

-- `_boundaries`
unfoldable pub boundaries : ℕ → ℕ → ℕ → List JournalEntry → List Posting → List ℕ
boundaries customer period_start period_end entries postings =
    sorted_dates
      (period_start ∷ period_end ∷ flow_dates customer period_start period_end entries postings)

-- `itertools.pairwise`
unfoldable pub pairwise : List ℕ → List (ℕ × ℕ)
pairwise [] = []
pairwise (a ∷ []) = []
pairwise (a ∷ b ∷ rest) = (a, b) ∷ pairwise (b ∷ rest)

-- `_flow_amount_on`
unfoldable pub flow_amount_on : ℕ → ℕ → Store → Result Error Money
flow_amount_on customer effective_date s = make money (
    settled_sum
      (λ p.
        column_is p.customer_id customer
        && is_cash s.accounts p.account_id
        && any
            (λ e.
              e.id == p.journal_entry_id
              && is_external_flow e
              && e.effective_date == effective_date)
            s.journal_entries)
      s.postings)

-- The return over a window; a base of 0 has the return 0.
unfoldable pub window_return : Money → Money → Money → Result Error ℤ
window_return value_begin value_end flow =
    if is_zero value_begin
    then ok (pos 0)
    else bind_result (sub money value_end value_begin) (λ change.
      bind_result (sub money change flow)
        (λ gain. quantize_to return_places (ratio gain value_begin)))

-- The figures of `_sub_period_return`, as the row that they would make.
unfoldable pub sub_period_row : ℕ → ℕ → ℕ × ℕ → Store → Result Error SubPeriodReturn
sub_period_row now customer window s = bind_result (value_book customer window.0 s) (λ begins.
    bind_result (value_book customer window.1 s) (λ ends.
      bind_result (flow_amount_on customer window.1 s) (λ flow.
        bind_result (window_return begins.total_value ends.total_value flow) (λ return_pct.
          ok (record {
            customer_id = customer;
            sub_period_start = window.0;
            sub_period_end = window.1;
            return_pct = return_pct;
            value_begin = begins.total_value;
            value_end = ends.total_value;
            flow_amount = flow;
            is_provisional = not begins.is_complete || not ends.is_complete;
            recorded_at = now;
          })))))

abbrev pub is_window : ℕ → ℕ × ℕ → SubPeriodReturn → Bool
is_window customer window r =
    r.customer_id == customer && r.sub_period_start == window.0 && r.sub_period_end == window.1

unfoldable pub latest_for_sub_period : ℕ → ℕ × ℕ → List SubPeriodReturn → Option SubPeriodReturn
latest_for_sub_period customer window rows =
    newest (λ r. r.recorded_at) (filter (is_window customer window) rows)

abbrev pub same_bool : Bool → Bool → Bool
same_bool a b = if a then b else not b

-- The comparison of the stored figures with the computed ones.
unfoldable pub same_figures : SubPeriodReturn → SubPeriodReturn → Bool
same_figures old new =
    eqb_ℤ old.return_pct new.return_pct
    && eqb_ℤ old.value_begin new.value_begin
    && eqb_ℤ old.value_end new.value_end
    && eqb_ℤ old.flow_amount new.flow_amount
    && same_bool old.is_provisional new.is_provisional

-- A row under the constraint on the window and the instant.
abbrev pub is_recorded_at : SubPeriodReturn → SubPeriodReturn → Bool
is_recorded_at row r =
    is_window row.customer_id (row.sub_period_start, row.sub_period_end) r
    && r.recorded_at == row.recorded_at

-- The insert; the column of a return holds 18 digits.
unfoldable pub add_sub_period : SubPeriodReturn → Action SubPeriodReturn
add_sub_period row = do
  taken ← gets (λ s. any (is_recorded_at row) s.sub_period_returns)
  guard taken integrity_error
  guard (not (leb (digits (abs row.return_pct)) 18)) numeric_overflow
  modify (λ s. record s { sub_period_returns = s.sub_period_returns ++ row ∷ [] })
  pure row

abbrev pub keep_or_add : SubPeriodReturn → Option SubPeriodReturn → Action SubPeriodReturn
keep_or_add row none = add_sub_period row
keep_or_add row (some old) = if same_figures old row then pure old else add_sub_period row

-- `_sub_period_return`, at the instant of the transaction.
unfoldable pub recompute_sub_period : ℕ → ℕ → ℕ × ℕ → Action SubPeriodReturn
recompute_sub_period now customer window = do
  computed ← gets (sub_period_row now customer window)
  row ← lift computed
  existing ← gets (λ s. latest_for_sub_period customer window s.sub_period_returns)
  keep_or_add row existing

unfoldable pub recompute_windows : ℕ → ℕ → List (ℕ × ℕ) → Action (List SubPeriodReturn)
recompute_windows now customer [] = pure []
recompute_windows now customer (w ∷ ws) = do
  row ← recompute_sub_period now customer w
  rows ← recompute_windows now customer ws
  pure (row ∷ rows)

-- The product of `link`.
unfoldable pub linked : SignedDecimal → List SubPeriodReturn → SignedDecimal
linked total [] = total
linked total (r ∷ rs) = linked (product total (plus one (of_quanta r.return_pct return_places))) rs

unfoldable pub link : List SubPeriodReturn → Result Error ℤ
link rows = quantize_to return_places (minus (linked one rows) one)

pub record TwrResult : Type 0 where
  pub twr : ℤ
  pub is_provisional : Bool
  pub sub_periods : List SubPeriodReturn

unfoldable pub compute_twr : ℕ → ℕ → ℕ → ℕ → Action TwrResult
compute_twr now customer period_start period_end = do
  dates ← gets (λ s. boundaries customer period_start period_end s.journal_entries s.postings)
  rows ← recompute_windows now customer (pairwise dates)
  twr ← lift (link rows)
  pure (record { twr = twr; is_provisional = any (λ r. r.is_provisional) rows; sub_periods = rows })
