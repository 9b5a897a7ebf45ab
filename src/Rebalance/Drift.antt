-- ===== src/Rebalance/Drift.antt =====
-- services/rebalance/drift_evaluation_service.py: holdings against their targets on a relative band.
use trueup.Prelude.{
  ℕ, Bool, true, false, not, ◌||◌, Option, none, some, List, [], ◌∷◌, ◌++◌, filter, any, Result, ok,
  err, ◌==◌, if◌then◌else◌, ◌>>=◌, require,
}
use trueup.Prelude.Int.{pos, abs, ltb_ℤ}
use trueup.Errors.{Error, no_assigned_model}
use trueup.Money.{money, Money, Units, Price, make, mul_price_units, is_zero}
use trueup.Decimal.Signed.{
  SignedDecimal, one, of_quanta, larger, at_scale, plus, minus, product, ratio, quantize_to,
}
use trueup.Store.{Store, DailyClose, CustomerModelAssignment, TargetWeight}
use trueup.Valuation.{latest_confirmed, position_units_of, cash_balance, BookValuation, value_book}

abbrev pub weight_places : ℕ
weight_places = 4

abbrev pub zero_weight : SignedDecimal
zero_weight = of_quanta (pos 0) 0

-- `Money * Decimal`
unfoldable pub mul_money_decimal : Money → SignedDecimal → Result Error Money
mul_money_decimal m d = do quanta ← quantize_to 4 (product (of_quanta m 4) d); make money quanta

-- `Decimal / Decimal`, by a divisor that is not 0.
unfoldable pub divide : SignedDecimal → SignedDecimal → SignedDecimal
divide a b = let scale = larger a.scale b.scale in ratio (at_scale scale a) (at_scale scale b)

abbrev pub magnitude_of : SignedDecimal → SignedDecimal
magnitude_of d = record d { value = pos (abs d.value) }

abbrev pub ltb_decimal : SignedDecimal → SignedDecimal → Bool
ltb_decimal a b = let scale = larger a.scale b.scale in ltb_ℤ (at_scale scale a) (at_scale scale b)

unfoldable pub is_out_of_band : SignedDecimal → SignedDecimal → SignedDecimal → Bool
is_out_of_band current target band =
    if is_zero target.value
    then not (is_zero current.value)
    else ltb_decimal band (magnitude_of (divide (minus current target) target))

pub data Direction : Type 0 where
  buy_more sell_off : Direction

-- `security_id` is `none` for the implicit cash holding.
pub record DriftEntry : Type 0 where
  pub security_id : Option ℕ
  pub current_market_value : Money
  pub target_market_value : Money
  pub current_weight_pct : SignedDecimal
  pub target_weight_pct : SignedDecimal
  pub price : Option Price
  pub is_flagged : Bool
  pub direction : Direction

pub record DriftEvaluation : Type 0 where
  pub customer_id : ℕ
  pub model_portfolio_id : ℕ
  pub as_of_date : ℕ
  pub is_complete : Bool
  pub total_value : Money
  pub entries : List DriftEntry

abbrev pub flagged : List DriftEntry → List DriftEntry
flagged entries = filter (λ e. e.is_flagged) entries

abbrev pub get_units : ℕ → List (ℕ × Units) → Units
get_units security [] = pos 0
get_units security (h ∷ hs) = if h.0 == security then h.1 else get_units security hs

-- A missing price outweighs what comes after it.
abbrev pub with_entry :
    Option DriftEntry
    → Result Error (Option (List DriftEntry))
    → Result Error (Option (List DriftEntry))
with_entry none others = ok none
with_entry (some entry) (err e) = err e
with_entry (some entry) (ok none) = ok none
with_entry (some entry) (ok (some entries)) = ok (some (entry ∷ entries))

module _ (band : SignedDecimal) (total_value : Money) where
  unfoldable pub build_entry :
      Option ℕ → Money → SignedDecimal → Option Price → Result Error DriftEntry
  build_entry security current_value target_weight price = do
    target_value ← mul_money_decimal total_value target_weight
    let current_weight = ratio current_value total_value
    ok (record {
      security_id = security;
      current_market_value = current_value;
      target_market_value = target_value;
      current_weight_pct = current_weight;
      target_weight_pct = target_weight;
      price = price;
      is_flagged = is_out_of_band current_weight target_weight band;
      direction = if ltb_ℤ target_value current_value then sell_off else buy_more;
    })

  -- The entry of a security with its close; `none` where there is no confirmed one.
  abbrev pub entry_at :
      ℕ → Units → SignedDecimal → Option DailyClose → Result Error (Option DriftEntry)
  entry_at security held weight none = ok none
  entry_at security held weight (some close) = do
    value ← mul_price_units close.close_price held
    entry ← build_entry (some security) value weight (some close.close_price)
    ok (some entry)

  -- The loops over the targets and over the dropped securities, each a list of what is held and
  -- weighted; `none` ends the evaluation as partial.
  unfoldable pub build_entries :
      ℕ
      → List DailyClose
      → List (ℕ × Units × SignedDecimal)
      → Result Error (Option (List DriftEntry))
  build_entries as_of_date closes [] = ok (some [])
  build_entries as_of_date closes ((security, held, weight) ∷ rest) = do
    built ← entry_at security held weight (latest_confirmed security as_of_date closes)
    with_entry built (build_entries as_of_date closes rest)

abbrev pub list_for_model : ℕ → List TargetWeight → List TargetWeight
list_for_model model weights = filter (λ w. w.model_portfolio_id == model) weights

abbrev pub target_lines : List (ℕ × Units) → List TargetWeight → List (ℕ × Units × SignedDecimal)
target_lines held [] = []
target_lines held (t ∷ ts) =
    (t.security_id, get_units t.security_id held, of_quanta (pos t.weight_pct) weight_places)
    ∷ target_lines held ts

-- A held security that the model does not name has the target 0.
abbrev pub dropped_lines : List TargetWeight → List (ℕ × Units) → List (ℕ × Units × SignedDecimal)
dropped_lines targets [] = []
dropped_lines targets (h ∷ hs) =
    let rest = dropped_lines targets hs in
    if any (λ t. t.security_id == h.0) targets then rest else (h.0, h.1, zero_weight) ∷ rest

abbrev pub accounted : SignedDecimal → List TargetWeight → SignedDecimal
accounted total [] = total
accounted total (t ∷ ts) = accounted (plus total (of_quanta (pos t.weight_pct) weight_places)) ts

abbrev pub find_assignment : ℕ → List CustomerModelAssignment → Option CustomerModelAssignment
find_assignment customer [] = none
find_assignment customer (a ∷ rest) =
    if a.customer_id == customer then some a else find_assignment customer rest

module _ (band : SignedDecimal) (customer as_of_date : ℕ) where
  abbrev pub evaluation : ℕ → BookValuation → Bool → List DriftEntry → DriftEvaluation
  evaluation model book is_complete entries = record {
    customer_id = customer;
    model_portfolio_id = model;
    as_of_date = as_of_date;
    is_complete = is_complete;
    total_value = book.total_value;
    entries = entries;
  }

  -- The end of `evaluate`: the cash entry behind the others, unless a price is missing.
  abbrev pub with_cash :
      ℕ
      → BookValuation
      → Money
      → SignedDecimal
      → Option (List DriftEntry)
      → Result Error DriftEvaluation
  with_cash model book cash weight none = ok (evaluation model book false [])
  with_cash model book cash weight (some entries) = do
    entry ← build_entry band book.total_value none cash weight none
    ok (evaluation model book true (entries ++ entry ∷ []))

  unfoldable pub evaluate_book : ℕ → BookValuation → Store → Result Error DriftEvaluation
  evaluate_book model book s = do
    let targets = list_for_model model s.target_weights
    held ← position_units_of customer as_of_date s
    cash ← cash_balance customer as_of_date s
    entries ←
        build_entries band book.total_value as_of_date s.daily_closes
          (target_lines held targets ++ dropped_lines targets held)
    with_cash model book cash (minus one (accounted zero_weight targets)) entries

  unfoldable pub evaluate : Store → Result Error DriftEvaluation
  evaluate s = do
    assignment ← require (find_assignment customer s.customer_model_assignments) no_assigned_model
    book ← value_book customer as_of_date s
    if not book.is_complete || is_zero book.total_value
        then ok (evaluation assignment.model_portfolio_id book book.is_complete [])
        else evaluate_book assignment.model_portfolio_id book s
