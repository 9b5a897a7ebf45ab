-- ===== src/Tests/Publications.antt =====
-- A period of two windows is published; a later close makes the second window anew, and the
-- snapshot still reproduces.
use trueup.Prelude.{ℕ, ◌≡◌, refl, true, false, none, some, List, [], ◌∷◌, ◌++◌, ok, arith}
use trueup.Prelude.Int.{ℤ, pos, negsuc}
use trueup.Store.{
  Store, deposit, trade_buy, position_units, money_dimension, units_dimension, confirmed,
  PublishedSnapshot, SubPeriodReturn, correction, manual_correction, JournalEntry, Posting,
}
use trueup.Restatement.Snapshots.{publish, cross_check}
use trueup.Restatement.Service.{restate, fee_disclosure_checker}
use trueup.Restatement.Published.{publish-cross_check}
use trueup.Restatement.Undisturbed.{Restated, next, Restated-cross_check}
use trueup.Tests.Books.{opening}

-- 100.00 on day 10 in cash.
abbrev pub funded : Store
funded = record opening {
  journal_entries =
      record {
        id = 1;
        entry_type = deposit;
        effective_date = 10;
        source_event_id = 2;
        superseded_by = none;
      }
      ∷ [];
  postings =
      record {
        journal_entry_id = 1;
        account_id = 10;
        customer_id = some 1;
        amount_money = some (pos 1000000);
        quantity_units = none;
      }
      ∷ [];
}

abbrev window : ℕ → ℕ → ℤ → ℤ → ℤ → SubPeriodReturn
window from to begins ends flow = record {
  customer_id = 1;
  sub_period_start = from;
  sub_period_end = to;
  return_pct = pos 0;
  value_begin = begins;
  value_end = ends;
  flow_amount = flow;
  is_provisional = false;
  recorded_at = 50;
}

abbrev statement : PublishedSnapshot
statement = record {
  customer_id = 1;
  period_start = 5;
  period_end = 20;
  publish_watermark = 50;
  twr = pos 0;
  balance = pos 1000000;
  holdings = [];
  published_at = 50;
}

abbrev pub published : Store
published = record funded {
  sub_period_returns =
      window 5 10 (pos 0) (pos 1000000) (pos 1000000)
      ∷ window 10 20 (pos 1000000) (pos 1000000) (pos 0)
      ∷ [];
  published_snapshots = statement ∷ [];
}

publishes : publish 50 1 5 20 funded ≡ ok (statement, published)
unfolding publish trueup.Valuation.Twr.compute_twr trueup.Valuation.Twr.recompute_windows
    trueup.Valuation.Twr.pairwise trueup.Valuation.Twr.boundaries trueup.Valuation.Twr.sorted_dates
    trueup.Valuation.Twr.insert_date trueup.Valuation.Twr.flow_dates
    trueup.Valuation.Twr.recompute_sub_period trueup.Valuation.Twr.sub_period_row
    trueup.Valuation.Twr.flow_amount_on trueup.Valuation.Twr.window_return
    trueup.Valuation.Twr.latest_for_sub_period trueup.Valuation.Twr.same_figures
    trueup.Valuation.Twr.add_sub_period trueup.Valuation.Twr.linked trueup.Valuation.Twr.link
    trueup.Valuation.value_book trueup.Valuation.cash_balance trueup.Valuation.position_units_of
    trueup.Valuation.held_units trueup.Valuation.held_securities trueup.Valuation.value_positions
    trueup.Money.make trueup.Money.sub trueup.Money.integer_digits
    trueup.Ledger.CashPolicy.settled_sum trueup.Prelude.Int.◌+ℤ◌ trueup.Prelude.Int.◌-ℤ◌
    trueup.Prelude.Int.◌*ℤ◌ trueup.Decimal.digits trueup.Decimal.quotient trueup.Decimal.in_context
    trueup.Decimal.Rounding.half_even trueup.Decimal.Signed.rounded trueup.Decimal.Signed.plus
    trueup.Decimal.Signed.minus trueup.Decimal.Signed.product trueup.Decimal.Signed.ratio
    trueup.Decimal.Signed.quantize_to trueup.Restatement.Snapshots.current_holdings
    trueup.Restatement.Snapshots.last_value
publishes = refl

publish-cross_check_example : cross_check statement published ≡ ok (tt, published)
publish-cross_check_example = publish-cross_check 50 1 5 20 funded tt publishes

-- A charge of 10.00 that comes to light later, on day 15.
abbrev corrected : Store
corrected = record published {
  journal_entries =
      published.journal_entries
      ++ record {
        id = 3;
        entry_type = correction;
        effective_date = 15;
        source_event_id = 4;
        superseded_by = none;
      }
        ∷ [];
  postings =
      published.postings
      ++ record {
        journal_entry_id = 3;
        account_id = 10;
        customer_id = some 1;
        amount_money = some (negsuc 99999);
        quantity_units = none;
      }
        ∷ [];
}

still_passes : cross_check statement corrected ≡ ok (tt, corrected)
unfolding cross_check trueup.Valuation.Twr.compute_twr trueup.Valuation.Twr.recompute_windows
    trueup.Valuation.Twr.pairwise trueup.Valuation.Twr.boundaries trueup.Valuation.Twr.sorted_dates
    trueup.Valuation.Twr.insert_date trueup.Valuation.Twr.flow_dates
    trueup.Valuation.Twr.recompute_sub_period trueup.Valuation.Twr.sub_period_row
    trueup.Valuation.Twr.flow_amount_on trueup.Valuation.Twr.window_return
    trueup.Valuation.Twr.latest_for_sub_period trueup.Valuation.Twr.same_figures
    trueup.Valuation.Twr.add_sub_period trueup.Valuation.Twr.linked trueup.Valuation.Twr.link
    trueup.Valuation.value_book trueup.Valuation.cash_balance trueup.Valuation.position_units_of
    trueup.Valuation.held_units trueup.Valuation.held_securities trueup.Valuation.value_positions
    trueup.Money.make trueup.Money.sub trueup.Money.integer_digits
    trueup.Ledger.CashPolicy.settled_sum trueup.Prelude.Int.◌+ℤ◌ trueup.Prelude.Int.◌-ℤ◌
    trueup.Prelude.Int.◌*ℤ◌ trueup.Decimal.digits trueup.Decimal.quotient trueup.Decimal.in_context
    trueup.Decimal.Rounding.half_even trueup.Decimal.Signed.rounded trueup.Decimal.Signed.plus
    trueup.Decimal.Signed.minus trueup.Decimal.Signed.product trueup.Decimal.Signed.ratio
    trueup.Decimal.Signed.quantize_to trueup.Restatement.Snapshots.current_holdings
    trueup.Restatement.Snapshots.last_value trueup.Restatement.Snapshots.derive
    trueup.Restatement.Snapshots.derive_windows trueup.Restatement.Snapshots.as_of_for_sub_period
still_passes = refl

-- The second window, computed anew: a loss of a tenth.
abbrev second : SubPeriodReturn
second = record (window 10 20 (pos 1000000) (pos 900000) (pos 0)) {
  return_pct = negsuc 999999999;
  recorded_at = 60;
}

abbrev restated : Store
restated = record corrected {
  next_id = 101;
  restatement_events =
      record {
        id = 100;
        customer_id = 1;
        affected_period_start = 10;
        affected_period_end = 20;
        trigger_type = manual_correction;
        trigger_source_event_id = 4;
      }
      ∷ [];
  sub_period_returns = corrected.sub_period_returns ++ second ∷ [];
}

restates :
    restate 60 (some fee_disclosure_checker) 1 manual_correction 4 15 corrected
    ≡ ok (second ∷ [], restated)
unfolding restate cross_check trueup.Store.fresh_id trueup.Valuation.Twr.compute_twr
    trueup.Valuation.Twr.recompute_windows trueup.Valuation.Twr.pairwise
    trueup.Valuation.Twr.boundaries trueup.Valuation.Twr.sorted_dates
    trueup.Valuation.Twr.insert_date trueup.Valuation.Twr.flow_dates
    trueup.Valuation.Twr.recompute_sub_period trueup.Valuation.Twr.sub_period_row
    trueup.Valuation.Twr.flow_amount_on trueup.Valuation.Twr.window_return
    trueup.Valuation.Twr.latest_for_sub_period trueup.Valuation.Twr.same_figures
    trueup.Valuation.Twr.add_sub_period trueup.Valuation.Twr.linked trueup.Valuation.Twr.link
    trueup.Valuation.value_book trueup.Valuation.cash_balance trueup.Valuation.position_units_of
    trueup.Valuation.held_units trueup.Valuation.held_securities trueup.Valuation.value_positions
    trueup.Money.make trueup.Money.sub trueup.Money.integer_digits
    trueup.Ledger.CashPolicy.settled_sum trueup.Prelude.Int.◌+ℤ◌ trueup.Prelude.Int.◌-ℤ◌
    trueup.Prelude.Int.◌*ℤ◌ trueup.Decimal.digits trueup.Decimal.quotient trueup.Decimal.in_context
    trueup.Decimal.Rounding.half_even trueup.Decimal.Signed.rounded trueup.Decimal.Signed.plus
    trueup.Decimal.Signed.minus trueup.Decimal.Signed.product trueup.Decimal.Signed.ratio
    trueup.Decimal.Signed.quantize_to trueup.Restatement.Snapshots.current_holdings
    trueup.Restatement.Snapshots.last_value trueup.Restatement.Snapshots.derive
    trueup.Restatement.Snapshots.derive_windows trueup.Restatement.Snapshots.as_of_for_sub_period
    trueup.Restatement.Service.has_succeeded_charge_for_period
    trueup.Restatement.Service.check_and_disclose trueup.Restatement.Service.insert_window
    trueup.Restatement.Service.containing trueup.Restatement.Service.list_touching
    trueup.Restatement.Service.relink_each trueup.Restatement.Service.relink_and_cross_check
    trueup.Restatement.Service.add_event trueup.Restatement.Service.restate_windows
    trueup.Restatement.Service.restate_found
restates = refl

Restated-cross_check_example : cross_check statement restated ≡ ok (tt, restated)
Restated-cross_check_example = Restated-cross_check statement corrected still_passes (
    next {s1 = corrected} {s' = restated} {rows = second ∷ []} true 60 1 manual_correction 4 15
      Restated.none (omega arith) restates)
