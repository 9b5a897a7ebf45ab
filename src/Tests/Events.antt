-- ===== src/Tests/Events.antt =====
-- Trade updates, the outbox and the high-water mark at concrete inputs.
use trueup.Prelude.{
  ◌≤◌, ℕ, suc, ◌≡◌, refl, All, Bool, true, false, Option, none, some, List, [], ◌∷◌, Result, ok,
  err, ltb, leb, arith,
}
use trueup.Prelude.Int.{ℤ, pos, ◌+ℤ◌, ◌≤ℤ◌, sum_ℤ}
use trueup.Errors.{integrity_error}
use trueup.Money.{Money, mul_price_units}
use trueup.Store.{Store, filled, fill, HighWaterMark}
use trueup.Orders.Projection.{fold}
use trueup.Orders.Service.{apply_new_event}
use trueup.Orders.TradeUpdates.{TradeUpdate}
use trueup.Orders.Unique.{apply_new_event_unique}
use trueup.Outbox.{JobOutbox, claim_next, enqueue}
use trueup.Outbox.Attempts.{Run, start, next, enqueues, claims, records}
use trueup.Outbox.Claimed.{times_claimed, Run-claims}
use trueup.Fees.{ratchet}
use trueup.Fees.Telescope.{Ratchets, day, gains-telescope}
use trueup.Tests.OrderRuns.{placed, order, filling, projected}

abbrev after_fill : Store
after_fill = record placed {
  orders =
      record order {
        status = filled;
        filled_quantity = pos 2000000;
        average_fill_price = some (pos 4000000);
      }
      ∷ [];
  order_events = filling ∷ [];
}

apply_new_event_unique_example :
    apply_new_event 32 order (record filling { seq = 31 }) after_fill ≡ err integrity_error
unfolding apply_new_event trueup.Orders.Service.is_duplicate
    trueup.Orders.Service.release_if_warranted fold trueup.Orders.Projection.fold_events
    trueup.Orders.Projection.sort_events trueup.Orders.Projection.insert_event
    trueup.Orders.Projection.apply_event trueup.Orders.Projection.apply_fill
    trueup.Orders.Projection.average trueup.Money.div_money_units mul_price_units trueup.Money.make
    trueup.Money.integer_digits trueup.Decimal.digits trueup.Decimal.quotient
    trueup.Decimal.quantize trueup.Decimal.in_context trueup.Decimal.Rounding.half_even
    trueup.Money.add trueup.Prelude.Int.◌+ℤ◌
apply_new_event_unique_example =
    apply_new_event_unique 30 32 3 order order filling (record filling { seq = 31 }) placed
      {p = projected} {s' = after_fill} refl refl refl

abbrev bought : TradeUpdate
bought = record {
  event = some fill;
  execution_id = some 3;
  client_order_id = 100;
  timestamp = 30;
  price = some (pos 4000000);
  qty = some (pos 2000000);
}

-- A task that is enqueued, claimed by worker 8, fails, and is claimed by worker 9, with a limit of 2.
abbrev waiting : JobOutbox
waiting = record {
  id = 1;
  attempts = 0;
  next_attempt_at = 10;
  status = trueup.Outbox.pending;
  locked_by = none;
  created_at = 10;
}

abbrev retried : JobOutbox
retried = record waiting { attempts = 1; next_attempt_at = 13 }

abbrev claimed_again : JobOutbox
claimed_again = record retried {
  attempts = 2;
  status = trueup.Outbox.processing;
  locked_by = some 9;
}

abbrev claimed_once : JobOutbox
claimed_once = record waiting {
  attempts = 1;
  status = trueup.Outbox.processing;
  locked_by = some 8;
}

abbrev drained : Run 2 (1 ∷ 1 ∷ []) (claimed_again ∷ [])
unfolding enqueue claim_next trueup.Outbox.next_claimable trueup.Outbox.claim
    trueup.Outbox.record_outcome trueup.Outbox.retry_or_dead_letter trueup.Outbox.retry_row
    trueup.Outbox.locked_by_worker
drained =
    next {rows = retried ∷ []}
      (next {rows = claimed_once ∷ []} {rows' = retried ∷ []}
        (next {rows = waiting ∷ []} {rows' = claimed_once ∷ []}
          (next {rows = []} {rows' = waiting ∷ []} start (enqueues {rows = []} 1 10 refl))
          (claims {rows = waiting ∷ []} 8 11 refl))
        (records {rows = claimed_once ∷ []} {rows' = retried ∷ []} true 8 12 claimed_once refl))
      (claims {rows = retried ∷ []} 9 14 refl)

Run-claims_example : times_claimed 1 (1 ∷ 1 ∷ []) ≤ 2
Run-claims_example = Run-claims 2 1 {rows = claimed_again ∷ []} (omega arith) drained

-- A rise of 5.00, a fall, and a rise of 1.00 above the mark.
abbrev mark : ℕ → Money → HighWaterMark
mark t peak = record { customer_id = 1; peak_value = peak; updated_at = t }

abbrev days :
    Ratchets
      (mark 0 (pos 1000000))
      (pos 1050000 ∷ pos 900000 ∷ pos 1060000 ∷ [])
      (pos 50000 ∷ pos 0 ∷ pos 10000 ∷ [])
      (mark 3 (pos 1060000))
unfolding ratchet trueup.Money.sub trueup.Money.make trueup.Money.integer_digits
    trueup.Decimal.digits trueup.Prelude.Int.◌-ℤ◌
days =
    day {h = mark 0 (pos 1000000)} {h' = mark 1 (pos 1050000)} {shadow = pos 1050000}
      {gain = pos 50000} 1 refl
      (day {h = mark 1 (pos 1050000)} {h' = mark 1 (pos 1050000)} {shadow = pos 900000}
        {gain = pos 0} 2 refl
        (day {h = mark 1 (pos 1050000)} {h' = mark 3 (pos 1060000)} {shadow = pos 1060000}
          {gain = pos 10000} 3 refl Ratchets.none))

gains-telescope_example :
    (pos 1000000 +ℤ sum_ℤ (pos 50000 ∷ pos 0 ∷ pos 10000 ∷ []) ≡ pos 1060000)
    × (pos 1000000 ≤ℤ pos 1060000)
    × All (λ s. s ≤ℤ pos 1060000) (pos 1050000 ∷ pos 900000 ∷ pos 1060000 ∷ [])
    × All (λ g. pos 0 ≤ℤ g) (pos 50000 ∷ pos 0 ∷ pos 10000 ∷ [])
gains-telescope_example = gains-telescope days
