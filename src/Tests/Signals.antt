-- ===== src/Tests/Signals.antt =====
-- An event that is delivered three times, once with a signature that fails.
use trueup.Prelude.{ℕ, ◌≡◌, Bool, not, List, [], ◌∷◌, length, ◌==◌}
use trueup.Intake.{IncomingEvent, alpaca}
use trueup.Intake.Deduplicated.{deliver, rows_of, once, was_delivered, no_events, deliver-once}

abbrev fill_signal : ℕ → IncomingEvent
fill_signal delivery = record { source = alpaca; source_event_id = 12; delivery = delivery }

abbrev signed : IncomingEvent → Bool
signed e = not (e.delivery == 9)

abbrev deliveries : List (ℕ × IncomingEvent)
deliveries = (1, fill_signal 9) ∷ (2, fill_signal 8) ∷ (3, fill_signal 7) ∷ []

deliver-once_example :
    ((e : IncomingEvent)
      → rows_of e (deliver signed deliveries (no_events 50)).inbound_events
        ≡ once (was_delivered signed e deliveries))
    × (length (deliver signed deliveries (no_events 50)).outbox
        ≡ length (deliver signed deliveries (no_events 50)).inbound_events)
deliver-once_example = deliver-once signed deliveries 50
