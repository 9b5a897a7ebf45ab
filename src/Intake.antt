-- ===== src/Intake.antt =====
-- services/intake/event_intake.py and models/ops/inbound_event.py: signals from outside are taken in
-- once. A text is only compared, and stands as a number.
pub mod Deduplicated
use trueup.Prelude.{
  ℕ, suc, Bool, true, false, not, ◌&&◌, List, [], ◌∷◌, ◌++◌, any, ◌==◌, if◌then◌else◌,
}
use trueup.Outbox.{JobOutbox, enqueue}

pub data InboundEventStatus : Type 0 where
  received processing processed failed unmatched : InboundEventStatus

pub data InboundEventSource : Type 0 where
  alpaca plaid stripe marketdata custodian_file : InboundEventSource

unfoldable pub source_code : InboundEventSource → ℕ
source_code alpaca = 0
source_code plaid = 1
source_code stripe = 2
source_code marketdata = 3
source_code custodian_file = 4

-- Of the row, the columns that the intake writes.
pub record InboundEvent : Type 0 where
  pub id : ℕ
  pub source : InboundEventSource
  pub source_event_id : ℕ
  pub signature_verified : Bool
  pub received_at : ℕ
  pub status : InboundEventStatus
  pub attempts : ℕ

-- The envelope, with the bytes and the signature that came with it as one number.
pub record IncomingEvent : Type 0 where
  pub source : InboundEventSource
  pub source_event_id : ℕ
  pub delivery : ℕ

pub data IntakeResult : Type 0 where
  accepted duplicate invalid_signature : IntakeResult

-- The two tables, and the source of ids.
pub record IntakeTables : Type 0 where
  pub next_id : ℕ
  pub inbound_events : List InboundEvent
  pub outbox : List JobOutbox

-- `uq_inbound_event_source_event`
abbrev pub same_source_event : IncomingEvent → InboundEvent → Bool
same_source_event e r =
    source_code r.source == source_code e.source && r.source_event_id == e.source_event_id

abbrev pub is_recorded : IncomingEvent → List InboundEvent → Bool
is_recorded e rows = any (same_source_event e) rows

abbrev pub inbound_row : ℕ → ℕ → IncomingEvent → InboundEvent
inbound_row id now e = record {
  id = id;
  source = e.source;
  source_event_id = e.source_event_id;
  signature_verified = true;
  received_at = now;
  status = received;
  attempts = 0;
}

-- `EventIntakeService.intake`, with the verifier of signatures as its port.
unfoldable pub intake :
    (IncomingEvent → Bool) → ℕ → IncomingEvent → IntakeTables → IntakeResult × IntakeTables
intake verify now e s =
    if not (verify e)
    then (invalid_signature, s)
    else if is_recorded e s.inbound_events
    then (duplicate, s)
    else (
      accepted,
      record {
        next_id = suc (suc s.next_id);
        inbound_events = s.inbound_events ++ inbound_row s.next_id now e ∷ [];
        outbox = enqueue (suc s.next_id) now s.outbox;
      },
    )
