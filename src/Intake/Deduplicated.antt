-- ===== src/Intake/Deduplicated.antt =====
-- However often an event is delivered, it is recorded once and handed on once.
use trueup.Prelude.{
  ℕ, ◌+◌, ◌≡◌, refl, sym, ◌∙◌, ap, inl, inr, Bool, true, false, ◌&&◌, ◌||◌, Bool-cases, List, [],
  ◌∷◌, ◌++◌, any, length, length-append, ◌==◌, if◌then◌else◌, arith,
}
use trueup.Outbox.{enqueue}
use trueup.Intake.{
  source_code, InboundEvent, IncomingEvent, IntakeTables, same_source_event, is_recorded,
  inbound_row, intake,
}

-- The deliveries of a list, one transaction each, in order, at the instants of the list.
unfoldable pub deliver :
    (IncomingEvent → Bool) → List (ℕ × IncomingEvent) → IntakeTables → IntakeTables
deliver verify [] s = s
deliver verify (d ∷ ds) s = deliver verify ds (intake verify d.0 d.1 s).1

-- How many rows an event has.
unfoldable pub rows_of : IncomingEvent → List InboundEvent → ℕ
rows_of e [] = 0
rows_of e (r ∷ rs) = (if same_source_event e r then 1 else 0) + rows_of e rs

abbrev pub same_signal : IncomingEvent → IncomingEvent → Bool
same_signal e d =
    source_code d.source == source_code e.source && d.source_event_id == e.source_event_id

-- It was delivered with a signature that passed.
abbrev pub was_delivered : (IncomingEvent → Bool) → IncomingEvent → List (ℕ × IncomingEvent) → Bool
was_delivered verify e ds = any (λ d. verify d.1 && same_signal e d.1) ds

abbrev pub once : Bool → ℕ
once b = if b then 1 else 0

-- The tables of an intake: no event twice, and a task for each.
pub record IsTaken (s : IntakeTables) : Type 0 where
  pub at_most_once :
      (e : IncomingEvent) → rows_of e s.inbound_events ≡ once (is_recorded e s.inbound_events)
  pub handed_on : length s.outbox ≡ length s.inbound_events

is_recorded-append :
    (e : IncomingEvent) (rows : List InboundEvent) (r : InboundEvent)
    → is_recorded e (rows ++ r ∷ []) ≡ (is_recorded e rows || same_source_event e r)
is_recorded-append e [] r = ground arith
is_recorded-append e (x ∷ rows) r = let ih = is_recorded-append e rows r in ground arith

rows_of-append :
    (e : IncomingEvent) (rows : List InboundEvent) (r : InboundEvent)
    → rows_of e (rows ++ r ∷ []) ≡ rows_of e rows + once (same_source_event e r)
unfolding rows_of
rows_of-append e [] r = omega arith
rows_of-append e (x ∷ rows) r = let ih = rows_of-append e rows r in omega arith

-- Two deliveries of one event find the same rows.
is_recorded-same :
    (e d : IncomingEvent) (rows : List InboundEvent)
    → same_signal e d ≡ true
    → is_recorded e rows ≡ is_recorded d rows
is_recorded-same e d [] h = refl
is_recorded-same e d (r ∷ rows) h = let ih = is_recorded-same e d rows h in ground arith

or_assoc : (a b c : Bool) → ((a || b) || c) ≡ (a || (b || c))
or_assoc a b c = ground arith

append_once : (a b : Bool) (n : ℕ) → n ≡ once a → a && b ≡ false → n + once b ≡ once (a || b)
append_once a b n e k = ground arith

new_row-once :
    (e d : IncomingEvent) (rows : List InboundEvent)
    → is_recorded d rows ≡ false
    → is_recorded e rows && same_signal e d ≡ false
new_row-once e d rows fresh = elim (Bool-cases (same_signal e d)) [
  | inl same ↦
      let missing : is_recorded e rows ≡ false = is_recorded-same e d rows same ∙ fresh in
      rw missing refl
  | inr other ↦ rw other (ground arith)
]

module _ (verify : IncomingEvent → Bool) where
  -- An event that is recorded after a delivery was so before, or was the one delivered.
  intake-is_recorded :
      (now : ℕ) (d e : IncomingEvent) (s : IntakeTables)
      → is_recorded e (intake verify now d s).1.inbound_events
        ≡ (is_recorded e s.inbound_events || verify d && same_signal e d)
  unfolding intake
  intake-is_recorded now d e s = elim (Bool-cases (verify d)) [
    | inr forged ↦ rw forged (ground arith)
    | inl genuine ↦ elim (Bool-cases (is_recorded d s.inbound_events)) [
      | inl known ↦ elim (Bool-cases (same_signal e d)) [
        | inl same ↦
            let e_known : is_recorded e s.inbound_events ≡ true =
              is_recorded-same e d s.inbound_events same ∙ known in
            rw (genuine, known, same, e_known) refl
        | inr other ↦ rw (genuine, known, other) (ground arith)
      ]
      | inr fresh ↦
          rw (genuine, fresh) (is_recorded-append e s.inbound_events (inbound_row s.next_id now d))
    ]
  ]

  intake-IsTaken :
      (now : ℕ) (d : IncomingEvent) (s : IntakeTables)
      → IsTaken s
      → IsTaken (intake verify now d s).1
  unfolding intake enqueue
  intake-IsTaken now d s h = elim (Bool-cases (verify d)) [
    | inr forged ↦ rw forged h
    | inl genuine ↦ elim (Bool-cases (is_recorded d s.inbound_events)) [
      | inl known ↦ rw (genuine, known) h
      | inr fresh ↦
          let row = inbound_row s.next_id now d in
          rw (genuine, fresh)
            (record {
              at_most_once = λ e.
                  rw
                    (
                      rows_of-append e s.inbound_events row,
                      is_recorded-append e s.inbound_events row,
                    )
                    (append_once (is_recorded e s.inbound_events) (same_signal e d) _
                      (h.at_most_once e) (new_row-once e d s.inbound_events fresh));
              handed_on =
                  length-append s.outbox _
                  ∙ (ap (λ n. n + 1) h.handed_on ∙ sym (length-append s.inbound_events (row ∷ [])));
            })
    ]
  ]

  deliver-IsTaken :
      (ds : List (ℕ × IncomingEvent)) (s : IntakeTables)
      → IsTaken s
      → IsTaken (deliver verify ds s)
        × ((e : IncomingEvent)
            → is_recorded e (deliver verify ds s).inbound_events
              ≡ (is_recorded e s.inbound_events || was_delivered verify e ds))
  unfolding deliver
  deliver-IsTaken [] s h = (h, λ e. ground arith)
  deliver-IsTaken (d ∷ ds) s h =
      let (taken, recorded) =
        deliver-IsTaken ds (intake verify d.0 d.1 s).1 (intake-IsTaken d.0 d.1 s h) in
      (
        taken,
        λ e.
            recorded e
            ∙ (ap (λ b. b || was_delivered verify e ds) (intake-is_recorded d.0 d.1 e s)
                ∙ or_assoc (is_recorded e s.inbound_events) _ _),
      )

-- Empty tables.
abbrev pub no_events : ℕ → IntakeTables
no_events next_id = record { next_id = next_id; inbound_events = []; outbox = [] }

-- From empty tables, whatever is delivered, in whatever order and however often: an event has exactly one
-- row if one of its deliveries had a signature that passed, and none otherwise, and there are as many
-- tasks as rows.
pub deliver-once :
    (verify : IncomingEvent → Bool) (ds : List (ℕ × IncomingEvent)) (next_id : ℕ)
    → ((e : IncomingEvent)
        → rows_of e (deliver verify ds (no_events next_id)).inbound_events
          ≡ once (was_delivered verify e ds))
      × (length (deliver verify ds (no_events next_id)).outbox
          ≡ length (deliver verify ds (no_events next_id)).inbound_events)
unfolding rows_of
deliver-once verify ds next_id =
    let (taken, recorded) =
      deliver-IsTaken verify ds (no_events next_id)
        (record { at_most_once = λ e. refl; handed_on = refl }) in
    (λ e. taken.at_most_once e ∙ ap once (recorded e), taken.handed_on)
