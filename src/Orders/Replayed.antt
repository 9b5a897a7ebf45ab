-- ===== src/Orders/Replayed.antt =====
-- A request that was answered once is answered the same again, and does nothing again.
use trueup.Prelude.{
  ℕ, ◌≡◌, refl, sym, ap, ◌∙◌, ◌&&◌, not, true, false, Bool-cases, inl, inr, Option, none, some,
  List, [], ◌∷◌, ◌++◌, Result, ok, err, require, ok_injective, ◌==◌, ==→eq, if◌then◌else◌, arith,
}
use trueup.Errors.{Error, unauthenticated, forbidden, validation_failed, idempotency_conflict}
use trueup.Money.{Money, Units, Price}
use trueup.Store.{Store, lift, guard, fresh_id, Order, OrderSide, buy, sell, IdempotencyRecord}
use trueup.Store.Keeps.{Keeps, Holds_elim, Keeps-modify, keeps_rules, bind-ok, lift-ok, guard-ok}
use trueup.Funding.{check_eligibility}
use trueup.Orders.Service.{check_investable, create_order, enqueue_submission}
use trueup.Orders.Endpoints.{
  Session, is_customer, require_customer, CreateOrderRequest, find_key, Response, Framework,
  resolve_replay, create_new, respond, create_order_endpoint,
}

-- The stored responses are these.
abbrev HasKeys : List IdempotencyRecord → Store → Type 0
HasKeys keys s = s.idempotency_keys ≡ keys

module _ (keys : List IdempotencyRecord) where
  Keeps-fresh_id : Keeps (HasKeys keys) fresh_id
  unfolding fresh_id
  Keeps-fresh_id = record { at = λ s h. h }

  Keeps-check_eligibility : (customer : ℕ) → Keeps (HasKeys keys) (check_eligibility customer)
  unfolding check_eligibility
  Keeps-check_eligibility customer = search keeps_rules

  Keeps-check_investable :
      (side : OrderSide) (customer : ℕ) (notional : Money)
      → Keeps (HasKeys keys) (check_investable side customer notional)
  unfolding check_investable
  Keeps-check_investable buy customer notional = search keeps_rules
  Keeps-check_investable sell customer notional = search keeps_rules

  Keeps-create_order :
      (threshold : Money) (customer security : ℕ) (side : OrderSide) (quantity : Units)
      (price : Price)
      → Keeps (HasKeys keys) (create_order threshold customer security side quantity price)
  unfolding create_order
  Keeps-create_order threshold customer security side quantity price =
      search
        (keeps_rules, Keeps-check_eligibility, Keeps-check_investable, Keeps-fresh_id, Keeps-modify)
        depth 24

  Keeps-enqueue_submission :
      (now : ℕ) (order : Order) → Keeps (HasKeys keys) (enqueue_submission now order)
  unfolding enqueue_submission
  Keeps-enqueue_submission now order = search (keeps_rules, Keeps-fresh_id, Keeps-modify) depth 12

  Keeps-create_new :
      (framework : Framework) (threshold : Money) (now customer : ℕ) (request : CreateOrderRequest)
      → Keeps (HasKeys keys) (create_new framework threshold now customer request)
  unfolding create_new
  Keeps-create_new framework threshold now customer request =
      search (keeps_rules, Keeps-create_order, Keeps-enqueue_submission, Keeps-modify) depth 24

find_key-append :
    (customer key : ℕ) (rows more : List IdempotencyRecord) {r : IdempotencyRecord}
    → find_key customer key rows ≡ some r
    → find_key customer key (rows ++ more) ≡ some r
unfolding find_key
find_key-append customer key [] more e = cc
find_key-append customer key (x ∷ xs) more e =
    elim (Bool-cases (x.customer_id == customer && x.key == key)) [
      | inl here ↦ rw here (rw here at e)
      | inr there ↦ rw there (find_key-append customer key xs more (rw there at e))
    ]

find_key-new :
    (customer key : ℕ) (rows : List IdempotencyRecord) (r : IdempotencyRecord)
    → (r.customer_id == customer && r.key == key) ≡ true
    → find_key customer key rows ≡ none
    → find_key customer key (rows ++ r ∷ []) ≡ some r
unfolding find_key
find_key-new customer key [] r own e = rw own refl
find_key-new customer key (x ∷ xs) r own e =
    elim (Bool-cases (x.customer_id == customer && x.key == key)) [
      | inl here ↦ let no : ◌≡◌ {A = Option IdempotencyRecord} (some x) none = rw here at e in cc
      | inr there ↦ rw there (find_key-new customer key xs r own (rw there at e))
    ]

-- A response that is on file under a key, for the bytes with a hash.
record IsStored (customer key hash : ℕ) (response : Response) (rows : List IdempotencyRecord)
    : Type 0 where
  row : IdempotencyRecord
  on_file : find_key customer key rows ≡ some row
  of_bytes : row.request_hash ≡ hash
  answer : (row.response_status, row.response_body) ≡ response

module _ (framework : Framework) where
  resolve_replay-ok :
      (r : IdempotencyRecord) (body : ℕ) {response : Response}
      → resolve_replay framework r body ≡ ok response
      → (r.request_hash ≡ framework.request_hash body)
        × ((r.response_status, r.response_body) ≡ response)
  unfolding resolve_replay
  resolve_replay-ok r body {response} e =
      elim (Bool-cases (framework.request_hash body == r.request_hash)) [
        | inl same ↦ (
          sym (==→eq (framework.request_hash body) r.request_hash same),
          ok_injective {E = Error} (rw same at e),
        )
        | inr differs ↦
            let no : ◌≡◌ {A = Result Error Response} (err idempotency_conflict) (ok response) =
              rw differs at e in
            cc
      ]

  respond-IsStored :
      (threshold : Money) (now customer key body : ℕ) (request : CreateOrderRequest)
      (existing : Option IdempotencyRecord) (s : Store) {response : Response} {s' : Store}
      → find_key customer key s.idempotency_keys ≡ existing
      → respond framework threshold now customer key body request existing s ≡ ok (response, s')
      → IsStored customer key (framework.request_hash body) response s'.idempotency_keys
  unfolding respond
  respond-IsStored threshold now customer key body request (some r) s {response} {s'} found e =
      let (same, replayed) = lift-ok (resolve_replay framework r body) s e in
      let (hash, answer) = resolve_replay-ok r body replayed in
      rw same (record { row = r; on_file = found; of_bytes = hash; answer = answer })
  respond-IsStored threshold now customer key body request none s {response} {s'} found e =
      let created = create_new framework threshold now customer request in
      let (order, s1, e1, k1) = bind-ok created _ s e in
      let kept =
        Holds_elim (HasKeys s.idempotency_keys) (created s)
          ((Keeps-create_new s.idempotency_keys framework threshold now customer request).at s refl)
          e1 in
      let end = ok_injective {E = Error} k1 in
      let stored : IdempotencyRecord = record {
        customer_id = customer;
        key = key;
        request_hash = framework.request_hash body;
        response_status = 201;
        response_body = order;
        created_at = now;
      } in
      let rows : s'.idempotency_keys ≡ s.idempotency_keys ++ stored ∷ [] =
        sym (ap (λ (p : Response × Store). p.1.idempotency_keys) end)
        ∙ ap (λ ks. ks ++ stored ∷ []) kept in
      record {
        row = stored;
        on_file =
            rw rows (find_key-new customer key s.idempotency_keys stored (ground arith) found);
        of_bytes = refl;
        answer = ap (λ (p : Response × Store). p.0) end;
      }

  -- What an answered request has passed.
  require_customer-ok :
      (session : Session) (s : Store) {n : ℕ} {s' : Store}
      → require_customer session s ≡ ok (n, s')
      → (not session.is_authenticated ≡ false)
        × (not (is_customer session.role) ≡ false)
        × (session.user_id ≡ n)
        × (s' ≡ s)
  require_customer-ok session s {n} {s'} e =
      let (u, s1, g1, k1) = bind-ok (guard (not session.is_authenticated) unauthenticated) _ s e in
      let (same1, known) = guard-ok (not session.is_authenticated) unauthenticated s g1 in
      let (v, s2, g2, k2) = bind-ok (guard (not (is_customer session.role)) forbidden) _ s1 k1 in
      let (same2, owner) = guard-ok (not (is_customer session.role)) forbidden s1 g2 in
      let end = ok_injective {E = Error} k2 in
      (
        known,
        owner,
        ap (λ (p : ℕ × Store). p.0) end,
        sym (ap (λ (p : ℕ × Store). p.1) end) ∙ same2 ∙ same1,
      )

  -- The answer to a request on a store that has one on file.
  replayed :
      (threshold : Money) (now : ℕ) (session : Session) (key other hash : ℕ)
      (request : CreateOrderRequest) (later : Store) {response : Response}
      → not session.is_authenticated ≡ false
      → not (is_customer session.role) ≡ false
      → framework.parse other ≡ some request
      → IsStored session.user_id key hash response later.idempotency_keys
      → create_order_endpoint framework threshold now session (some key) other later ≡ (
          if framework.request_hash other == hash
          then ok (response, later)
          else err idempotency_conflict)
  unfolding create_order_endpoint respond resolve_replay
  replayed threshold now session key other hash request later known owner parsed stored =
      rw (known, owner, parsed, stored.on_file, stored.of_bytes)
        (elim (Bool-cases (framework.request_hash other == hash)) [
          | inl same ↦ rw (same, ← stored.answer) refl
          | inr differs ↦ rw differs refl
        ])

-- Once a request for an order has been answered, the same key answers every later request of the
-- customer, whatever was written in between as long as the stored responses stay: with the same
-- response if the bytes hash the same, and with a conflict otherwise. Either way nothing is written,
-- so no second order is placed.
pub create_order_endpoint-replays :
    (framework : Framework) (threshold : Money) (now : ℕ) (session : Session) (key body : ℕ)
    (s : Store) {response : Response} {s' : Store} (threshold' : Money) (now' other : ℕ)
    (request : CreateOrderRequest) (more : List IdempotencyRecord) (later : Store)
    → create_order_endpoint framework threshold now session (some key) body s ≡ ok (response, s')
    → framework.parse other ≡ some request
    → later.idempotency_keys ≡ s'.idempotency_keys ++ more
    → create_order_endpoint framework threshold' now' session (some key) other later ≡ (
        if framework.request_hash other == framework.request_hash body
        then ok (response, later)
        else err idempotency_conflict)
unfolding create_order_endpoint
create_order_endpoint-replays framework threshold now session key body s {response} {s'} threshold'
      now' other request more later e parsed kept =
    let (n, s1, e1, k1) = bind-ok (require_customer session) _ s e in
    let (known, owner, user, same1) = require_customer-ok framework session s e1 in
    let (asked, s2, e2, k2) =
      bind-ok (lift (require (framework.parse body) validation_failed)) _ s1 k1 in
    let stored =
      respond-IsStored framework threshold now n key body asked (find_key n key s2.idempotency_keys)
        s2 refl k2 in
    replayed framework threshold' now' session key other (framework.request_hash body) request later
      known owner parsed
      (record {
        row = stored.row;
        on_file = rw (user, kept) (find_key-append n key s'.idempotency_keys more stored.on_file);
        of_bytes = stored.of_bytes;
        answer = stored.answer;
      })
