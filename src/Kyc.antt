-- ===== src/Kyc.antt =====
-- services/identity/kyc_service.py and models/identity/kyc_session.py: the sessions with the identity
-- provider, and the verdict that they leave on the customer.
pub mod Final
use trueup.Prelude.{
  ℕ, ◌+◌, Bool, true, false, not, ◌&&◌, Option, none, some, List, [], ◌∷◌, ◌++◌, Result, ok, err,
  require, find_by, put_by, ltb, leb, ◌==◌, if◌then◌else◌,
}
use trueup.Errors.{
  Error, customer_not_found, kyc_locked, kyc_unknown_session, kyc_unrecognized_status,
  kyc_already_resolved, kyc_port_missing, already_terminal,
}
use trueup.Store.{
  Action, pure, gets, lift, guard, modify, fresh_id, ◌>>=◌, ◌>>◌, VerdictStatus, pending, approved,
  rejected, Customer, KycSession,
}
use trueup.Funding.{find_customer, put_customer}

-- The status texts of the provider's sessions.
pub data StripeStatus : Type 0 where
  verified canceled requires_input processing unrecognized : StripeStatus

-- The port to the provider: a new session's id, and a session's status.
pub record KycPort : Type 0 where
  pub create_verification_session : ℕ → Result Error ℕ
  pub retrieve_verification_session : ℕ → Result Error StripeStatus

abbrev pub is_pending : VerdictStatus → Bool
is_pending pending = true
is_pending _ = false

abbrev pub is_rejected : VerdictStatus → Bool
is_rejected rejected = true
is_rejected _ = false

unfoldable pub map_verification_session_status : StripeStatus → ℕ → ℕ → Result Error VerdictStatus
map_verification_session_status verified attempt_number max_attempts = ok approved
map_verification_session_status canceled attempt_number max_attempts = ok rejected
map_verification_session_status requires_input attempt_number max_attempts =
    ok (if leb max_attempts attempt_number then rejected else pending)
map_verification_session_status processing attempt_number max_attempts = ok pending
map_verification_session_status unrecognized attempt_number max_attempts =
    err kyc_unrecognized_status

-- `SqlKycSessionRepository.get_by_provider_session_id`; the column is unique.
abbrev pub find_session : ℕ → List KycSession → Option KycSession
find_session n rows = find_by (λ r. r.provider_session_id) n rows

abbrev pub put_session : KycSession → List KycSession → List KycSession
put_session new rows = put_by (λ r. r.provider_session_id) new rows

abbrev pub later : Option KycSession → KycSession → KycSession
later none r = r
later (some best) r = if ltb best.attempt_number r.attempt_number then r else best

-- `latest_for_customer`: the row with the highest attempt number.
abbrev pub latest_of : ℕ → Option KycSession → List KycSession → Option KycSession
latest_of customer best [] = best
latest_of customer best (r ∷ rows) =
    latest_of customer (if r.customer_id == customer then some (later best r) else best) rows

unfoldable pub latest_for_customer : ℕ → List KycSession → Option KycSession
latest_for_customer customer rows = latest_of customer none rows

-- `resolve`
unfoldable pub resolve : VerdictStatus → ℕ → KycSession → Result Error KycSession
resolve status resolved_at row =
    if not (is_pending row.status)
    then err kyc_already_resolved
    else ok (record row { status = status; resolved_at = some resolved_at })

-- The trigger `kyc_session_single_transition`.
unfoldable pub kyc_session_single_transition : KycSession → Result Error (Unit {0})
kyc_session_single_transition old =
    if not (is_pending old.status) then err already_terminal else ok tt

abbrev pub next_attempt : Option KycSession → ℕ
next_attempt none = 1
next_attempt (some latest) = latest.attempt_number + 1

abbrev pub is_exhausted : ℕ → Option KycSession → Bool
is_exhausted max_attempts none = false
is_exhausted max_attempts (some latest) = leb max_attempts latest.attempt_number

-- The end of `apply_verification_verdict`, for a verdict that is not pending.
unfoldable pub record_verdict : ℕ → KycSession → VerdictStatus → Action (Option ℕ)
record_verdict now row status = do
  resolved ← lift (resolve status now row)
  modify (λ s. record s { kyc_sessions = put_session resolved s.kyc_sessions })
  found ← gets (λ s. find_customer row.customer_id s.customers)
  customer ← lift (require found customer_not_found)
  modify (λ s. record s {
    customers = put_customer (record customer { kyc_status = status }) s.customers;
  })
  pure (some row.customer_id)

unfoldable pub apply_verification_verdict : ℕ → ℕ → ℕ → StripeStatus → Action (Option ℕ)
apply_verification_verdict max_attempts now provider_session_id stripe_status = do
  found ← gets (λ s. find_session provider_session_id s.kyc_sessions)
  row ← lift (require found kyc_unknown_session)
  status ← lift (map_verification_session_status stripe_status row.attempt_number max_attempts)
  if is_pending status then pure none else record_verdict now row status

module _ (port : Option KycPort) (max_attempts now : ℕ) where
  unfoldable pub start_verification : ℕ → Action ℕ
  start_verification n = do
    found ← gets (λ s. find_customer n s.customers)
    customer ← lift (require found customer_not_found)
    latest ← gets (λ s. latest_for_customer n s.kyc_sessions)
    guard (is_rejected customer.kyc_status && is_exhausted max_attempts latest) kyc_locked
    provider ← lift (require port kyc_port_missing)
    handle ← lift (provider.create_verification_session n)
    id ← fresh_id
    let row : KycSession = record {
      id = id;
      customer_id = n;
      provider_session_id = handle;
      status = pending;
      attempt_number = next_attempt latest;
      resolved_at = none;
    }
    modify (λ s. record s { kyc_sessions = s.kyc_sessions ++ row ∷ [] })
    pure handle

  unfoldable pub sync_found : Option KycSession → Action (Option ℕ)
  sync_found none = pure none
  sync_found (some latest) =
      if not (is_pending latest.status)
      then pure none
      else lift (require port kyc_port_missing) >>= λ provider.
          lift (provider.retrieve_verification_session latest.provider_session_id)
          >>= λ stripe_status.
              apply_verification_verdict max_attempts now latest.provider_session_id stripe_status

  unfoldable pub sync_latest_verification : ℕ → Action (Option ℕ)
  sync_latest_verification n = do
    latest ← gets (λ s. latest_for_customer n s.kyc_sessions)
    sync_found latest
