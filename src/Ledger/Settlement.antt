-- ===== src/Ledger/Settlement.antt =====
-- models/ledger/settlement_obligation.py: one row for each cash movement that awaits the custodian.
use trueup.Prelude.{
  ℕ, ◌≡◌, ◌⊎◌, inl, inr, Bool, true, false, not, Option, none, some, List, [], ◌∷◌, ◌++◌, Result,
  ok, err, ◌==◌, if◌then◌else◌, arith,
}
use trueup.Errors.{Error, already_terminal}
use trueup.Money.{Money}
use trueup.Store.{
  Action, pure, modify, fresh_id, ◌>>=◌, ◌>>◌, SettlementObligation, ObligationStatus, pending,
  confirmed, failed,
}

abbrev pub is_pending : ObligationStatus → Bool
is_pending pending = true
is_pending _ = false

abbrev pub is_confirmed : ObligationStatus → Bool
is_confirmed confirmed = true
is_confirmed _ = false

-- The insert of a new, pending row.
unfoldable pub add_obligation : ℕ → ℕ → Money → ℕ → ℕ → Action SettlementObligation
add_obligation entry account amount date event = do
  id ← fresh_id
  let row : SettlementObligation = record {
    id = id;
    journal_entry_id = entry;
    account_id = account;
    amount_money = amount;
    expected_settlement_date = date;
    status = pending;
    confirmed_at = none;
    failed_at = none;
    source_event_id = event;
  }
  modify (λ s. record s { obligations = s.obligations ++ row ∷ [] })
  pure row

-- `SettlementObligationRepository.confirm`
unfoldable pub confirm : SettlementObligation → ℕ → Result Error SettlementObligation
confirm o confirmed_at =
    if not (is_pending o.status)
    then err already_terminal
    else ok (record o { status = confirmed; confirmed_at = some confirmed_at })

-- `SettlementObligationRepository.fail`
unfoldable pub fail : SettlementObligation → ℕ → Result Error SettlementObligation
fail o failed_at =
    if not (is_pending o.status)
    then err already_terminal
    else ok (record o { status = failed; failed_at = some failed_at })

-- The trigger `settlement_obligation_single_transition`, on the old and the new row.
unfoldable pub single_transition :
    SettlementObligation → SettlementObligation → Result Error SettlementObligation
single_transition old new = if not (is_pending old.status) then err already_terminal else ok new

-- The row under its id.
abbrev pub find_obligation : ℕ → List SettlementObligation → Option SettlementObligation
find_obligation n [] = none
find_obligation n (o ∷ rest) = if o.id == n then some o else find_obligation n rest

abbrev pub put_obligation :
    SettlementObligation → List SettlementObligation → List SettlementObligation
put_obligation new [] = []
put_obligation new (o ∷ rest) = if o.id == new.id then new ∷ rest else o ∷ put_obligation new rest

-- The methods of the row and the trigger, in any order.
pub data Settle (o : SettlementObligation) : SettlementObligation → Type 0 where
  confirms : {r : SettlementObligation} (at : ℕ) → confirm o at ≡ ok r → Settle o r
  fails : {r : SettlementObligation} (at : ℕ) → fail o at ≡ ok r → Settle o r

pub confirm-ok :
    (o : SettlementObligation) (at : ℕ) {r : SettlementObligation}
    → confirm o at ≡ ok r
    → (o.status ≡ pending) × (r ≡ record o { status = confirmed; confirmed_at = some at })
unfolding confirm
confirm-ok o at e = ground arith

pub fail-ok :
    (o : SettlementObligation) (at : ℕ) {r : SettlementObligation}
    → fail o at ≡ ok r
    → (o.status ≡ pending) × (r ≡ record o { status = failed; failed_at = some at })
unfolding fail
fail-ok o at e = ground arith

Settle-pending : {o r : SettlementObligation} → Settle o r → o.status ≡ pending
Settle-pending {o} (confirms at e) = (confirm-ok o at e).0
Settle-pending {o} (fails at e) = (fail-ok o at e).0

-- An obligation is settled once: a step starts from a pending row, ends in a terminal one with its
-- identity, entry and amount as they were, passes the trigger, and no step follows.
pub settles_once :
    {o r : SettlementObligation}
    → Settle o r
    → (o.status ≡ pending)
      × ((r.status ≡ confirmed) × (r.failed_at ≡ o.failed_at)
          ⊎ (r.status ≡ failed) × (r.confirmed_at ≡ o.confirmed_at))
      × (single_transition o r ≡ ok r)
      × (r.id ≡ o.id)
      × (r.journal_entry_id ≡ o.journal_entry_id)
      × (r.amount_money ≡ o.amount_money)
      × ((q : SettlementObligation) → ¬ Settle r q)
unfolding single_transition
settles_once {o} {r} (confirms at e) =
    let (was, is) = confirm-ok o at e in
    (
      was,
      inl (ground arith, ground arith),
      ground arith,
      ground arith,
      ground arith,
      ground arith,
      λ q again. let p = Settle-pending again in ground arith,
    )
settles_once {o} {r} (fails at e) =
    let (was, is) = fail-ok o at e in
    (
      was,
      inr (ground arith, ground arith),
      ground arith,
      ground arith,
      ground arith,
      ground arith,
      λ q again. let p = Settle-pending again in ground arith,
    )
