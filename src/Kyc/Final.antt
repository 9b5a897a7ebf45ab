-- ===== src/Kyc/Final.antt =====
-- A verdict on a session is final, and it is the customer's.
use trueup.Prelude.{
  require-ok, ℕ, ◌≡◌, refl, ap, sym, ◌∙◌, ◌⊎◌, inl, inr, true, false, Bool-cases, Option, none,
  some, ok, require, if◌then◌else◌, ok_injective, find_by-key, find_by-put_by, arith,
}
use trueup.Errors.{Error, customer_not_found, kyc_unknown_session}
use trueup.Store.{
  Store, pure, lift, VerdictStatus, pending, approved, rejected, Customer, KycSession,
}
use trueup.Store.Keeps.{bind-ok, lift-ok}
use trueup.Funding.{find_customer}
use trueup.Kyc.{
  StripeStatus, is_pending, map_verification_session_status, find_session, put_session, resolve,
  record_verdict, apply_verification_verdict,
}

resolve-ok :
    (status : VerdictStatus) (now : ℕ) (row : KycSession) {r : KycSession}
    → resolve status now row ≡ ok r
    → (row.status ≡ pending) × (r ≡ record row { status = status; resolved_at = some now })
unfolding resolve
resolve-ok status now row e = ground arith

-- What a verdict leaves behind: the session with the status, and its customer with the same one.
abbrev pub Decided : ℕ → VerdictStatus → ℕ → Store → Type 0
Decided session status customer s =
    (row : KycSession) × (person : Customer) × (find_session session s.kyc_sessions ≡ some row)
    × (row.status ≡ status)
    × (row.customer_id ≡ customer)
    × (find_customer customer s.customers ≡ some person)
    × (person.kyc_status ≡ status)

record_verdict-Decided :
    (now session : ℕ) (row : KycSession) (status : VerdictStatus) (s : Store) {c : Option ℕ}
    {s' : Store}
    → find_session session s.kyc_sessions ≡ some row
    → record_verdict now row status s ≡ ok (c, s')
    → (row.status ≡ pending)
      × (c ≡ some row.customer_id)
      × Decided session status row.customer_id s'
unfolding record_verdict
record_verdict-Decided now session row status s {c} {s'} found e =
    let (r, s1, resolved, e1) = bind-ok (lift (resolve status now row)) _ s e in
    let (same, is) = lift-ok (resolve status now row) s resolved in
    let (was, shape) = resolve-ok status now row is in
    let s2 = record s1 { kyc_sessions = put_session r s1.kyc_sessions } in
    let person = find_customer row.customer_id s1.customers in
    let (p, s3, got, e2) = bind-ok (lift (require person customer_not_found)) _ s2 e1 in
    let (same3, there) = lift-ok (require person customer_not_found) s2 got in
    let end = ok_injective {E = Error} e2 in
    let decided = record p { kyc_status = status } in
    let is_there = require-ok person customer_not_found there in
    let at_s3 : find_customer row.customer_id s3.customers ≡ some p =
      ap (λ (s : Store). find_customer row.customer_id s.customers) same3 ∙ is_there in
    let named =
      find_by-key (λ (r : KycSession). r.provider_session_id) session s.kyc_sessions found in
    let whose = find_by-key (λ (c : Customer). c.id) row.customer_id s3.customers at_s3 in
    (
      was,
      sym (ap (λ (p : Option ℕ × Store). p.0) end),
      (
        r,
        decided,
        ap (λ (p : Option ℕ × Store). find_session session p.1.kyc_sessions) (sym end)
            ∙ (ap (λ (s : Store). find_session session s.kyc_sessions) same3
                ∙ (ap (λ (s : Store). find_session session (put_session r s.kyc_sessions)) same
                    ∙ find_by-put_by (λ (r : KycSession). r.provider_session_id) session
                        s.kyc_sessions r found
                        (ap (λ (r : KycSession). r.provider_session_id) shape ∙ named))),
        ap (λ (r : KycSession). r.status) shape,
        ap (λ (r : KycSession). r.customer_id) shape,
        ap (λ (p : Option ℕ × Store). find_customer row.customer_id p.1.customers) (sym end)
            ∙ find_by-put_by (λ (c : Customer). c.id) row.customer_id s3.customers decided at_s3
                whose,
        refl,
      ),
    )

-- What a verdict that returned went through.
verdict-ok :
    (max now session : ℕ) (stripe : StripeStatus) (s : Store) {c : Option ℕ} {s' : Store}
    → apply_verification_verdict max now session stripe s ≡ ok (c, s')
    → (row : KycSession) × (status : VerdictStatus) × (find_session session s.kyc_sessions
        ≡ some row)
      × (((is_pending status ≡ true) × (c ≡ none) × (s' ≡ s))
          ⊎ ((is_pending status ≡ false) × (record_verdict now row status s ≡ ok (c, s'))))
unfolding apply_verification_verdict
verdict-ok max now session stripe s {c} {s'} e =
    let found = find_session session s.kyc_sessions in
    let (r, s1, got, e1) = bind-ok (lift (require found kyc_unknown_session)) _ s e in
    let (same, there) = lift-ok (require found kyc_unknown_session) s got in
    let mapped = map_verification_session_status stripe r.attempt_number max in
    let (status, s2, said, e2) = bind-ok (lift mapped) _ s1 e1 in
    let (same2, _) = lift-ok mapped s1 said in
    let at_s : (if is_pending status then pure none else record_verdict now r status) s
        ≡ ok (c, s') =
      sym (ap (if is_pending status then pure none else record_verdict now r status) (same2 ∙ same))
      ∙ e2 in
    (
      r,
      status,
      require-ok found kyc_unknown_session there,
      elim (Bool-cases (is_pending status)) [
        | inl undecided ↦
            let end =
              ok_injective {E = Error} {a = (none, s)} {b = (c, s')} (rw undecided at at_s) in
            inl (
              undecided,
              sym (ap (λ (p : Option ℕ × Store). p.0) end),
              sym (ap (λ (p : Option ℕ × Store). p.1) end),
            )
        | inr decided ↦ inr (decided, rw decided at at_s)
      ],
    )

verdict-IsFinal :
    (max now session : ℕ) (row : KycSession) (stripe : StripeStatus) (s : Store) {c : Option ℕ}
    {s' : Store}
    → find_session session s.kyc_sessions ≡ some row
    → is_pending row.status ≡ false
    → apply_verification_verdict max now session stripe s ≡ ok (c, s')
    → (c ≡ none) × (s' ≡ s)
unfolding record_verdict
verdict-IsFinal max now session row stripe s found over e =
    let (r, status, there, outcome) = verdict-ok max now session stripe s e in
    let same : ◌≡◌ {A = Option KycSession} (some row) (some r) = sym found ∙ there in
    let is : row ≡ r = cc in
    let still : is_pending r.status ≡ false = rw (← is) over in
    elim outcome [
      | inl (undecided, nobody, idle) ↦ (nobody, idle)
      | inr (decided, recorded) ↦
          let (_, _, resolved, _) = bind-ok (lift (resolve status now r)) _ s recorded in
          let (_, passed) = lift-ok (resolve status now r) s resolved in
          let (was, _) = resolve-ok status now r passed in
          let no : true ≡ false = ap is_pending (sym was) ∙ still in cc
    ]

decided_status : (t : VerdictStatus) → is_pending t ≡ false → (t ≡ approved) ⊎ (t ≡ rejected)
decided_status approved e = inl refl
decided_status rejected e = inr refl
decided_status pending e = cc

-- A verdict that names a customer leaves the session approved or rejected and the customer with the
-- same status. No later verdict on the session that returns changes anything, whatever the provider
-- says then.
pub apply_verification_verdict_final :
    (max now session customer : ℕ) (stripe : StripeStatus) (s : Store) {s' : Store}
    → apply_verification_verdict max now session stripe s ≡ ok (some customer, s')
    → (status : VerdictStatus) × ((status ≡ approved) ⊎ (status ≡ rejected))
      × Decided session status customer s'
      × ((max later : ℕ) (stripe : StripeStatus) (c : Option ℕ) (t : Store)
          → apply_verification_verdict max later session stripe s' ≡ ok (c, t)
          → (c ≡ none) × (t ≡ s'))
apply_verification_verdict_final max now session customer stripe s {s'} e =
    let (r, status, there, outcome) = verdict-ok max now session stripe s e in
    elim outcome [
      | inl (undecided, nobody, idle) ↦ cc
      | inr (decided, recorded) ↦
          let (was, whose, end) = record_verdict-Decided now session r status s there recorded in
          let named : r.customer_id ≡ customer = cc in
          let (row, person, at, has, owner, known, verdict) = end in
          (
            status,
            decided_status status decided,
            (
              row,
              person,
              at,
              has,
              owner ∙ named,
              ap (λ n. find_customer n s'.customers) (sym named) ∙ known,
              verdict,
            ),
            λ max later stripe c t again.
                verdict-IsFinal max later session row stripe s' at (rw has decided) again,
          )
    ]
