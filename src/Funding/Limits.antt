-- ===== src/Funding/Limits.antt =====
-- What a deposit and a withdrawal must pass before anything is written.
use trueup.Prelude.{
  inl, inr, ℕ, ◌∙◌, ◌&&◌, ◌==◌, filter, ◌≡◌, ◌↔◌, refl, false, Bool-cases, Option, none, some, ok,
  err, if◌then◌else◌, >>=-eq-ok, arith,
}
use trueup.Prelude.{◌>>=◌ as bind_result}
use trueup.Prelude.Int.{◌+ℤ◌, ◌≤ℤ◌, ltb_ℤ}
use trueup.Errors.{cap_per_day, insufficient_withdrawable_cash}
use trueup.Money.{money, Money, make, add}
use trueup.Money.Precision.{InRange, make_ok, make-InRange}
use trueup.Store.{Store, lift, guard, JournalEntry, Customer, approved, BankLink}
use trueup.Store.Keeps.{bind-ok, lift-ok, guard-ok}
use trueup.Ledger.Accounts.{one_or_none}
use trueup.Ledger.CashPolicy.{HoldsProvider, withdrawable}
use trueup.Funding.{
  DepositContext, find_customer, check_customer, check_eligibility, check_link,
  check_active_bank_link, check_deposit_caps, is_current, initiate_withdrawal,
}

-- A deposit passes the caps exactly when it is within the cap of a transaction, the day's total
-- with it is within the day's cap, and that total is a value of the money column.
pub check_deposit_caps_iff :
    (amount deposited_today per_transaction per_day : Money)
    → (check_deposit_caps amount deposited_today per_transaction per_day ≡ ok tt)
      ↔ (amount ≤ℤ per_transaction)
        × (deposited_today +ℤ amount ≤ℤ per_day)
        × InRange money (deposited_today +ℤ amount)
unfolding check_deposit_caps add
check_deposit_caps_iff a t p d = (sound, complete)
  where
    sound : (check_deposit_caps a t p d ≡ ok tt) → (a ≤ℤ p) × (t +ℤ a ≤ℤ d) × InRange money (t +ℤ a)
    sound e = elim (Bool-cases (ltb_ℤ p a)) [
      | inl over ↦ absurd (ground arith)
      | inr within ↦
          let k : bind_result (make money (t +ℤ a))
                (λ total. if ltb_ℤ d total then err cap_per_day else ok tt)
              ≡ ok tt =
            rw within at e in
          let (total, made, day) =
            >>=-eq-ok (make money (t +ℤ a))
              (λ total. if ltb_ℤ d total then err cap_per_day else ok tt) k in
          let (same, fits) = make-InRange money (t +ℤ a) made in
          let day' : (if ltb_ℤ d (t +ℤ a) then err cap_per_day else ok tt) ≡ ok tt =
            rw same at day in
          (ground arith, ground arith, fits)
    ]

    complete :
        (a ≤ℤ p) × (t +ℤ a ≤ℤ d) × InRange money (t +ℤ a) → check_deposit_caps a t p d ≡ ok tt
    complete (one, day, fits) =
        let within : ltb_ℤ p a ≡ false = ground arith in
        let daily : ltb_ℤ d (t +ℤ a) ≡ false = ground arith in
        rw (within, make_ok money (t +ℤ a) fits, daily)

pub check_eligibility-ok :
    (customer : ℕ) (s : Store) {s' : Store}
    → check_eligibility customer s ≡ ok (tt, s')
    → (s' ≡ s) × (check_customer (find_customer customer s.customers) ≡ ok tt)
unfolding check_eligibility
check_eligibility-ok customer s e =
    lift-ok (check_customer (find_customer customer s.customers)) s e

check_active_bank_link-ok :
    (customer : ℕ) (s : Store) {l : BankLink} {s' : Store}
    → check_active_bank_link customer s ≡ ok (l, s')
    → s' ≡ s
unfolding check_active_bank_link
check_active_bank_link-ok customer s e =
    let rows = filter (λ l. l.customer_id == customer && is_current l.status) s.bank_links in
    let (link, s1, e1, k) =
      bind-ok (lift (one_or_none rows)) (λ link. lift (check_link link)) s e in
    let (same, _) = lift-ok (one_or_none rows) s e1 in
    let (same', _) = lift-ok (check_link link) s1 k in same' ∙ same

pub check_customer-ok :
    (found : Option Customer)
    → check_customer found ≡ ok tt
    → (c : Customer) × (found ≡ some c)
      × (c.kyc_status ≡ approved)
      × (c.account_approval_status ≡ approved)
unfolding check_customer
check_customer-ok none e = cc
check_customer-ok (some c) e = (c, refl, ground arith, ground arith)

-- A withdrawal that is written is for an approved customer and within the withdrawable cash of the
-- store it started from.
pub initiate_withdrawal-within :
    (provider : HoldsProvider) (ctx : DepositContext) (customer : ℕ) (amount : Money) (s : Store)
    {entry : JournalEntry} {s' : Store}
    → initiate_withdrawal provider ctx customer amount s ≡ ok (entry, s')
    → (c : Customer) × (available : Money) × (find_customer customer s.customers ≡ some c)
      × (c.kyc_status ≡ approved)
      × (c.account_approval_status ≡ approved)
      × (withdrawable provider customer s ≡ ok available)
      × (amount ≤ℤ available)
unfolding initiate_withdrawal
initiate_withdrawal-within provider ctx customer amount s e =
    let (u, s1, passed, e1) = bind-ok (check_eligibility customer) _ s e in
    let (l, s2, linked, e2) = bind-ok (check_active_bank_link customer) _ s1 e1 in
    let (same1, eligible) = check_eligibility-ok customer s passed in
    let same2 = check_active_bank_link-ok customer s1 linked in
    let (available, s3, limit, e3) = bind-ok (lift (withdrawable provider customer s2)) _ s2 e2 in
    let (same3, found) = lift-ok (withdrawable provider customer s2) s2 limit in
    let (v, s4, guarded, e4) =
      bind-ok (guard (ltb_ℤ available amount) insufficient_withdrawable_cash) _ s3 e3 in
    let (_, within) = guard-ok (ltb_ℤ available amount) insufficient_withdrawable_cash s3 guarded in
    let (c, is, kyc, approval) = check_customer-ok (find_customer customer s.customers) eligible in
    (c, available, is, kyc, approval, rw (same2 ∙ same1) at found, ground arith)
