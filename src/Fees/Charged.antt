-- ===== src/Fees/Charged.antt =====
-- What a charge that succeeded leaves, and that both outcomes and an accrual keep the ledger balanced.
use trueup.Prelude.{
  ℕ, ◌≡◌, refl, ap, sym, ◌∙◌, true, Bool-cases, inl, inr, if◌then◌else◌, List, none, some, ok,
  require, require-ok, find_by-key, find_by-put_by, ok_injective, arith,
}
use trueup.Errors.{Error, fee_charge_not_found}
use trueup.Money.{Money, money, negate}
use trueup.Store.{
  Store, lift, pure, fee_adjustment, fees_accrued_payable, fee_revenue_collected, FeeCharge,
  succeeded, FeeChargeStatus,
}
use trueup.Store.Keeps.{
  Keeps, Keeps-lift, Leads, Leads-bind, Leads-modify, Holds_elim, bind-ok, lift-ok,
}
use trueup.Ledger.Written.{IsLedger}
use trueup.Ledger.Kept.{ledger_rules}
use trueup.Ledger.Apart.{IsApart, apart-fresh_id, apart-get_or_create, apart-house, apart-post}
use trueup.Fees.Dunning.{DunningPolicy}
use trueup.Fees.Charges.{
  find_charge, put_charge, is_succeeded, collect, apply_charge_success, apply_charge_failure,
  post_accrual,
}

-- A charge that succeeds keeps every journal entry balanced.
pub apply_charge_success-IsLedger :
    (today stripe n : ℕ) → Keeps IsLedger (apply_charge_success today stripe n)
unfolding apply_charge_success collect
apply_charge_success-IsLedger today stripe n = search (ledger_rules) depth 30 fits 8000

-- An accrual of a fee keeps every journal entry balanced.
pub post_accrual-IsLedger :
    (customer date : ℕ) (gain fee : Money) → Keeps IsLedger (post_accrual customer date gain fee)
unfolding post_accrual
post_accrual-IsLedger customer date gain fee = search (ledger_rules) depth 30 fits 8000

-- The charges on file.
abbrev HasCharges : List FeeCharge → Store → Type 0
HasCharges rows s = s.fee_charges ≡ rows

charges_apart : (rows : List FeeCharge) → IsApart (HasCharges rows)
charges_apart rows = record {
  ids = λ s n h. h;
  to_accounts = λ s x h. h;
  entries = λ s x h. h;
  to_postings = λ s x h. h;
}

-- The charge is paid.
abbrev pub Paid : ℕ → Store → Type 0
Paid n s = (c : FeeCharge) × (find_charge n s.fee_charges ≡ some c) × (c.status ≡ succeeded)

collect-Leads :
    (today stripe n : ℕ) (c : FeeCharge) (rows : List FeeCharge)
    → find_charge n rows ≡ some c
    → Leads (HasCharges rows) (Paid n) (collect today stripe c)
unfolding collect
collect-Leads today stripe n c rows found =
    let apart = charges_apart rows in
    let id = find_by-key (λ (c : FeeCharge). c.id) n rows found in
    Leads-bind (apart-get_or_create apart c.customer_id fees_accrued_payable none) (λ payable.
      Leads-bind (apart-house apart fee_revenue_collected) (λ collected.
        Leads-bind (apart-fresh_id apart) (λ event.
          Leads-bind (Keeps-lift (negate money c.total_accrued)) (λ owed.
            Leads-bind (apart-post apart fee_adjustment today event _) (λ entry.
              Leads-modify _ (λ s h.
                let paid = record c {
                  status = succeeded;
                  stripe_charge_id = some stripe;
                  journal_entry_id = some entry.id;
                } in
                (
                  paid,
                  ap (λ rows. find_charge n (put_charge paid rows)) h
                      ∙ find_by-put_by (λ (c : FeeCharge). c.id) n rows paid found id,
                  refl,
                )))))))

-- Once a charge has been applied as a success, it is on file as paid, and every later report on it, a
-- success or a failure, at any time and under any policy, returns and changes nothing: the fee is
-- booked once.
pub apply_charge_success-once :
    (today stripe n : ℕ) (s : Store) {s' : Store}
    → apply_charge_success today stripe n s ≡ ok (tt, s')
    → Paid n s'
      × ((later other : ℕ) → apply_charge_success later other n s' ≡ ok (tt, s'))
      × ((policy : DunningPolicy) (now : ℕ) → apply_charge_failure policy now n s' ≡ ok (tt, s'))
unfolding apply_charge_success apply_charge_failure
apply_charge_success-once today stripe n s {s'} e =
    let found = find_charge n s.fee_charges in
    let (c, s1, got, e1) = bind-ok (lift (require found fee_charge_not_found)) _ s e in
    let (same, is) = lift-ok (require found fee_charge_not_found) s got in
    let there = require-ok found fee_charge_not_found is in
    let at_s : (if is_succeeded c.status then pure tt else collect today stripe c) s ≡ ok (tt, s') =
      sym (ap (if is_succeeded c.status then pure tt else collect today stripe c) same) ∙ e1 in
    let paid : Paid n s' = elim (Bool-cases (is_succeeded c.status)) [
      | inl already ↦
          let end = ok_injective {E = Error} {a = (tt, s)} {b = (tt, s')} (rw already at at_s) in
          (
            c,
            ap (λ (p : Unit {0} × Store). find_charge n p.1.fee_charges) (sym end) ∙ there,
            paid_status c.status already,
          )
      | inr first ↦
          Holds_elim (Paid n) (collect today stripe c s)
            ((collect-Leads today stripe n c s.fee_charges there).at s refl) (rw first at at_s)
    ] in
    let (c', at_end, status) = paid in
    (paid, λ later other. rw (at_end, status) refl, λ policy now. rw (at_end, status) refl)
  where
    paid_status : (t : FeeChargeStatus) → is_succeeded t ≡ true → t ≡ succeeded
    paid_status t e = ground arith
