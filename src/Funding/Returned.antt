-- ===== src/Funding/Returned.antt =====
-- A deposit is returned once.
use trueup.Prelude.{
  ℕ, ◌≡◌, ◌≢◌, refl, ap, sym, ◌∙◌, true, false, Bool-cases, inl, inr, Option, none, some, List, [],
  ◌∷◌, ok, require, require-ok, ==→eq, ◌==◌, arith,
}
use trueup.Errors.{obligation_not_found}
use trueup.Store.{
  Store, pure, lift, fresh_id, ◌>>=◌, ◌>>◌, Account, SettlementObligation, pending, failed,
  correction, customer_receivable,
}
use trueup.Store.Keeps.{Keeps, Keeps-bind, Keeps-lift, Keeps-pure, Holds_elim, bind-ok, lift-ok}
use trueup.Ledger.Accounts.{get_or_create_customer_account}
use trueup.Ledger.Apart.{IsApart, apart-fresh_id, apart-get_or_create, apart-post}
use trueup.Ledger.Entries.{find_account, post}
use trueup.Ledger.Settlement.{fail, fail-ok, find_obligation, put_obligation}
use trueup.Funding.{DepositContext, ach_return_legs, apply_ach_return}

-- The obligations on file.
abbrev HasObligations : List SettlementObligation → Store → Type 0
HasObligations rows s = s.obligations ≡ rows

obligations_apart : (rows : List SettlementObligation) → IsApart (HasObligations rows)
obligations_apart rows = record {
  ids = λ s n h. h;
  to_accounts = λ s x h. h;
  entries = λ s x h. h;
  to_postings = λ s x h. h;
}

find-put_obligation :
    (n : ℕ) (rows : List SettlementObligation) {o : SettlementObligation}
    (new : SettlementObligation)
    → find_obligation n rows ≡ some o
    → new.id ≡ o.id
    → find_obligation n (put_obligation new rows) ≡ some new
find-put_obligation n [] new e id = cc
find-put_obligation n (x ∷ xs) {o} new e id = elim (Bool-cases (x.id == n)) [
  | inl here ↦
      let same : ◌≡◌ {A = Option SettlementObligation} (some x) (some o) = rw here at e in
      let is : x ≡ o = cc in
      let put : (x.id == new.id) ≡ true = rw (id, is) (ground arith) in
      let found : (new.id == n) ≡ true = rw (id, ← is) here in rw (put, found) refl
  | inr there ↦
      let rest : find_obligation n xs ≡ some o = rw there at e in
      let own = find_obligation-id n xs rest in
      let put : (x.id == new.id) ≡ false = rw (id, own) there in
      rw (put, there) (find-put_obligation n xs new rest id)
]
  where
    find_obligation-id :
        (n : ℕ) (rows : List SettlementObligation) {o : SettlementObligation}
        → find_obligation n rows ≡ some o
        → o.id ≡ n
    find_obligation-id n [] e = cc
    find_obligation-id n (x ∷ xs) {o} e = elim (Bool-cases (x.id == n)) [
      | inl here ↦
          let same : ◌≡◌ {A = Option SettlementObligation} (some x) (some o) = rw here at e in
          let is : x ≡ o = cc in rw (← is) (==→eq x.id n here)
      | inr there ↦ find_obligation-id n xs (rw there at e)
    ]

-- The correction leaves the obligations as they are.
Keeps-correction :
    (rows : List SettlementObligation) (ctx : DepositContext) (o : SettlementObligation)
    (account : Account) (customer : ℕ)
    → Keeps (HasObligations rows) (do
      receivable_account ← get_or_create_customer_account customer customer_receivable none
      correction_event ← fresh_id
      legs ← lift (ach_return_legs account.id receivable_account.id o.amount_money)
      post correction ctx.today correction_event legs
      pure tt)
Keeps-correction rows ctx o account customer =
    let apart = obligations_apart rows in
    Keeps-bind (apart-get_or_create apart customer customer_receivable none) (λ receivable.
      Keeps-bind (apart-fresh_id apart) (λ event.
        Keeps-bind (Keeps-lift (ach_return_legs account.id receivable.id o.amount_money)) (λ legs.
          Keeps-bind (apart-post apart correction ctx.today event legs) (λ entry. Keeps-pure tt))))

apply_ach_return-ok :
    (ctx : DepositContext) (n : ℕ) (s : Store) {s' : Store}
    → apply_ach_return ctx n s ≡ ok (tt, s')
    → (o : SettlementObligation) × (find_obligation n s.obligations ≡ some o)
      × (o.status ≡ pending)
      × (find_obligation n s'.obligations
          ≡ some (record o { status = failed; failed_at = some ctx.now }))
unfolding apply_ach_return
apply_ach_return-ok ctx n s {s'} e =
    let asked = require (find_obligation n s.obligations) obligation_not_found in
    let (o, s1, e1, k1) = bind-ok (lift asked) _ s e in
    let (same1, found) = lift-ok asked s e1 in
    let of_account = require (find_account o.account_id s1.accounts) obligation_not_found in
    let (account, s2, e2, k2) = bind-ok (lift of_account) _ s1 k1 in
    let (same2, _) = lift-ok of_account s1 e2 in
    let of_customer = require account.customer_id obligation_not_found in
    let (customer, s3, e3, k3) = bind-ok (lift of_customer) _ s2 k2 in
    let (same3, _) = lift-ok of_customer s2 e3 in
    let (row, s4, e4, k4) = bind-ok (lift (fail o ctx.now)) _ s3 k3 in
    let (same4, failing) = lift-ok (fail o ctx.now) s3 e4 in
    let (was, is) = fail-ok o ctx.now failing in
    let on_file = require-ok (find_obligation n s.obligations) obligation_not_found found in
    let back : s4 ≡ s = same4 ∙ same3 ∙ same2 ∙ same1 in
    let written = put_obligation row s4.obligations in
    let kept : s'.obligations ≡ written =
      Holds_elim (HasObligations written) _
        ((Keeps-correction written ctx o account customer).at (record s4 { obligations = written })
          refl)
        k4 in
    (
      o,
      on_file,
      was,
      ap (find_obligation n) kept
          ∙ ap (λ (x : Store). find_obligation n (put_obligation row x.obligations)) back
          ∙ find-put_obligation n s.obligations row on_file
              (ap (λ (x : SettlementObligation). x.id) is)
          ∙ ap some is,
    )

-- The return of a deposit that is applied finds its obligation pending and leaves it failed, at the
-- clock's instant; and as long as that row is on file, no later return of the deposit is applied:
-- whatever the other tables hold by then, it raises, so the deposit is reversed once.
pub apply_ach_return-once :
    (ctx ctx' : DepositContext) (n : ℕ) (s : Store) {s' : Store} (later : Store)
    → apply_ach_return ctx n s ≡ ok (tt, s')
    → find_obligation n later.obligations ≡ find_obligation n s'.obligations
    → (o : SettlementObligation) × (find_obligation n s.obligations ≡ some o)
      × (o.status ≡ pending)
      × (find_obligation n s'.obligations
          ≡ some (record o { status = failed; failed_at = some ctx.now }))
      × ((end : Store) → apply_ach_return ctx' n later ≢ ok (tt, end))
apply_ach_return-once ctx ctx' n s {s'} later e same =
    let (o, found, was, after) = apply_ach_return-ok ctx n s e in
    (
      o,
      found,
      was,
      after,
      λ end again.
          let (o', found', was', _) = apply_ach_return-ok ctx' n later again in
          never o o' (sym found' ∙ same ∙ after) was',
    )
  where
    never :
        (o o' : SettlementObligation)
        → some o' ≡ some (record o { status = failed; failed_at = some ctx.now })
        → o'.status ≡ pending
        → ⊥
    never o o' is was = cc
