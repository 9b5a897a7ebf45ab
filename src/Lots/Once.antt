-- ===== src/Lots/Once.antt =====
-- A consumption is adjusted at most once, whichever side of the wash-sale rule comes first.
use trueup.Prelude.{
  ℕ, ◌≡◌, refl, ap, inl, inr, true, Bool-cases, none, some, List, [], ◌∷◌, ◌++◌, ok, ◌==◌,
  if◌then◌else◌, ok_injective, arith,
}
use trueup.Errors.{Error}
use trueup.Money.{money, Money, negate}
use trueup.Store.{
  Store, pure, lift, modify, fresh_id, realized_gain_loss, position_cost, wash_sale_adjustment,
  JournalEntry, ◌>>◌, TaxLot, LotConsumption, WashSaleAdjustment,
}
use trueup.Store.Keeps.{Keeps, Holds, Holds_elim, Keeps-bind, Keeps-modify, bind-ok, keeps_rules}
use trueup.Lots.WashSale.{
  Restatement, exists_for_consumption, disallowed_loss, carry_loss, adjust, apply_adjustment,
}
use trueup.Ledger.Accounts.{get_or_create_customer_account}
use trueup.Ledger.Entries.{money_leg, post}

abbrev pub IsAdjusted : ℕ → Store → Type 0
IsAdjusted n s = exists_for_consumption n s.adjustments ≡ true

added-IsAdjusted :
    (n : ℕ) (xs : List WashSaleAdjustment) (a : WashSaleAdjustment)
    → a.original_lot_consumption_id ≡ n
    → exists_for_consumption n (xs ++ a ∷ []) ≡ true
added-IsAdjusted n [] a e =
    let here : (a.original_lot_consumption_id == n) ≡ true = ground arith in rw here
added-IsAdjusted n (x ∷ xs) a e = elim (Bool-cases (x.original_lot_consumption_id == n)) [
  | inl here ↦ rw here
  | inr there ↦ rw there (added-IsAdjusted n xs a e)
]

-- A restatement takes back no adjustment.
pub record KeepsAdjustments (r : Restatement) : Type 0 where
  pub keeps : (n customer date event : ℕ) → Keeps (IsAdjusted n) (r.restate customer date event)

Keeps-carry_loss :
    (n : ℕ) (c : LotConsumption) (l : TaxLot) (d : Money) → Keeps (IsAdjusted n) (carry_loss c l d)
unfolding carry_loss
Keeps-carry_loss n c l d = search (keeps_rules, Keeps-modify) depth 12

-- From where the adjustment is added, to the end of `_apply_adjustment`.
Holds-added :
    (r : Restatement) (c : LotConsumption) (l : TaxLot) (d : Money) (entry : JournalEntry)
    (s : Store)
    → KeepsAdjustments r
    → (a : WashSaleAdjustment) → a.original_lot_consumption_id ≡ c.id
    → Holds (IsAdjusted c.id) (
        (do
          modify (λ s. record s { adjustments = s.adjustments ++ a ∷ [] })
          carry_loss c l d
          r.restate l.customer_id l.acquired_at entry.source_event_id)
          s)
Holds-added r c l d entry s h a e =
    let rest : Keeps (IsAdjusted c.id)
        (carry_loss c l d >> r.restate l.customer_id l.acquired_at entry.source_event_id) =
      Keeps-bind (Keeps-carry_loss c.id c l d)
        λ _. h.keeps c.id l.customer_id l.acquired_at entry.source_event_id in
    rest.at (record s { adjustments = s.adjustments ++ a ∷ [] })
      (added-IsAdjusted c.id s.adjustments a e)

adjust-IsAdjusted :
    (r : Restatement) (c : LotConsumption) (l : TaxLot) (s : Store) {s' : Store}
    → KeepsAdjustments r
    → adjust r c l s ≡ ok (tt, s')
    → IsAdjusted c.id s'
unfolding adjust
adjust-IsAdjusted r c l s h e =
    let (d, s1, _, k1) = bind-ok (lift (disallowed_loss c l)) _ s e in
    let (gain_account, s2, _, k2) =
      bind-ok (get_or_create_customer_account l.customer_id realized_gain_loss none) _ s1 k1 in
    let (cost_account, s3, _, k3) =
      bind-ok (get_or_create_customer_account l.customer_id position_cost (some l.security_id)) _ s2
        k2 in
    let (event, s4, _, k4) = bind-ok fresh_id _ s3 k3 in
    let (credit, s5, _, k5) = bind-ok (lift (negate money d)) _ s4 k4 in
    let (entry, s6, _, k6) =
      bind-ok
        (post wash_sale_adjustment l.acquired_at event
          (money_leg gain_account.id credit ∷ money_leg cost_account.id d ∷ []))
        _ s5 k5 in
    Holds_elim (IsAdjusted c.id) _ (Holds-added r c l d entry s6 h _ refl) k6

-- The two sides of the rule may meet the same consumption: an adjustment that returned is on file,
-- and a second one, for whatever lot, changes nothing, if restatements take no adjustment back.
pub apply_adjustment-once :
    (r : Restatement) (c : LotConsumption) (l other : TaxLot) (s : Store) {s' : Store}
    → KeepsAdjustments r
    → apply_adjustment r c l s ≡ ok (tt, s')
    → (exists_for_consumption c.id s'.adjustments ≡ true)
      × (apply_adjustment r c other s' ≡ ok (tt, s'))
unfolding apply_adjustment
apply_adjustment-once r c l other s {s'} h e =
    elim (Bool-cases (exists_for_consumption c.id s.adjustments)) [
      | inl before ↦
          let k = rw before at e in
          let same : s ≡ s' = ap (λ (p : Unit {0} × Store). p.1) (ok_injective {E = Error} k) in
          again (rw same at before)
      | inr fresh ↦ again (adjust-IsAdjusted r c l s h (rw fresh at e))
    ]
  where
    again :
        IsAdjusted c.id s'
        → IsAdjusted c.id s'
          × ((if exists_for_consumption c.id s'.adjustments then pure tt else adjust r c other) s'
              ≡ ok (tt, s'))
    again h = (h, rw h)
