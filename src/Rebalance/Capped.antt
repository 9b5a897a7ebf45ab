-- ===== src/Rebalance/Capped.antt =====
-- The buys of a rebalancing stay within the cash that is left above the buffer.
use trueup.Prelude.{
  ℕ, ◌≡◌, ap, sym, false, Bool-cases, inl, inr, Option, none, some, List, [], ◌∷◌, All, map, ok,
  ok_injective, if◌then◌else◌, arith,
}
use trueup.Prelude.Int.{
  ℤ, pos, ◌≤ℤ◌, ◌<ℤ◌, ◌-ℤ◌, ◌+ℤ◌, leb_ℤ, sum_ℤ, sum_ℤ_cons, int_laws, parts_of_eq,
}
use trueup.Errors.{Error}
use trueup.Money.{money, Money, Units, Price, sub, div_money_price, is_zero}
use trueup.Money.Precision.{make-InRange}
use trueup.Store.{Store, pure, lift, Order, buy}
use trueup.Store.Keeps.{bind-ok, lift-ok}
use trueup.Decimal.Signed.{SignedDecimal}
use trueup.Ledger.CashPolicy.{investable}
use trueup.Orders.Holds.{order_holds_provider}
use trueup.Rebalance.Drift.{DriftEntry, DriftEvaluation, mul_money_decimal}
use trueup.Rebalance.Generation.{
  OrderPlacer, quantity_for, place_on, capped, remaining_after, with_notional, place_buy,
  place_buys, generate_buys,
}

abbrev notionals : List (Order × Money) → List Money
notionals placed = map (λ p. p.1) placed

capped-le : (wanted remaining : Money) → capped wanted remaining ≤ℤ remaining
capped-le wanted remaining = ground arith

-- A buy for a positive notional, of as many units as the notional buys at the reference price of a
-- security: the placer returned the order for these.
pub record IsPlaced (placer : OrderPlacer) (customer : ℕ) (p : Order × Money) : Type 0 where
  pub security : ℕ
  pub price : Price
  pub quantity : Units
  pub before : Store
  pub after : Store
  pub positive : pos 0 <ℤ p.1
  pub bought : div_money_price p.1 price ≡ ok quantity
  pub placed : placer.place customer security buy quantity price before ≡ ok (p.0, after)

-- What is left to spend.
abbrev pub headroom : Money → Money
headroom remaining = if leb_ℤ remaining (pos 0) then pos 0 else remaining

headroom-le : (left : Money) → pos 0 ≤ℤ left → headroom left ≤ℤ left
headroom-le left h = ground arith

le-headroom : (remaining : Money) → remaining ≤ℤ headroom remaining
le-headroom remaining = ground arith

le_trans_ℤ : (a b c : ℤ) → a ≤ℤ b → b ≤ℤ c → a ≤ℤ c
le_trans_ℤ a b c h k = omega arith

none-IsPlaced :
    (placer : OrderPlacer) (customer : ℕ) (remaining : Money) (s : Store)
    {placed : List (Order × Money)} {s' : Store}
    → pure {A = List (Order × Money)} [] s ≡ ok (placed, s')
    → (sum_ℤ (notionals placed) ≤ℤ headroom remaining) × All (IsPlaced placer customer) placed
unfolding sum_ℤ
none-IsPlaced placer customer remaining s {placed} {s'} k =
    let end : [] ≡ placed =
      ap (λ (p : List (Order × Money) × Store). p.0) (ok_injective {E = Error} k) in
    rw (← end) (ground arith, tt)

module _ (placer : OrderPlacer) (customer : ℕ) where
  place_on-IsPlaced :
      (security : Option ℕ) (price : Option Price) (notional : Money) (quantity : Units) (s : Store)
      {o : Order} {s' : Store}
      → pos 0 <ℤ notional
      → quantity_for notional price ≡ ok quantity
      → place_on placer customer buy security price quantity s ≡ ok (o, s')
      → IsPlaced placer customer (o, notional)
  place_on-IsPlaced none price notional quantity s up bought k = cc
  place_on-IsPlaced (some n) none notional quantity s up bought k = cc
  place_on-IsPlaced (some n) (some price) notional quantity s {o} {s'} up bought k = record {
    security = n;
    price = price;
    quantity = quantity;
    before = s;
    after = s';
    positive = up;
    bought = bought;
    placed = k;
  }

  -- Which order is placed.
  place_buy-IsPlaced :
      (e : DriftEntry) (notional : Money) (s : Store) {o : Order} {s' : Store}
      → place_buy placer customer e notional s ≡ ok (some o, s')
      → IsPlaced placer customer (o, notional)
  unfolding place_buy
  place_buy-IsPlaced e notional s {o} {s'} k = elim (Bool-cases (leb_ℤ notional (pos 0))) [
    | inl under ↦
        let end = ok_injective {E = Error} {a = (none, s)} {b = (some o, s')} (rw under at k) in
        let no : none ≡ some o = ap (λ (p : Option Order × Store). p.0) end in cc
    | inr over ↦
        let (quantity, s1, e1, k1) =
          bind-ok (lift (quantity_for notional e.price)) _ s (rw over at k) in
        let (same, bought) = lift-ok (quantity_for notional e.price) s e1 in
        elim (Bool-cases (is_zero quantity)) [
          | inl nothing ↦
              let end =
                ok_injective {E = Error} {a = (none, s1)} {b = (some o, s')} (rw nothing at k1) in
              let no : none ≡ some o = ap (λ (p : Option Order × Store). p.0) end in cc
          | inr something ↦
              let (o', s2, e2, k2) =
                bind-ok (place_on placer customer buy e.security_id e.price quantity) _ s1
                  (rw something at k1) in
              let end = ok_injective {E = Error} {a = (some o', s2)} {b = (some o, s')} k2 in
              let same_order : o' ≡ o =
                some_order o' (ap (λ (p : Option Order × Store). p.0) end) in
              rw (← same_order) (
                place_on-IsPlaced e.security_id e.price notional quantity s1 (ground arith) bought
                  e2)
        ]
  ]
    where
      some_order : (a : Order) → some a ≡ some o → a ≡ o
      some_order a is = cc

  step :
      (order : Option Order) (e : DriftEntry) (notional remaining left : Money)
      (rest : List (Order × Money)) (s : Store) {s' : Store}
      → leb_ℤ remaining (pos 0) ≡ false
      → notional ≤ℤ remaining
      → place_buy placer customer e notional s ≡ ok (order, s')
      → remaining_after order remaining notional ≡ ok left
      → sum_ℤ (notionals rest) ≤ℤ headroom left
      → All (IsPlaced placer customer) rest
      → (sum_ℤ (notionals (with_notional order notional rest)) ≤ℤ headroom remaining)
        × All (IsPlaced placer customer) (with_notional order notional rest)
  unfolding sub
  step none e notional remaining left rest s headed le placed after within positive =
      let same : remaining ≡ left = ok_injective {E = Error} after in
      (rw (← same) at within, positive)
  step (some o) e notional remaining left rest s headed le placed after within positive =
      let is_placed = place_buy-IsPlaced e notional s placed in
      let up = is_placed.positive in
      let is = parts_of_eq (make-InRange money (remaining -ℤ notional) after).0 in
      let rest_sum = sum_ℤ (notionals rest) in
      let under =
        le_trans_ℤ rest_sum (headroom left) left within (headroom-le left (omega int_laws)) in
      (
        rw (sum_ℤ_cons notional (notionals rest)) (
            le_trans_ℤ (notional +ℤ rest_sum) remaining (headroom remaining) (omega int_laws)
              (le-headroom remaining)),
        (is_placed, positive),
      )

  place_buys-capped :
      (remaining : Money) (es : List DriftEntry) (s : Store) {placed : List (Order × Money)}
      {s' : Store}
      → place_buys placer customer remaining es s ≡ ok (placed, s')
      → (sum_ℤ (notionals placed) ≤ℤ headroom remaining) × All (IsPlaced placer customer) placed
  unfolding place_buys
  place_buys-capped remaining [] s {placed} {s'} k = none-IsPlaced placer customer remaining s k
  place_buys-capped remaining (e ∷ es) s {placed} {s'} k =
      elim (Bool-cases (leb_ℤ remaining (pos 0))) [
        | inl spent ↦ none-IsPlaced placer customer remaining s (rw spent at k)
        | inr headed ↦
            let open_k = rw headed at k in
            let (wanted, s1, e1, k1) =
              bind-ok (lift (sub money e.target_market_value e.current_market_value)) _ s open_k in
            let notional = capped wanted remaining in
            let (order, s2, e2, k2) = bind-ok (place_buy placer customer e notional) _ s1 k1 in
            let (left, s3, e3, k3) =
              bind-ok (lift (remaining_after order remaining notional)) _ s2 k2 in
            let (rest, s4, e4, k4) = bind-ok (place_buys placer customer left es) _ s3 k3 in
            let (within, positive) = place_buys-capped left es s3 e4 in
            let end : with_notional order notional rest ≡ placed =
              ap (λ (p : List (Order × Money) × Store). p.0) (ok_injective {E = Error} k4) in
            rw (← end) (
              step order e notional remaining left rest s1 headed (capped-le wanted remaining) e2
                (lift-ok (remaining_after order remaining notional) s2 e3).1 within positive)
      ]

-- The buys of `generate_orders`, whichever way orders are placed: each is for as many
-- units as a positive notional buys at its reference price, and the notionals together are at most what
-- the investable cash, after the sells, exceeds the buffer by, so no buy is placed where it does not.
pub generate_buys-within :
    (placer : OrderPlacer) (cash_buffer_pct : SignedDecimal) (evaluation : DriftEvaluation)
    (e : DriftEntry) (es : List DriftEntry) (s : Store) {orders : List Order} {s' : Store}
    → generate_buys placer cash_buffer_pct evaluation (e ∷ es) s ≡ ok (orders, s')
    → (limit : Money) × (buffer : Money) × (placed : List (Order × Money)) × (investable
          (order_holds_provider s)
          evaluation.customer_id
          s
        ≡ ok limit)
      × (mul_money_decimal evaluation.total_value cash_buffer_pct ≡ ok buffer)
      × (orders ≡ map (λ p. p.0) placed)
      × (sum_ℤ (map (λ p. p.1) placed) ≤ℤ headroom (limit -ℤ buffer))
      × All (IsPlaced placer evaluation.customer_id) placed
unfolding generate_buys sub
generate_buys-within placer pct evaluation e es s {orders} {s'} k =
    let buffered = mul_money_decimal evaluation.total_value pct in
    let (buffer, s1, e1, k1) = bind-ok (lift buffered) _ s k in
    let (same1, of_buffer) = lift-ok buffered s e1 in
    let figure = λ (x : Store). investable (order_holds_provider x) evaluation.customer_id x in
    let (limit, s2, e2, k2) = bind-ok (lift (figure s1)) _ s1 k1 in
    let of_limit : figure s1 ≡ ok limit = (lift-ok (figure s1) s1 e2).1 in
    let (available, s3, e3, k3) = bind-ok (lift (sub money limit buffer)) _ s2 k2 in
    let is = make-InRange money (limit -ℤ buffer) (lift-ok (sub money limit buffer) s2 e3).1 in
    let (placed, s4, e4, k4) =
      bind-ok (place_buys placer evaluation.customer_id available (e ∷ es)) _ s3 k3 in
    let (within, positive) =
      place_buys-capped placer evaluation.customer_id available (e ∷ es) s3 e4 in
    let end = ap (λ (p : List Order × Store). p.0) (ok_injective {E = Error} k4) in
    (limit, buffer, placed, rw same1 at of_limit, of_buffer, sym end, rw is.0 at within, positive)
