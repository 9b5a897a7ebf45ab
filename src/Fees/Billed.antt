-- ===== src/Fees/Billed.antt =====
-- A period's charge is made once.
use trueup.Prelude.{
  ℕ, ◌≡◌, refl, sym, ap, ◌∙◌, Bool, true, Bool-cases, inl, inr, Option, none, some, List, [], ◌∷◌,
  ◌++◌, filter, map, All, false, Result, ok, ok_injective, arith,
}
use trueup.Prelude.Int.{pos, eqb_ℤ}
use trueup.Errors.{Error}
use trueup.Money.{Money}
use trueup.Store.{Store, lift, fresh_id, FeeCharge, PublishedSnapshot}
use trueup.Store.Keeps.{Keeps, Holds_elim, Keeps-modify, keeps_rules, bind-ok, lift-ok}
use trueup.Restatement.Snapshots.{publish}
use trueup.Restatement.Service.{scalar_one_or_none}
use trueup.Restatement.Writes.{Bears, Kept-compute_twr}
use trueup.Fees.Billing.{
  list_for_period, total_of, is_for_period, get_for_period, pending_charge, watermark_of,
  ensure_published, add_charge, charge_unless, create_pending_charge,
}

-- The charges on file are these.
abbrev HasCharges : List FeeCharge → Store → Type 0
HasCharges rows s = s.fee_charges ≡ rows

module _ (rows : List FeeCharge) (now customer a b : ℕ) where
  charges_borne : Bears now (HasCharges rows)
  charges_borne = record {
    ids = λ s h. h;
    events = λ s x h. h;
    disclosures = λ s x h. h;
    returns = λ s r e h. h;
  }

  Keeps-publish : Keeps (HasCharges rows) (publish now customer a b)
  unfolding publish
  Keeps-publish =
      let figures = Kept-compute_twr now charges_borne customer a b in
      search (keeps_rules, Keeps-modify) depth 16

  Keeps-watermark_of :
      (p : Option PublishedSnapshot) → Keeps (HasCharges rows) (watermark_of now customer a b p)
  Keeps-watermark_of none = search (keeps_rules, Keeps-publish)
  Keeps-watermark_of (some p) = search (keeps_rules, Keeps-publish)

  Keeps-ensure_published : Keeps (HasCharges rows) (ensure_published now customer a b)
  unfolding ensure_published
  Keeps-ensure_published = search (keeps_rules, Keeps-watermark_of)

abbrev value_or : FeeCharge → Option FeeCharge → FeeCharge
value_or c none = c
value_or c (some d) = d

filter-new :
    (p : FeeCharge → Bool) (rows : List FeeCharge) (c : FeeCharge)
    → p c ≡ true
    → filter p rows ≡ []
    → filter p (rows ++ c ∷ []) ≡ c ∷ []
filter-new p [] c own e = rw own refl
filter-new p (x ∷ xs) c own e = elim (Bool-cases (p x)) [
  | inl here ↦ let no : ◌≡◌ {A = List FeeCharge} (x ∷ filter p xs) [] = rw here at e in cc
  | inr there ↦ rw there (filter-new p xs c own (rw there at e))
]

none_found : (rows : List FeeCharge) → scalar_one_or_none rows ≡ ok none → rows ≡ []
none_found [] e = refl
none_found (c ∷ []) e = cc
none_found (c ∷ d ∷ rest) e = cc

-- The charge of a period that has none is the only one after it is added.
get_for_period-new :
    (customer a b : ℕ) (rows : List FeeCharge) (c : FeeCharge)
    → is_for_period customer a b c ≡ true
    → get_for_period customer a b rows ≡ ok none
    → get_for_period customer a b (rows ++ c ∷ []) ≡ ok (some c)
unfolding get_for_period
get_for_period-new customer a b rows c own e = ap scalar_one_or_none (
    filter-new (is_for_period customer a b) rows c own
      (none_found (filter (is_for_period customer a b) rows) e))

module _ (now customer a b : ℕ) where
  add_charge-billed :
      (total : Money) (s : Store) {c : FeeCharge} {s' : Store}
      → get_for_period customer a b s.fee_charges ≡ ok none
      → add_charge now customer a b total s ≡ ok (some c, s')
      → get_for_period customer a b s'.fee_charges ≡ ok (some c)
  unfolding fresh_id
  add_charge-billed total s {c} {s'} none_yet e =
      let (w, s1, e1, k1) = bind-ok (ensure_published now customer a b) _ s e in
      let kept =
        Holds_elim (HasCharges s.fee_charges) (ensure_published now customer a b s)
          ((Keeps-ensure_published s.fee_charges now customer a b).at s refl) e1 in
      let charge = pending_charge now customer a b s1.next_id total w in
      let end = ok_injective {E = Error} k1 in
      let made : charge ≡ c = ap (λ (p : Option FeeCharge × Store). value_or charge p.0) end in
      let rows : s'.fee_charges ≡ s.fee_charges ++ charge ∷ [] =
        sym (ap (λ (p : Option FeeCharge × Store). p.1.fee_charges) end)
        ∙ ap (λ cs. cs ++ charge ∷ []) kept in
      rw rows (
        get_for_period-new customer a b s.fee_charges charge (ground arith) none_yet
        ∙ ap (λ d. ok (some d)) made)

  charge_unless-billed :
      (existing : Option FeeCharge) (s : Store) {c : FeeCharge} {s' : Store}
      → get_for_period customer a b s.fee_charges ≡ ok existing
      → charge_unless now customer a b existing s ≡ ok (some c, s')
      → get_for_period customer a b s'.fee_charges ≡ ok (some c)
  charge_unless-billed (some old) s {c} {s'} found e =
      let end = ok_injective {E = Error} e in
      rw (← ap (λ (p : Option FeeCharge × Store). p.1) end)
        (found ∙ ap (λ (p : Option FeeCharge × Store). ok p.0) end)
  charge_unless-billed none s {c} {s'} found e =
      let accruals = list_for_period customer a b s.fee_accruals in
      let (total, s1, e1, k1) = bind-ok (lift (total_of (pos 0) accruals)) _ s e in
      let (same, summed) = lift-ok (total_of (pos 0) accruals) s e1 in
      elim (Bool-cases (eqb_ℤ total (pos 0))) [
        | inl zero ↦
            let no : ◌≡◌ {A = Result Error (Option FeeCharge × Store)} (ok (none, s1))
                (ok (some c, s')) =
              rw zero at k1 in
            cc
        | inr owed ↦ add_charge-billed total s found (rw (owed, same) at k1)
      ]

-- A change of a charge that leaves it with its customer and its period.
abbrev pub KeepsPeriod : (FeeCharge → FeeCharge) → Type 0
KeepsPeriod change =
    (x : FeeCharge)
    → ((change x).customer_id ≡ x.customer_id)
      × ((change x).billing_period_start ≡ x.billing_period_start)
      × ((change x).billing_period_end ≡ x.billing_period_end)

-- A charge of another customer or of another period.
abbrev pub IsElsewhere : ℕ → ℕ → ℕ → FeeCharge → Type 0
IsElsewhere customer a b x =
    ¬ ((x.customer_id ≡ customer) × (x.billing_period_start ≡ a) × (x.billing_period_end ≡ b))

elsewhere-not_found :
    (customer a b : ℕ) (x : FeeCharge)
    → IsElsewhere customer a b x
    → is_for_period customer a b x ≡ false
elsewhere-not_found customer a b x h = elim (Bool-cases (is_for_period customer a b x)) [
  | inl here ↦ absurd (h (ground arith, ground arith, ground arith))
  | inr there ↦ there
]

filter-elsewhere :
    (customer a b : ℕ) (more : List FeeCharge)
    → All (IsElsewhere customer a b) more
    → filter (is_for_period customer a b) more ≡ []
filter-elsewhere customer a b [] h = refl
filter-elsewhere customer a b (x ∷ xs) h =
    rw (elsewhere-not_found customer a b x h.0) (filter-elsewhere customer a b xs h.1)

is_for_period-kept :
    (customer a b : ℕ) (change : FeeCharge → FeeCharge) (x : FeeCharge)
    → KeepsPeriod change
    → is_for_period customer a b (change x) ≡ is_for_period customer a b x
is_for_period-kept customer a b change x keeps =
    let (owner, begins, ends) = keeps x in rw (owner, begins, ends) refl

filter-changed :
    (customer a b : ℕ) (change : FeeCharge → FeeCharge) (rows more : List FeeCharge)
    → KeepsPeriod change
    → All (IsElsewhere customer a b) more
    → filter (is_for_period customer a b) (map change rows ++ more)
      ≡ map change (filter (is_for_period customer a b) rows)
filter-changed customer a b change [] more keeps h = filter-elsewhere customer a b more h
filter-changed customer a b change (x ∷ xs) more keeps h =
    let ih = filter-changed customer a b change xs more keeps h in
    let kept = is_for_period-kept customer a b change x keeps in
    elim (Bool-cases (is_for_period customer a b x)) [
      | inl here ↦ rw (kept, here) (ap (λ rs. change x ∷ rs) ih)
      | inr there ↦ rw (kept, there) ih
    ]

one_changed :
    (change : FeeCharge → FeeCharge) (rows : List FeeCharge) {c : FeeCharge}
    → scalar_one_or_none rows ≡ ok (some c)
    → scalar_one_or_none (map change rows) ≡ ok (some (change c))
one_changed change [] e = cc
one_changed change (x ∷ []) e = cc
one_changed change (x ∷ y ∷ rest) e = cc

get_for_period-changed :
    (customer a b : ℕ) (change : FeeCharge → FeeCharge) (rows more : List FeeCharge) {c : FeeCharge}
    → KeepsPeriod change
    → All (IsElsewhere customer a b) more
    → get_for_period customer a b rows ≡ ok (some c)
    → get_for_period customer a b (map change rows ++ more) ≡ ok (some (change c))
unfolding get_for_period
get_for_period-changed customer a b change rows more keeps h e =
    ap scalar_one_or_none (filter-changed customer a b change rows more keeps h)
    ∙ one_changed change (filter (is_for_period customer a b) rows) e

-- Once a call has made the charge of a customer's period, or found it, the same call later returns
-- that charge, as it is by then, and writes nothing, so it makes no second charge and no second task.
-- In between the charges on file may change in all but their customer and their period, and charges of
-- other customers or periods may be added.
pub create_pending_charge-once :
    (now now' customer a b : ℕ) (s : Store) {c : FeeCharge} {s' : Store}
    (change : FeeCharge → FeeCharge) (more : List FeeCharge) (later : Store)
    → create_pending_charge now customer a b s ≡ ok (some c, s')
    → KeepsPeriod change
    → All (IsElsewhere customer a b) more
    → later.fee_charges ≡ map change s'.fee_charges ++ more
    → create_pending_charge now' customer a b later ≡ ok (some (change c), later)
unfolding create_pending_charge
create_pending_charge-once now now' customer a b s {c} {s'} change more later e keeps elsewhere
      on_file =
    let (existing, s1, e1, k1) = bind-ok (lift (get_for_period customer a b s.fee_charges)) _ s e in
    let (same, found) = lift-ok (get_for_period customer a b s.fee_charges) s e1 in
    let billed = charge_unless-billed now customer a b existing s found (rw same at k1) in
    let still =
      get_for_period-changed customer a b change s'.fee_charges more keeps elsewhere billed in
    rw (on_file, still) refl
