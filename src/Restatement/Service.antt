-- ===== src/Restatement/Service.antt =====
-- services/restatement/restatement_service.py and
-- services/fees/fee_restatement_disclosure_service.py: the windows that a correction falls into are
-- computed again, and the published periods around it are checked and disclosed.
use trueup.Prelude.{
  ℕ, Bool, ◌&&◌, ◌||◌, Option, none, some, List, [], ◌∷◌, ◌++◌, filter, any, Result, ok, err, leb,
  ltb, ◌==◌, if◌then◌else◌,
}
use trueup.Errors.{Error, multiple_results}
use trueup.Store.{
  Action, pure, gets, lift, modify, fresh_id, ◌>>=◌, ◌>>◌, FeeCharge, SubPeriodReturn,
  PublishedSnapshot, RestatementTriggerType, RestatementEvent, wash_sale_trigger,
}
use trueup.Fees.Charges.{is_succeeded}
use trueup.Lots.WashSale.{Restatement}
use trueup.Valuation.Twr.{recompute_sub_period, compute_twr}
use trueup.Restatement.Snapshots.{cross_check}

-- A hook of the restatement, `FeeDisclosureChecker`.
pub record FeeDisclosureChecker : Type 0 where
  pub check_and_disclose : (customer period_start period_end event : ℕ) → Action (Unit {0})

-- `scalar_one_or_none`
abbrev pub scalar_one_or_none : {A : Type 0} → List A → Result Error (Option A)
scalar_one_or_none [] = ok none
scalar_one_or_none (a ∷ []) = ok (some a)
scalar_one_or_none (a ∷ b ∷ rest) = err multiple_results

unfoldable pub has_succeeded_charge_for_period :
    ℕ → ℕ → ℕ → List FeeCharge → Result Error (Option FeeCharge)
has_succeeded_charge_for_period customer period_start period_end charges = scalar_one_or_none (
    filter
      (λ c.
        c.customer_id == customer
        && leb c.billing_period_start period_end
        && leb period_start c.billing_period_end
        && is_succeeded c.status)
      charges)

abbrev pub disclose : ℕ → ℕ → Option FeeCharge → Action (Unit {0})
disclose customer event none = pure tt
disclose customer event (some charge) = modify (λ s. record s {
  fee_restatement_disclosures =
      s.fee_restatement_disclosures
      ++ record { customer_id = customer; fee_charge_id = charge.id; restatement_event_id = event }
        ∷ [];
})

-- `FeeRestatementDisclosureService.check_and_disclose`
unfoldable pub check_and_disclose : ℕ → ℕ → ℕ → ℕ → Action (Unit {0})
check_and_disclose customer period_start period_end event = do
  found ← gets (λ s. has_succeeded_charge_for_period customer period_start period_end s.fee_charges)
  charge ← lift found
  disclose customer event charge

abbrev pub fee_disclosure_checker : FeeDisclosureChecker
fee_disclosure_checker = record { check_and_disclose = check_and_disclose }

abbrev pub same_window : ℕ × ℕ → ℕ × ℕ → Bool
same_window a b = a.0 == b.0 && a.1 == b.1

-- A window into a list sorted by start and end, each once.
unfoldable pub insert_window : ℕ × ℕ → List (ℕ × ℕ) → List (ℕ × ℕ)
insert_window w [] = w ∷ []
insert_window w (v ∷ vs) =
    if same_window w v
    then v ∷ vs
    else if ltb w.0 v.0 || w.0 == v.0 && ltb w.1 v.1
    then w ∷ v ∷ vs
    else v ∷ insert_window w vs

-- `SubPeriodReturnRepository.containing`: the windows of the rows that it returns.
unfoldable pub containing : ℕ → ℕ → List SubPeriodReturn → List (ℕ × ℕ)
containing customer on_date [] = []
containing customer on_date (r ∷ rs) =
    let rest = containing customer on_date rs in
    if r.customer_id == customer && leb r.sub_period_start on_date && leb on_date r.sub_period_end
    then insert_window (r.sub_period_start, r.sub_period_end) rest
    else rest

unfoldable pub list_touching : ℕ → ℕ → List PublishedSnapshot → List PublishedSnapshot
list_touching customer on_date snapshots =
    filter
      (λ p. p.customer_id == customer && leb p.period_start on_date && leb on_date p.period_end)
      snapshots

module _ (now : ℕ) (checker : Option FeeDisclosureChecker) (customer : ℕ) where
  abbrev pub relink : Bool → ℕ × ℕ → Action (Unit {0})
  relink done period =
      if done then pure tt else do compute_twr now customer period.0 period.1; pure tt

  abbrev pub disclose_if : Option FeeDisclosureChecker → ℕ × ℕ → ℕ → Action (Unit {0})
  disclose_if none period event = pure tt
  disclose_if (some c) period event = c.check_and_disclose customer period.0 period.1 event

  -- The loop of `_relink_and_cross_check`, with the periods that are relinked.
  unfoldable pub relink_each : ℕ → List (ℕ × ℕ) → List PublishedSnapshot → Action (Unit {0})
  relink_each event relinked [] = pure tt
  relink_each event relinked (p ∷ ps) = do
    let period : ℕ × ℕ = (p.period_start, p.period_end)
    relink (any (same_window period) relinked) period
    cross_check p
    disclose_if checker period event
    relink_each event (period ∷ relinked) ps

  unfoldable pub relink_and_cross_check : ℕ → ℕ → Action (Unit {0})
  relink_and_cross_check affected_date event = do
    touched ← gets (λ s. list_touching customer affected_date s.published_snapshots)
    relink_each event [] touched

  module _ (trigger : RestatementTriggerType) (source_event : ℕ) where
    -- An event for a window; its id is drawn when it is flushed.
    unfoldable pub add_event : ℕ × ℕ → Action ℕ
    add_event window = do
      id ← fresh_id
      let event : RestatementEvent = record {
        id = id;
        customer_id = customer;
        affected_period_start = window.0;
        affected_period_end = window.1;
        trigger_type = trigger;
        trigger_source_event_id = source_event;
      }
      modify (λ s. record s { restatement_events = s.restatement_events ++ event ∷ [] })
      pure id

    -- The loop over the windows after the first.
    unfoldable pub restate_windows : List (ℕ × ℕ) → Action (List SubPeriodReturn)
    restate_windows [] = pure []
    restate_windows (w ∷ ws) = do
      add_event w
      row ← recompute_sub_period now customer w
      rows ← restate_windows ws
      pure (row ∷ rows)

    unfoldable pub restate_found : ℕ → List (ℕ × ℕ) → Action (List SubPeriodReturn)
    restate_found affected_date [] = do add_event (affected_date, affected_date); pure []
    restate_found affected_date (w ∷ ws) = do
      first ← add_event w
      row ← recompute_sub_period now customer w
      rows ← restate_windows ws
      relink_and_cross_check affected_date first
      pure (row ∷ rows)

    unfoldable pub restate : ℕ → Action (List SubPeriodReturn)
    restate affected_date = do
      windows ← gets (λ s. containing customer affected_date s.sub_period_returns)
      restate_found affected_date windows

-- The restatement that a wash-sale adjustment sets off, at the instant of its transaction.
abbrev pub wash_sale_restatement : ℕ → Restatement
wash_sale_restatement now = record {
  restate = λ customer date event. do
    restate now (some fee_disclosure_checker) customer wash_sale_trigger event date
    pure tt;
}
