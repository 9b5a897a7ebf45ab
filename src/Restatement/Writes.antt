-- ===== src/Restatement/Writes.antt =====
-- What a restatement writes, and what is kept by all of its writes.
use trueup.Prelude.{
  ℕ, suc, ◌≡◌, Bool, true, false, Option, none, some, List, [], ◌∷◌, ◌++◌, Result-cases, inl, inr,
}
use trueup.Store.{
  Store, Action, fresh_id, FeeCharge, SubPeriodReturn, PublishedSnapshot, RestatementTriggerType,
  RestatementEvent, FeeRestatementDisclosure,
}
use trueup.Store.Keeps.{Keeps, Keeps-modify, Keeps-pure, Keeps-if, Keeps-bind, keeps_rules}
use trueup.Valuation.Twr.{
  sub_period_row, add_sub_period, keep_or_add, same_figures, recompute_sub_period,
  recompute_windows, latest_for_sub_period, compute_twr,
}
use trueup.Restatement.Snapshots.{cross_check}
use trueup.Restatement.Service.{
  FeeDisclosureChecker, disclose, check_and_disclose, fee_disclosure_checker, disclose_if, relink,
  relink_each, relink_and_cross_check, add_event, restate_windows, restate_found, restate,
}
use trueup.Restatement.Derived.{sub_period_row-fields}

-- Whether a caller passes the checker of disclosures or none.
abbrev pub checker_of : Bool → Option FeeDisclosureChecker
checker_of true = some fee_disclosure_checker
checker_of false = none

-- A predicate that the four writes keep: an id is drawn, an event and a disclosure are added, and
-- a row of the transaction's instant is.
pub record Bears (now : ℕ) (P : Store → Type 0) : Type 0 where
  pub ids : (s : Store) → P s → P (record s { next_id = suc s.next_id })
  pub events :
      (s : Store) (rows : List RestatementEvent) → P s → P (record s { restatement_events = rows })
  pub disclosures :
      (s : Store) (rows : List FeeRestatementDisclosure)
      → P s
      → P (record s { fee_restatement_disclosures = rows })
  pub returns :
      (s : Store) (r : SubPeriodReturn)
      → r.recorded_at ≡ now
      → P s
      → P (record s { sub_period_returns = s.sub_period_returns ++ r ∷ [] })

module _ (now : ℕ) {P : Store → Type 0} (bears : Bears now P) where
  abbrev Kept : {A : Type 0} → Action A → Type 0
  Kept m = Keeps P m

  Kept-add : (r : SubPeriodReturn) → r.recorded_at ≡ now → Kept (add_sub_period r)
  unfolding add_sub_period
  Kept-add r e =
      let written =
        Keeps-modify {P = P} (λ s. record s { sub_period_returns = s.sub_period_returns ++ r ∷ [] })
          (λ s h. bears.returns s r e h) in
      search keeps_rules depth 16

  Kept-keep_or_add :
      (r : SubPeriodReturn) (old : Option SubPeriodReturn)
      → r.recorded_at ≡ now
      → Kept (keep_or_add r old)
  Kept-keep_or_add r none e = Kept-add r e
  Kept-keep_or_add r (some old) e = Keeps-if (same_figures old r) (Keeps-pure old) (Kept-add r e)

  pub Kept-recompute : (customer : ℕ) (w : ℕ × ℕ) → Kept (recompute_sub_period now customer w)
  unfolding recompute_sub_period
  Kept-recompute customer w = record {
    at = λ s h. elim (Result-cases (sub_period_row now customer w s)) [
      | inl (r, e) ↦ rw e (
          (Kept-keep_or_add r (latest_for_sub_period customer w s.sub_period_returns)
              (sub_period_row-fields now customer w s e).3).at
            s h)
      | inr (x, e) ↦ rw e tt
    ];
  }

  Kept-recompute_windows :
      (customer : ℕ) (ws : List (ℕ × ℕ)) → Kept (recompute_windows now customer ws)
  unfolding recompute_windows
  Kept-recompute_windows customer [] = search keeps_rules
  Kept-recompute_windows customer (w ∷ ws) =
      let rest = Kept-recompute_windows customer ws in search (keeps_rules, Kept-recompute) depth 12

  pub Kept-compute_twr : (customer a b : ℕ) → Kept (compute_twr now customer a b)
  unfolding compute_twr
  Kept-compute_twr customer a b = search (keeps_rules, Kept-recompute_windows) depth 12

  Kept-fresh_id : Kept fresh_id
  unfolding fresh_id
  Kept-fresh_id = record { at = λ s h. bears.ids s h }

  Kept-disclose : (customer event : ℕ) (c : Option FeeCharge) → Kept (disclose customer event c)
  Kept-disclose customer event none = Keeps-pure tt
  Kept-disclose customer event (some c) = Keeps-modify _ (λ s h. bears.disclosures s _ h)

  Kept-check_and_disclose : (customer a b event : ℕ) → Kept (check_and_disclose customer a b event)
  unfolding check_and_disclose
  Kept-check_and_disclose customer a b event = search (keeps_rules, Kept-disclose)

  Kept-cross_check : (p : PublishedSnapshot) → Kept (cross_check p)
  unfolding cross_check
  Kept-cross_check p = search keeps_rules

  Kept-disclose_if :
      (disclosing : Bool) (customer : ℕ) (period : ℕ × ℕ) (event : ℕ)
      → Kept (disclose_if now (checker_of disclosing) customer (checker_of disclosing) period event)
  Kept-disclose_if true customer period event =
      Kept-check_and_disclose customer period.0 period.1 event
  Kept-disclose_if false customer period event = Keeps-pure tt

  module _ (disclosing : Bool) (customer : ℕ) where
    Kept-relink :
        (done : Bool) (period : ℕ × ℕ)
        → Kept (relink now (checker_of disclosing) customer done period)
    Kept-relink true period = Keeps-pure tt
    Kept-relink false period = search (keeps_rules, Kept-compute_twr)

    Kept-relink_each :
        (event : ℕ) (done : List (ℕ × ℕ)) (ps : List PublishedSnapshot)
        → Kept (relink_each now (checker_of disclosing) customer event done ps)
    unfolding relink_each
    Kept-relink_each event done [] = Keeps-pure tt
    Kept-relink_each event done (p ∷ ps) =
        let rest = Kept-relink_each event ((p.period_start, p.period_end) ∷ done) ps in
        search (keeps_rules, Kept-relink, Kept-cross_check, Kept-disclose_if) depth 16

    Kept-relink_and_cross_check :
        (date event : ℕ)
        → Kept (relink_and_cross_check now (checker_of disclosing) customer date event)
    unfolding relink_and_cross_check
    Kept-relink_and_cross_check date event = search (keeps_rules, Kept-relink_each)

    module _ (trigger : RestatementTriggerType) (source : ℕ) where
      Kept-add_event :
          (w : ℕ × ℕ) → Kept (add_event now (checker_of disclosing) customer trigger source w)
      unfolding add_event
      Kept-add_event w =
          Keeps-bind Kept-fresh_id
            (λ id. Keeps-bind (Keeps-modify _ (λ s h. bears.events s _ h)) (λ u. Keeps-pure id))

      Kept-restate_windows :
          (ws : List (ℕ × ℕ))
          → Kept (restate_windows now (checker_of disclosing) customer trigger source ws)
      unfolding restate_windows
      Kept-restate_windows [] = search keeps_rules
      Kept-restate_windows (w ∷ ws) =
          let rest = Kept-restate_windows ws in
          search (keeps_rules, Kept-add_event, Kept-recompute) depth 12

      Kept-restate_found :
          (date : ℕ) (ws : List (ℕ × ℕ))
          → Kept (restate_found now (checker_of disclosing) customer trigger source date ws)
      unfolding restate_found
      Kept-restate_found date [] = search (keeps_rules, Kept-add_event)
      Kept-restate_found date (w ∷ ws) =
          search
            (
              keeps_rules, Kept-add_event, Kept-recompute, Kept-restate_windows,
              Kept-relink_and_cross_check,
            )
            depth 16

      pub restate-Keeps :
          (date : ℕ) → Keeps P (restate now (checker_of disclosing) customer trigger source date)
      unfolding restate
      restate-Keeps date = search (keeps_rules, Kept-restate_found)
