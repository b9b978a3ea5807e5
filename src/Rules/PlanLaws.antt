-- ===== src/Rules/PlanLaws.antt =====
-- What an accepted systematic plan has passed.
use backend_new.Basics.{
  ℕ, ◌≡◌, ◌≤◌, ◌≢◌, refl, Bool, true, false, not, Option, none, some, List, [], ◌∷◌, Text, ◌==◌,
  any, Result, ok, err, arith, throw_if-ok, step-ok, bind-eq-ok, some-injective, subst,
  Option-cases, inl, inr,
}
use backend_new.Rules.Decimal.{Decimals}
use backend_new.Rules.Catalogue.{
  ThresholdType, Refusal, lumpsum, additional, withdrawal, switch_in, switch_out, to_sip, to_redeem,
  to_switch_out, sip, swp, stp, Frequency, no_frequencies, frequency_unsupported,
  too_few_installments, day_not_allowed, day_not_offered, target_frequency_unsupported, Scheme,
  Threshold, Catalogue, require_tradable_scheme, load_threshold, of_kind,
}
use backend_new.Rules.Live.{FpReply, assert_live_capability}
use backend_new.Rules.Orders.{
  is_daily_frequency, and_then, PlanInput, below_min, publishes, amount_given, units_given,
  assert_switch_pair, assert_stp_target_frequency, assert_amount_or_units,
}
use backend_new.Rules.Plans.{
  check_day, transfer_rules, target_of, scheme_rules, target_frequency, frequency_rules,
  limit_rules, plan_rules, validate_plan,
}
use backend_new.Rules.OrderLaws.{
  IsSwitchPair, IsOneOf, assert_switch_pair-ok, assert_amount_or_units-ok,
}

-- The schedule against the row: a minimum of zero is no minimum, a row without dates offers all.
pub record IsScheduled (frequency : Frequency) (day : Option ℕ) (count : ℕ) (min : Option ℕ)
    (dates : List ℕ) : Type 0 where
  pub enough : (m : ℕ) → min ≡ some m → m ≤ count
  pub no_daily_day : is_daily_frequency frequency ≡ true → day ≡ none
  pub offered :
      (d x : ℕ) (xs : List ℕ) → day ≡ some d → dates ≡ x ∷ xs → any (λ y. y == d) dates ≡ true

below_min-enough : (n m : ℕ) (min : Option ℕ) → below_min n min ≡ false → min ≡ some m → m ≤ n
below_min-enough n m none h e = absurd (cc)
below_min-enough n m (some k) h e = let same : k ≡ m = some-injective k m e in ground arith

check_day-daily :
    (f : Frequency) (day : Option ℕ) (dates : List ℕ)
    → check_day f day dates ≡ ok tt
    → is_daily_frequency f ≡ true
    → day ≡ none
check_day-daily f none dates h daily = refl
check_day-daily f (some d) [] h daily = ground arith
check_day-daily f (some d) (x ∷ xs) h daily = ground arith

not-false : (b : Bool) → not b ≡ false → b ≡ true
not-false b e = ground arith

offered_of :
    (f : Frequency) (c y : ℕ) (ys : List ℕ)
    → check_day f (some c) (y ∷ ys) ≡ ok tt
    → any (λ x. x == c) (y ∷ ys) ≡ true
offered_of f c y ys h =
    let (_, rest) = throw_if-ok (is_daily_frequency f) day_not_allowed _ h in
    let (seen, _) = throw_if-ok (not (any (λ x. x == c) (y ∷ ys))) day_not_offered _ rest in
    not-false (any (λ x. x == c) (y ∷ ys)) seen

check_day-offered :
    (f : Frequency) (day : Option ℕ) (dates : List ℕ)
    → check_day f day dates ≡ ok tt
    → (d x : ℕ) (xs : List ℕ) → day ≡ some d
    → dates ≡ x ∷ xs
    → any (λ y. y == d) dates ≡ true
check_day-offered f none dates h d x xs e1 e2 = absurd (cc)
check_day-offered f (some c) [] h d x xs e1 e2 = absurd (cc)
check_day-offered f (some c) (y ∷ ys) h d x xs e1 e2 =
    let same : c ≡ d = some-injective c d e1 in
    subst (λ d. any (λ y. y == d) (y ∷ ys) ≡ true) same (offered_of f c y ys h)

module _ (dec : Decimals) (fp : Text → FpReply dec) (kind : ThresholdType) (input : PlanInput) where
  limit_rules-IsScheduled :
      (t : Threshold dec)
      → limit_rules dec input (some t) ≡ ok tt
      → IsScheduled input.frequency input.installment_day input.number_of_installments
          t.installments_min t.allowed_dates
  limit_rules-IsScheduled t e =
      let (_, r1) = step-ok (amount_given dec input.amount t.amount) _ e in
      let (_, r2) = step-ok (units_given dec input.units t.units) _ r1 in
      let (count_ok, r3) =
        throw_if-ok (below_min input.number_of_installments t.installments_min) too_few_installments
          _ r2 in
      record {
        enough =
            λ m is. below_min-enough input.number_of_installments m t.installments_min count_ok is;
        no_daily_day = check_day-daily input.frequency input.installment_day t.allowed_dates r3;
        offered = check_day-offered input.frequency input.installment_day t.allowed_dates r3;
      }

  -- The scheme publishes the plan's frequency, and the plan keeps to that row.
  pub record IsOffered (cat : Catalogue dec) : Type 0 where
    pub published : publishes dec input.isin kind input.frequency cat ≡ true
    pub scheduled :
        (t : Threshold dec)
        → load_threshold dec input.isin kind input.frequency cat ≡ some t
        → IsScheduled input.frequency input.installment_day input.number_of_installments
            t.installments_min t.allowed_dates

  pub plan_rules-IsOffered :
      (cat : Catalogue dec) → plan_rules dec kind input cat ≡ ok tt → IsOffered cat
  unfolding plan_rules
  plan_rules-IsOffered cat e =
      let (scheme, _, r1) = bind-eq-ok (require_tradable_scheme dec input.isin cat) _ e in
      let (_, r2) = step-ok (scheme_rules dec kind input scheme cat) _ r1 in
      let (freq, r3) = step-ok (frequency_rules dec kind input cat) _ r2 in
      let (_, f1) =
        throw_if-ok (not (any (of_kind dec input.isin kind) cat.thresholds)) no_frequencies _
          freq in
      let (seen, _) =
        throw_if-ok (not (publishes dec input.isin kind input.frequency cat)) frequency_unsupported
          _ f1 in
      record {
        published = not-false (publishes dec input.isin kind input.frequency cat) seen;
        scheduled =
            λ t is. limit_rules-IsScheduled t (subst (λ o. limit_rules dec input o ≡ ok tt) is r3);
      }

module _ (dec : Decimals) (fp : Text → FpReply dec) where
  and_then-rules :
      (m : Catalogue dec × Result Refusal (Unit {0}))
      (rules : Catalogue dec → Result Refusal (Unit {0}))
      → (and_then dec fp m (λ cat. (cat, rules cat))).1 ≡ ok tt
      → rules (and_then dec fp m (λ cat. (cat, rules cat))).0 ≡ ok tt
  and_then-rules (cat, ok u) rules e = e
  and_then-rules (cat, err r) rules e = absurd (let bad : err r ≡ ok tt = e in cc)

  validate_plan-rules :
      (kind : ThresholdType) (input : PlanInput) (cat : Catalogue dec)
      → (validate_plan dec fp kind input cat).1 ≡ ok tt
      → plan_rules dec kind input (validate_plan dec fp kind input cat).0 ≡ ok tt
  unfolding validate_plan
  validate_plan-rules sip input cat e =
      and_then-rules (assert_live_capability dec fp input.isin to_sip cat)
        (plan_rules dec sip input) e
  validate_plan-rules swp input cat e =
      and_then-rules (assert_live_capability dec fp input.isin to_redeem cat)
        (plan_rules dec swp input) e
  validate_plan-rules stp input cat e =
      and_then-rules (assert_live_capability dec fp input.isin to_switch_out cat)
        (plan_rules dec stp input) e
  validate_plan-rules lumpsum input cat e = e
  validate_plan-rules additional input cat e = e
  validate_plan-rules withdrawal input cat e = e
  validate_plan-rules switch_in input cat e = e
  validate_plan-rules switch_out input cat e = e

  -- The transfer rules of a plan to `target`.
  pub record IsTransfer (input : PlanInput) (cat : Catalogue dec) : Type 0 where
    pub target : Text
    pub to : target_of dec input.switch_in_isin ≡ some target
    pub pair : IsSwitchPair dec input.isin target cat
    pub one_of : IsOneOf input.amount input.units
    pub published : publishes dec target stp input.frequency cat ≡ true

  no_rules :
      (input : PlanInput) (scheme : Scheme) (cat : Catalogue dec)
      → target_of dec input.switch_in_isin ≡ none
      → scheme_rules dec stp input scheme cat ≢ ok tt
  no_rules input scheme cat missing e = let bad = rw (missing, scheme_rules) at e in cc

  rules_of :
      (input : PlanInput) (scheme : Scheme) (cat : Catalogue dec) (target : Text)
      → target_of dec input.switch_in_isin ≡ some target
      → scheme_rules dec stp input scheme cat ≡ ok tt
      → transfer_rules dec input target cat ≡ ok tt
  rules_of input scheme cat target here e = rw (here, scheme_rules) at e

  frequency_of :
      (input : PlanInput) (cat : Catalogue dec) (target : Text)
      → target_of dec input.switch_in_isin ≡ some target
      → target_frequency dec stp input cat ≡ ok tt
      → assert_stp_target_frequency dec target input.frequency cat ≡ ok tt
  frequency_of input cat target here e = rw (here, target_frequency) at e

  plan_rules-IsTransfer :
      (input : PlanInput) (cat : Catalogue dec)
      → plan_rules dec stp input cat ≡ ok tt
      → IsTransfer input cat
  unfolding plan_rules assert_stp_target_frequency
  plan_rules-IsTransfer input cat e =
      let (scheme, _, r1) = bind-eq-ok (require_tradable_scheme dec input.isin cat) _ e in
      let (rules, r2) = step-ok (scheme_rules dec stp input scheme cat) _ r1 in
      let (freq, _) = step-ok (frequency_rules dec stp input cat) _ r2 in
      let (_, f1) =
        throw_if-ok (not (any (of_kind dec input.isin stp) cat.thresholds)) no_frequencies _ freq in
      let (_, f2) =
        throw_if-ok (not (publishes dec input.isin stp input.frequency cat)) frequency_unsupported _
          f1 in
      elim (Option-cases (target_of dec input.switch_in_isin)) [
        | inl missing ↦ absurd (no_rules input scheme cat missing rules)
        | inr (target, here) ↦
            let (paired, s1) =
              step-ok (assert_switch_pair dec input.isin target cat) _
                (rules_of input scheme cat target here rules) in
            let (given, _) = step-ok (assert_amount_or_units input.amount input.units) _ s1 in
            let (_, _, f3) =
              bind-eq-ok (require_tradable_scheme dec target cat) _
                (frequency_of input cat target here f2) in
            let (seen, _) =
              throw_if-ok (not (publishes dec target stp input.frequency cat))
                target_frequency_unsupported _ f3 in
            record {
              target = target;
              to = here;
              pair = assert_switch_pair-ok dec input.isin target cat paired;
              one_of = assert_amount_or_units-ok input.amount input.units given;
              published = not-false (publishes dec target stp input.frequency cat) seen;
            }
      ]

-- A plan that `validatePlan` lets pass runs at a frequency that the scheme publishes for its kind,
-- and keeps to the row of that frequency where it is found: no fewer installments than its minimum,
-- no installment day when the plan is daily, and otherwise a day among the row's dates, if it lists
-- any. Read in the catalogue as the live answer left it.
pub validate_plan-IsOffered :
    (dec : Decimals) (fp : Text → FpReply dec) (kind : ThresholdType) (input : PlanInput)
    (cat : Catalogue dec)
    → (validate_plan dec fp kind input cat).1 ≡ ok tt
    → IsOffered dec fp kind input (validate_plan dec fp kind input cat).0
validate_plan-IsOffered dec fp kind input cat e =
    plan_rules-IsOffered dec fp kind input (validate_plan dec fp kind input cat).0
      (validate_plan-rules dec fp kind input cat e)

-- A transfer plan that `validatePlan` lets pass names a target that its scheme can be switched into
-- (a different scheme of the same fund house, both active, not merged and open for it), gives exactly
-- one of an amount and a number of units, and the target publishes the plan's frequency as well.
-- Read in the catalogue as the live answer left it.
pub validate_plan-IsTransfer :
    (dec : Decimals) (fp : Text → FpReply dec) (input : PlanInput) (cat : Catalogue dec)
    → (validate_plan dec fp stp input cat).1 ≡ ok tt
    → IsTransfer dec fp input (validate_plan dec fp stp input cat).0
validate_plan-IsTransfer dec fp input cat e =
    plan_rules-IsTransfer dec fp input (validate_plan dec fp stp input cat).0
      (validate_plan-rules dec fp stp input cat e)
