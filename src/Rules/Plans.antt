-- ===== src/Rules/Plans.antt =====
-- `validatePlan` of src/services/scheme-rules.service.ts: the systematic plans.
use backend_new.Basics.{
  ℕ, not, Option, none, some, List, [], ◌∷◌, ◌==◌, Text, any, Result, ok, err, throw_if, ◌>>◌,
  ◌>>=◌,
}
use backend_new.Rules.Decimal.{Decimals}
use backend_new.Rules.Catalogue.{
  ThresholdType, sip, swp, stp, Frequency, Capability, to_sip, to_redeem, to_switch_out, Refusal,
  closed_for, no_target, no_frequencies, frequency_unsupported, too_few_installments,
  day_not_allowed, day_not_offered, Scheme, Threshold, Catalogue, require_tradable_scheme,
  load_threshold, of_kind,
}
use backend_new.Rules.Live.{FpReply, assert_live_capability}
use backend_new.Rules.Orders.{
  is_daily_frequency, PlanInput, assert_amount_or_units, below_min, amount_given, units_given,
  assert_switch_pair, publishes, assert_stp_target_frequency, check_switch_in_minimum, and_then,
}

-- What is checked live, by the kind of plan.
abbrev pub plan_capability : ThresholdType → Option Capability
plan_capability sip = some to_sip
plan_capability swp = some to_redeem
plan_capability stp = some to_switch_out
plan_capability _ = none

-- The day of a plan against the dates of the row; no dates are no restriction.
abbrev pub check_day : Frequency → Option ℕ → List ℕ → Result Refusal (Unit {0})
check_day frequency none dates = ok tt
check_day frequency (some day) [] = throw_if (is_daily_frequency frequency) day_not_allowed
check_day frequency (some day) (d ∷ dates) = do
  throw_if (is_daily_frequency frequency) day_not_allowed
  throw_if (not (any (λ x. x == day) (d ∷ dates))) day_not_offered
  ok tt

module _ (dec : Decimals) where
  -- A transfer plan to `target`.
  abbrev pub transfer_rules : PlanInput → Text → Catalogue dec → Result Refusal (Unit {0})
  transfer_rules input target cat = do
    assert_switch_pair dec input.isin target cat
    assert_amount_or_units input.amount input.units
    check_switch_in_minimum dec target input.amount cat

  -- An empty ISIN is no target.
  abbrev pub target_of : Option Text → Option Text
  target_of none = none
  target_of (some []) = none
  target_of (some (c ∷ cs)) = some (c ∷ cs)

  abbrev pub scheme_rules :
      ThresholdType → PlanInput → Scheme → Catalogue dec → Result Refusal (Unit {0})
  scheme_rules sip input scheme cat = throw_if (not scheme.sip_allowed) (closed_for to_sip)
  scheme_rules swp input scheme cat = do
    throw_if (not scheme.redemption_allowed) (closed_for to_redeem)
    assert_amount_or_units input.amount input.units
  scheme_rules stp input scheme cat = elim (target_of input.switch_in_isin) [
    | none ↦ err no_target
    | some target ↦ transfer_rules input target cat
  ]
  scheme_rules _ input scheme cat = ok tt

  abbrev pub target_frequency :
      ThresholdType → PlanInput → Catalogue dec → Result Refusal (Unit {0})
  target_frequency stp input cat = elim (target_of input.switch_in_isin) [
    | none ↦ ok tt
    | some target ↦ assert_stp_target_frequency dec target input.frequency cat
  ]
  target_frequency _ input cat = ok tt

  abbrev pub frequency_rules : ThresholdType → PlanInput → Catalogue dec → Result Refusal (Unit {0})
  frequency_rules kind input cat = do
    throw_if (not (any (of_kind dec input.isin kind) cat.thresholds)) no_frequencies
    throw_if (not (publishes dec input.isin kind input.frequency cat)) frequency_unsupported
    target_frequency kind input cat

  abbrev pub limit_rules : PlanInput → Option (Threshold dec) → Result Refusal (Unit {0})
  limit_rules input none = ok tt
  limit_rules input (some t) = do
    amount_given dec input.amount t.amount
    units_given dec input.units t.units
    throw_if (below_min input.number_of_installments t.installments_min) too_few_installments
    check_day input.frequency input.installment_day t.allowed_dates

  unfoldable pub plan_rules : ThresholdType → PlanInput → Catalogue dec → Result Refusal (Unit {0})
  plan_rules kind input cat = do
    scheme ← require_tradable_scheme dec input.isin cat
    scheme_rules kind input scheme cat
    frequency_rules kind input cat
    limit_rules input (load_threshold dec input.isin kind input.frequency cat)

  unfoldable pub validate_plan :
      (Text → FpReply dec)
      → ThresholdType
      → PlanInput
      → Catalogue dec
      → Catalogue dec × Result Refusal (Unit {0})
  validate_plan fp kind input cat = elim (plan_capability kind) [
    | none ↦ (cat, plan_rules kind input cat)
    | some capability ↦
        and_then dec fp (assert_live_capability dec fp input.isin capability cat)
          (λ cat. (cat, plan_rules kind input cat))
  ]
