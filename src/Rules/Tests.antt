-- ===== src/Rules/Tests.antt =====
-- The checks at concrete inputs, with decimals that are hundredths.
use backend_new.Basics.{
  ℕ, ◌-◌, ◌%◌, ◌≡◌, ◌<◌, some-injective, ◌↔◌, refl, true, false, Option, none, some, [], ◌∷◌,
  text_eq, ltb, leb, ◌==◌, Text, ok, arith,
}
use native.Mathlib.Nat.{mod-lt}
use backend_new.Rules.Decimal.{Decimals, Exact, digits_20}
use backend_new.Rules.Amount.{Limits, check_amount, check_units}
use backend_new.Rules.AmountSpec.{Fits, check_amount_iff}
use backend_new.Rules.Catalogue.{
  Scheme, Threshold, Holding, Catalogue, require_tradable, require_tradable_scheme, load_threshold,
  to_switch_out, to_switch_in, stp, monthly,
}
use backend_new.Rules.Live.{
  Flags, Block, FpReply, assert_live_capability, fetch_live_scheme, apply_live_flags,
  apply_plan_thresholds, rows_of, upsert, upsert_all, plan, sip_block, stp_out_block, lumpsum_block,
}
use backend_new.Rules.Orders.{
  PlanInput, validate_purchase, validate_switch, assert_redeemable, sellable,
  check_switch_in_minimum, assert_switch_pair, assert_amount_or_units, publishes,
  assert_stp_target_frequency,
}
use backend_new.Rules.Plans.{plan_rules, validate_plan}
use backend_new.Rules.OrderLaws.{
  IsPurchasable, IsSwitchPair, IsOneOf, IsLive, validate_purchase_iff, validate_switch-IsSwitchPair,
}
use backend_new.Rules.Redeemable.{IsSellable, assert_redeemable_iff}
use backend_new.Rules.PlanLaws.{
  IsOffered, IsTransfer, validate_plan-IsOffered, validate_plan-IsTransfer,
}
use backend_new.Rules.Sip.{whole, IsSipSchedule, assert_sip_schedule, assert_sip_schedule_iff}

abbrev first_of : Text → Option ℕ
first_of [] = none
first_of (x ∷ _) = some x

-- Hundredths, written as a list of one number.
abbrev hundredths : Decimals
hundredths = record {
  D = ℕ;
  parse = first_of;
  is_finite = λ _. true;
  decimal_places = λ _. 2;
  zero = 0;
  less_than = ltb;
  less_than_or_equal = leb;
  minus = λ a b. a - b;
  modulo = λ a b. a % b;
  is_zero = λ a. a == 0;
}

-- Hundredths of 20 digits at most.
rest_fits : (a b : ℕ) → b < digits_20 → 0 < b → a % b < digits_20
rest_fits a b fits pos = let less : a % b < b = mod-lt a pos in omega arith

abbrev hundredths_exact : Exact hundredths
hundredths_exact = record {
  is_natural = λ a. a < digits_20;
  size = λ a. a;
  size_fits = λ a h. h;
  zero_natural = omega arith;
  zero_size = refl;
  largest = 99999999999999999999;
  positive_natural = λ a _ _ _ h. ground arith;
  less_than_iff = λ a b _ _. ground arith;
  less_than_or_equal_iff = λ a b _ _. ground arith;
  minus_natural = λ a b na nb le. omega arith;
  minus_size = λ _ _ _ _ _. refl;
  modulo_natural = λ a b na nb pos. rest_fits a b nb pos;
  modulo_size = λ _ _ _ _ _. refl;
  is_zero_iff = λ a _. ground arith;
}

abbrev none_at_all : Limits hundredths
none_at_all = record { min = none; max = none; multiples = none }

-- From 100.00 in steps of 500.00.
abbrev steps_of_500 : Limits hundredths
steps_of_500 = record { min = some 10000; max = none; multiples = some 50000 }

check_amount_iff_example :
    (check_amount hundredths (60000 ∷ []) steps_of_500 ≡ ok tt)
    ↔ Fits hundredths hundredths_exact (60000 ∷ []) steps_of_500
check_amount_iff_example =
    check_amount_iff hundredths hundredths_exact (60000 ∷ []) steps_of_500
      (record { min = omega arith; max = tt; multiples = omega arith })
      (λ a p fin. let is = some-injective 60000 a p in rw (← is))

six_hundred : check_amount hundredths (60000 ∷ []) steps_of_500 ≡ ok tt
unfolding check_amount
six_hundred = refl

assert_sip_schedule_iff_example :
    (assert_sip_schedule monthly (some (whole 28)) (whole 12) ≡ ok tt)
    ↔ IsSipSchedule monthly (some (whole 28)) (whole 12)
assert_sip_schedule_iff_example = assert_sip_schedule_iff monthly (some (whole 28)) (whole 12)

abbrev fund_a : Text
fund_a = 1 ∷ []

abbrev fund_b : Text
fund_b = 2 ∷ []

abbrev open_flags : Flags
open_flags = record {
  active = true;
  merged = false;
  purchase_allowed = true;
  sip_allowed = true;
  redemption_allowed = true;
  switch_out_allowed = true;
  switch_in_allowed = true;
}

abbrev lumpsum_limits : Block hundredths
lumpsum_limits = record {
  kind = lumpsum_block;
  frequency = none;
  amount = none_at_all;
  installments_min = none;
  dates = [];
}

abbrev sip_limits : Block hundredths
sip_limits = record {
  kind = sip_block;
  frequency = some monthly;
  amount = none_at_all;
  installments_min = some 6;
  dates = 1 ∷ 5 ∷ [];
}

abbrev stp_limits : Block hundredths
stp_limits = record {
  kind = stp_out_block;
  frequency = some monthly;
  amount = none_at_all;
  installments_min = some 6;
  dates = 1 ∷ [];
}

abbrev fp_open : Text → FpReply hundredths
fp_open isin = record {
  flags = some open_flags;
  plan_reply = plan true (lumpsum_limits ∷ sip_limits ∷ stp_limits ∷ []);
}

-- What the mirror has: closed for purchases, which the live answer corrects.
abbrev scheme_of : Text → Scheme
scheme_of isin = record {
  isin = isin;
  amc_id = 7;
  is_active = true;
  merged = false;
  purchase_allowed = false;
  redemption_allowed = true;
  switch_in_allowed = true;
  switch_out_allowed = true;
  sip_allowed = true;
}

abbrev stp_row : Text → Threshold hundredths
stp_row isin = record {
  isin = isin;
  kind = stp;
  frequency = monthly;
  amount = none_at_all;
  units = none_at_all;
  installments_min = some 6;
  allowed_dates = 1 ∷ [];
}

abbrev held : Holding hundredths
held = record {
  account = 1;
  folio = 9 ∷ [];
  isin = fund_a;
  units = 500;
  redeemable_units = none;
  market_value = some 9000;
  redeemable_market_value = none;
}

abbrev mirror : Catalogue hundredths
mirror = record {
  schemes = scheme_of fund_a ∷ scheme_of fund_b ∷ [];
  thresholds = stp_row fund_b ∷ [];
  holdings = held ∷ [];
}

validate_purchase_iff_example :
    ((validate_purchase hundredths fp_open fund_a (60000 ∷ []) true mirror).1 ≡ ok tt)
    ↔ IsPurchasable hundredths fp_open fund_a (60000 ∷ []) true mirror
validate_purchase_iff_example =
    validate_purchase_iff hundredths fp_open fund_a (60000 ∷ []) true mirror

orders : Unit {0}
unfolding text_eq validate_purchase validate_switch validate_plan assert_redeemable
    assert_live_capability fetch_live_scheme apply_live_flags apply_plan_thresholds rows_of upsert
    upsert_all require_tradable_scheme require_tradable load_threshold check_amount check_units
    check_switch_in_minimum assert_switch_pair assert_amount_or_units publishes
    assert_stp_target_frequency sellable plan_rules
orders = tt

bought : (validate_purchase hundredths fp_open fund_a (60000 ∷ []) true mirror).1 ≡ ok tt
unfolding orders
bought = refl

switched :
    (validate_switch hundredths fp_open fund_a fund_b (some (60000 ∷ [])) none mirror).1 ≡ ok tt
unfolding orders
switched = refl

validate_switch-IsSwitchPair_example :
    IsSwitchPair hundredths fund_a fund_b mirror
    × IsOneOf (some (60000 ∷ [])) none
    × IsLive hundredths fp_open fund_a to_switch_out
    × IsLive hundredths fp_open fund_b to_switch_in
validate_switch-IsSwitchPair_example =
    validate_switch-IsSwitchPair hundredths fp_open fund_a fund_b (some (60000 ∷ [])) none mirror
      switched

redeemed : assert_redeemable hundredths 1 (9 ∷ []) fund_a (some (8000 ∷ [])) none mirror ≡ ok tt
unfolding orders
redeemed = refl

assert_redeemable_iff_example :
    (assert_redeemable hundredths 1 (9 ∷ []) fund_a (some (8000 ∷ [])) none mirror ≡ ok tt)
    ↔ IsSellable hundredths (some (8000 ∷ [])) none held
unfolding orders
assert_redeemable_iff_example =
    assert_redeemable_iff hundredths 1 (9 ∷ []) fund_a (some (8000 ∷ [])) none mirror held refl

abbrev transfer : PlanInput
transfer = record {
  isin = fund_a;
  switch_in_isin = some fund_b;
  amount = some (60000 ∷ []);
  units = none;
  frequency = monthly;
  installment_day = some 1;
  number_of_installments = 12;
}

planned : (validate_plan hundredths fp_open stp transfer mirror).1 ≡ ok tt
unfolding orders
planned = refl

validate_plan-IsOffered_example :
    IsOffered hundredths fp_open stp transfer
      (validate_plan hundredths fp_open stp transfer mirror).0
validate_plan-IsOffered_example =
    validate_plan-IsOffered hundredths fp_open stp transfer mirror planned

validate_plan-IsTransfer_example :
    IsTransfer hundredths fp_open transfer (validate_plan hundredths fp_open stp transfer mirror).0
validate_plan-IsTransfer_example =
    validate_plan-IsTransfer hundredths fp_open transfer mirror planned
