-- ===== src/Rules/Orders.antt =====
-- The checks of orders and plans in src/services/scheme-rules.service.ts. A check answers with the
-- catalogue that the live check left and a refusal or nothing.
use backend_new.Basics.{
  ℕ, Bool, true, false, not, ◌&&◌, Option, none, some, ltb, ◌==◌, Text, text_eq, find, any, is_none,
  Result, ok, err, if◌then◌else◌, throw_if, ◌>>◌, ◌>>=◌,
}
use backend_new.Rules.Decimal.{Decimals}
use backend_new.Rules.Amount.{AmountRefusal, Limits, check_amount, check_units}
use backend_new.Rules.Catalogue.{
  ThresholdType, lumpsum, additional, withdrawal, switch_in, switch_out, stp, Frequency,
  not_applicable, daily, calendar_day_daily, same_frequency, to_purchase, to_redeem, to_switch_out,
  to_switch_in, Refusal, closed_for, amount_refused, units_refused, both_given, neither_given,
  same_scheme, other_fund_house, target_frequency_unsupported, nothing_sellable, units_too_many,
  amount_too_large, nothing_held, malformed, Threshold, Holding, Catalogue, require_tradable_scheme,
  load_threshold, of_kind,
}
use backend_new.Rules.Live.{FpReply, assert_live_capability}

-- A `DAILY` plan has no day to choose.
abbrev pub is_daily_frequency : Frequency → Bool
is_daily_frequency daily = true
is_daily_frequency calendar_day_daily = true
is_daily_frequency _ = false

-- `PlanValidationInput`
pub record PlanInput : Type 0 where
  pub isin : Text
  pub switch_in_isin : Option Text
  pub amount : Option Text
  pub units : Option Text
  pub frequency : Frequency
  pub installment_day : Option ℕ
  pub number_of_installments : ℕ

unfoldable pub assert_amount_or_units : Option Text → Option Text → Result Refusal (Unit {0})
assert_amount_or_units (some amount) (some units) = err both_given
assert_amount_or_units none none = err neither_given
assert_amount_or_units (some amount) none = ok tt
assert_amount_or_units none (some units) = ok tt

-- What `if (value)` makes of an optional number.
abbrev pub below_min : ℕ → Option ℕ → Bool
below_min n none = false
below_min n (some m) = not (m == 0) && ltb n m

-- A refusal of an amount as a refusal of the order.
abbrev pub lift_amount :
    (AmountRefusal → Refusal) → Result AmountRefusal (Unit {0}) → Result Refusal (Unit {0})
lift_amount tag (ok u) = ok tt
lift_amount tag (err e) = err (tag e)

module _ (dec : Decimals) where
  open dec use {D, parse, zero, less_than, less_than_or_equal}

  abbrev pub amount_given : Option Text → Limits dec → Result Refusal (Unit {0})
  amount_given none r = ok tt
  amount_given (some raw) r = lift_amount amount_refused (check_amount dec raw r)

  abbrev pub units_given : Option Text → Limits dec → Result Refusal (Unit {0})
  units_given none r = ok tt
  units_given (some raw) r = lift_amount units_refused (check_units dec raw r)

  -- `if (threshold) { … }` on both values.
  abbrev pub within : Option (Threshold dec) → Option Text → Option Text → Result Refusal (Unit {0})
  within none amount units = ok tt
  within (some t) amount units = amount_given amount t.amount >> units_given units t.units

  -- `threshold ?? { amountMin: null, … }`
  abbrev pub limits_of : Option (Threshold dec) → Limits dec
  limits_of none = record { min = none; max = none; multiples = none }
  limits_of (some t) = t.amount

  unfoldable pub assert_switch_pair : Text → Text → Catalogue dec → Result Refusal (Unit {0})
  assert_switch_pair out_isin in_isin cat = do
    throw_if (text_eq out_isin in_isin) same_scheme
    source ← require_tradable_scheme dec out_isin cat
    target ← require_tradable_scheme dec in_isin cat
    throw_if (not source.switch_out_allowed) (closed_for to_switch_out)
    throw_if (not target.switch_in_allowed) (closed_for to_switch_in)
    throw_if (not (source.amc_id == target.amc_id)) other_fund_house
    ok tt

  unfoldable pub publishes : Text → ThresholdType → Frequency → Catalogue dec → Bool
  publishes isin kind frequency cat =
      any (λ t. of_kind dec isin kind t && same_frequency t.frequency frequency) cat.thresholds

  unfoldable pub assert_stp_target_frequency :
      Text → Frequency → Catalogue dec → Result Refusal (Unit {0})
  assert_stp_target_frequency isin frequency cat = do
    target ← require_tradable_scheme dec isin cat
    throw_if (not (publishes isin stp frequency cat)) target_frequency_unsupported
    ok tt

  -- Only the minimum of the target's row counts.
  abbrev pub entry_minimum : Option (Threshold dec) → Text → Result Refusal (Unit {0})
  entry_minimum none raw = ok tt
  entry_minimum (some t) raw = elim t.amount.min [
    | none ↦ ok tt
    | some m ↦
        lift_amount amount_refused
          (check_amount dec raw (record { min = some m; max = none; multiples = none }))
  ]

  unfoldable pub check_switch_in_minimum :
      Text → Option Text → Catalogue dec → Result Refusal (Unit {0})
  check_switch_in_minimum isin none cat = ok tt
  check_switch_in_minimum isin (some raw) cat =
      entry_minimum (load_threshold dec isin switch_in not_applicable cat) raw

  -- `new Prisma.Decimal(value)` throws.
  abbrev pub is_malformed : Option Text → Bool
  is_malformed none = false
  is_malformed (some raw) = is_none (parse raw)

  abbrev pub exceeds : Option Text → D → Bool
  exceeds none limit = false
  exceeds (some raw) limit = elim (parse raw) [ none ↦ false | some value ↦ less_than limit value ]

  abbrev pub check_limit : Option Text → Option D → Refusal → Result Refusal (Unit {0})
  check_limit value none too_much = ok tt
  check_limit value (some limit) too_much = do
    throw_if (is_malformed value) malformed
    throw_if (exceeds value limit) too_much
    ok tt

  abbrev pub or_else : Option D → D → D
  or_else none d = d
  or_else (some d) _ = d

  abbrev pub first_of : Option D → Option D → Option D
  first_of none o = o
  first_of (some d) _ = some d

  abbrev pub is_holding : ℕ → Text → Text → Holding dec → Bool
  is_holding account folio isin h =
      (h.account == account) && (text_eq h.folio folio && text_eq h.isin isin)

  unfoldable pub sellable :
      Option (Holding dec) → Option Text → Option Text → Result Refusal (Unit {0})
  sellable none amount units = ok tt
  sellable (some h) amount units = do
    throw_if (less_than_or_equal (or_else h.redeemable_units h.units) zero) nothing_sellable
    check_limit units (some (or_else h.redeemable_units h.units)) units_too_many
    check_limit amount (first_of h.redeemable_market_value h.market_value) amount_too_large

  unfoldable pub assert_redeemable :
      ℕ → Text → Text → Option Text → Option Text → Catalogue dec → Result Refusal (Unit {0})
  assert_redeemable account folio isin amount units cat =
      sellable (find (is_holding account folio isin) cat.holdings) amount units

  abbrev pub holds_some : Option (Holding dec) → Bool
  holds_some none = false
  holds_some (some h) = not (less_than_or_equal h.units zero)

  -- An account whose holdings were never mirrored passes.
  unfoldable pub assert_holds_scheme : ℕ → Text → Text → Catalogue dec → Result Refusal (Unit {0})
  assert_holds_scheme account folio isin cat =
      if any (λ h. h.account == account) cat.holdings
      then throw_if (not (holds_some (find (is_holding account folio isin) cat.holdings)))
          nothing_held
      else ok tt

  module _ (fp : Text → FpReply dec) where
    -- A step that writes, and what is checked on the catalogue it leaves.
    abbrev pub and_then :
        Catalogue dec × Result Refusal (Unit {0})
        → (Catalogue dec → Catalogue dec × Result Refusal (Unit {0}))
        → Catalogue dec × Result Refusal (Unit {0})
    and_then (cat, ok u) next = next cat
    and_then (cat, err e) next = (cat, err e)

    abbrev pub purchase_rules : Text → Text → Bool → Catalogue dec → Result Refusal (Unit {0})
    purchase_rules isin amount has_folio cat = do
      scheme ← require_tradable_scheme dec isin cat
      throw_if (not scheme.purchase_allowed) (closed_for to_purchase)
      amount_given (some amount) (
          limits_of (
            load_threshold dec isin (if has_folio then additional else lumpsum) not_applicable cat))

    unfoldable pub validate_purchase :
        Text → Text → Bool → Catalogue dec → Catalogue dec × Result Refusal (Unit {0})
    validate_purchase isin amount has_folio cat =
        and_then (assert_live_capability dec fp isin to_purchase cat)
          (λ cat. (cat, purchase_rules isin amount has_folio cat))

    abbrev pub both : Option Text → Option Text → Bool
    both amount units = not (is_none amount) && not (is_none units)

    abbrev pub redemption_rules :
        Text → Option Text → Option Text → Catalogue dec → Result Refusal (Unit {0})
    redemption_rules isin amount units cat = do
      scheme ← require_tradable_scheme dec isin cat
      throw_if (not scheme.redemption_allowed) (closed_for to_redeem)
      throw_if (both amount units) both_given
      within (load_threshold dec isin withdrawal not_applicable cat) amount units

    unfoldable pub validate_redemption :
        Text → Option Text → Option Text → Catalogue dec → Catalogue dec × Result Refusal (Unit {0})
    validate_redemption isin amount units cat =
        and_then (assert_live_capability dec fp isin to_redeem cat)
          (λ cat. (cat, redemption_rules isin amount units cat))

    abbrev pub switch_limits :
        Text → Text → Option Text → Option Text → Catalogue dec → Result Refusal (Unit {0})
    switch_limits out_isin in_isin amount units cat = do
      within (load_threshold dec out_isin switch_out not_applicable cat) amount units
      check_switch_in_minimum in_isin amount cat

    unfoldable pub validate_switch :
        Text
        → Text
        → Option Text
        → Option Text
        → Catalogue dec
        → Catalogue dec × Result Refusal (Unit {0})
    validate_switch out_isin in_isin amount units cat =
        and_then
          (cat, assert_switch_pair out_isin in_isin cat >> assert_amount_or_units amount units)
          (λ cat. and_then (assert_live_capability dec fp out_isin to_switch_out cat) (λ cat.
            and_then (assert_live_capability dec fp in_isin to_switch_in cat)
              (λ cat. (cat, switch_limits out_isin in_isin amount units cat))))
