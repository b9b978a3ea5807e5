-- ===== src/Rules/Amount.antt =====
-- `checkAmount` and `checkUnits` of src/services/scheme-rules.service.ts.
use backend_new.Basics.{
  Bool, false, not, ◌&&◌, ◌||◌, Option, none, some, ltb, Text, Result, ok, err, ◌>>◌, throw_if,
}
use backend_new.Rules.Decimal.{Decimals}

-- Each `throw` of the two checks.
pub data AmountRefusal : Type 0 where
  not_a_decimal not_finite not_positive below_min above_max off_step : AmountRefusal

module _ (dec : Decimals) where
  open dec use {
    D, parse, is_finite, decimal_places, zero, less_than, less_than_or_equal, minus, modulo,
    is_zero,
  }

  -- The limits on amounts, and on units, of a threshold row.
  pub record Limits : Type 0 where
    pub min : Option D
    pub max : Option D
    pub multiples : Option D

  -- `a.greaterThan(b)` is `b.lessThan(a)`
  abbrev pub below : D → Option D → Bool
  below a none = false
  below a (some m) = less_than a m

  abbrev pub above : D → Option D → Bool
  above a none = false
  above a (some m) = less_than m a

  abbrev pub base_of : Option D → D
  base_of none = zero
  base_of (some m) = m

  -- The step is measured from the minimum.
  abbrev pub off_grid : D → Limits → Bool
  off_grid a r = elim r.multiples [
    | none ↦ false
    | some step ↦ less_than zero step && not (is_zero (modulo (minus a (base_of r.min)) step))
  ]

  unfoldable pub check_amount : Text → Limits → Result AmountRefusal (Unit {0})
  check_amount raw r = elim (parse raw) [
    | none ↦ err not_a_decimal
    | some a ↦ do
      throw_if (not (is_finite a) || ltb 2 (decimal_places a)) not_finite
      throw_if (less_than_or_equal a zero) not_positive
      throw_if (below a r.min) below_min
      throw_if (above a r.max) above_max
      throw_if (off_grid a r) off_step
      ok tt
  ]

  -- The step is not checked for units.
  unfoldable pub check_units : Text → Limits → Result AmountRefusal (Unit {0})
  check_units raw r = elim (parse raw) [
    | none ↦ err not_a_decimal
    | some u ↦ do
      throw_if (less_than_or_equal u zero) not_positive
      throw_if (below u r.min) below_min
      throw_if (above u r.max) above_max
      ok tt
  ]
