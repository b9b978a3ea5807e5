-- ===== src/Rules/Catalogue.antt =====
-- The catalogue: schemes, thresholds and holdings (prisma/schema.prisma), the reads of
-- src/services/scheme-rules.service.ts, and the enumerations both services use.
use backend_new.Basics.{
  ℕ, Bool, true, false, not, ◌&&◌, Option, none, some, List, Text, text_eq, find, Result, ok, err,
  ◌>>◌, throw_if,
}
use backend_new.Rules.Decimal.{Decimals}
use backend_new.Rules.Amount.{AmountRefusal, Limits}

pub data ThresholdType : Type 0 where
  lumpsum additional withdrawal switch_in switch_out sip swp stp : ThresholdType

pub data Frequency : Type 0 where
  not_applicable daily calendar_day_daily day_in_a_week four_times_a_month day_in_a_fortnight
        twice_a_month monthly quarterly half_yearly yearly :
      Frequency

-- The capabilities that FP publishes for a scheme.
pub data Capability : Type 0 where
  to_purchase to_sip to_redeem to_switch_out to_switch_in : Capability

-- Each `throw` of the two services.
pub data Refusal : Type 0 where
  fp_failed : Refusal
  live_merged live_inactive : Refusal
  live_closed : Capability → Refusal
  no_scheme not_active merged_away : Refusal
  closed_for : Capability → Refusal
  amount_refused units_refused : AmountRefusal → Refusal
  both_given neither_given no_target : Refusal
  same_scheme other_fund_house : Refusal
  no_frequencies frequency_unsupported target_frequency_unsupported : Refusal
  too_few_installments day_not_allowed day_not_offered : Refusal
  nothing_sellable units_too_many amount_too_large nothing_held malformed : Refusal

abbrev pub same_type : ThresholdType → ThresholdType → Bool
same_type lumpsum lumpsum = true
same_type additional additional = true
same_type withdrawal withdrawal = true
same_type switch_in switch_in = true
same_type switch_out switch_out = true
same_type sip sip = true
same_type swp swp = true
same_type stp stp = true
same_type _ _ = false

abbrev pub same_frequency : Frequency → Frequency → Bool
same_frequency not_applicable not_applicable = true
same_frequency daily daily = true
same_frequency calendar_day_daily calendar_day_daily = true
same_frequency day_in_a_week day_in_a_week = true
same_frequency four_times_a_month four_times_a_month = true
same_frequency day_in_a_fortnight day_in_a_fortnight = true
same_frequency twice_a_month twice_a_month = true
same_frequency monthly monthly = true
same_frequency quarterly quarterly = true
same_frequency half_yearly half_yearly = true
same_frequency yearly yearly = true
same_frequency _ _ = false

pub record Scheme : Type 0 where
  pub isin : Text
  pub amc_id : ℕ
  pub is_active : Bool
  pub merged : Bool
  pub purchase_allowed : Bool
  pub redemption_allowed : Bool
  pub switch_in_allowed : Bool
  pub switch_out_allowed : Bool
  pub sip_allowed : Bool

abbrev pub has_isin : Text → Scheme → Bool
has_isin isin s = text_eq s.isin isin

-- The scheme can be transacted in.
unfoldable pub require_tradable : Option Scheme → Result Refusal Scheme
require_tradable none = err no_scheme
require_tradable (some s) = do
  throw_if (not s.is_active) not_active
  throw_if s.merged merged_away
  ok s

module _ (dec : Decimals) where
  open dec use {D}

  pub record Threshold : Type 0 where
    pub isin : Text
    pub kind : ThresholdType
    pub frequency : Frequency
    pub amount : Limits dec
    pub units : Limits dec
    pub installments_min : Option ℕ
    pub allowed_dates : List ℕ

  pub record Holding : Type 0 where
    pub account : ℕ
    pub folio : Text
    pub isin : Text
    pub units : D
    pub redeemable_units : Option D
    pub market_value : Option D
    pub redeemable_market_value : Option D

  pub record Catalogue : Type 0 where
    pub schemes : List Scheme
    pub thresholds : List Threshold
    pub holdings : List Holding

  abbrev pub is_threshold : Text → ThresholdType → Frequency → Threshold → Bool
  is_threshold isin kind frequency t =
      text_eq t.isin isin && (same_type t.kind kind && same_frequency t.frequency frequency)

  -- A row of the scheme, of any frequency.
  abbrev pub of_kind : Text → ThresholdType → Threshold → Bool
  of_kind isin kind t = text_eq t.isin isin && same_type t.kind kind

  unfoldable pub require_tradable_scheme : Text → Catalogue → Result Refusal Scheme
  require_tradable_scheme isin cat = require_tradable (find (has_isin isin) cat.schemes)

  unfoldable pub load_threshold : Text → ThresholdType → Frequency → Catalogue → Option Threshold
  load_threshold isin kind frequency cat = find (is_threshold isin kind frequency) cat.thresholds
