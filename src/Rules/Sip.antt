-- ===== src/Rules/Sip.antt =====
-- src/services/sip-validation.ts: the mandate behind a SIP, the schedules that ONDC plans may run
-- on, and what a cancellation sends.
use backend_new.Basics.{
  ℕ, ◌≡◌, ◌≤◌, ◌↔◌, Bool, true, false, not, ◌||◌, Option, none, some, ltb, Text, Result, ok, err,
  ◌>>◌, throw_if, arith, is_none, is_truthy, if◌then◌else◌,
}
use backend_new.Rules.Decimal.{Decimals}
use backend_new.Rules.Catalogue.{Frequency, monthly, daily, calendar_day_daily}

pub data SipRefusal : Type 0 where
  mandate_not_approved wrong_provider bad_amount over_limit outside_validity : SipRefusal
  bad_count bad_day daily_day bad_frequency : SipRefusal

-- A number of the request: an integer from zero up, or anything else.
pub data Number : Type 0 where
  whole : ℕ → Number
  other : Number

module _ (dec : Decimals) where
  open dec use {D, parse, is_finite, decimal_places, zero, less_than, less_than_or_equal}

  -- Days are counted; ISO dates compare as they do.
  pub record Mandate : Type 0 where
    pub approved : Bool
    pub is_cybrilla : Bool
    pub limit : D
    pub valid_from : Option ℕ
    pub valid_to : Option ℕ

  abbrev pub outside : Mandate → ℕ → Bool
  outside m today = starts_after m.valid_from || ends_before m.valid_to
    where
      starts_after : Option ℕ → Bool
      starts_after none = false
      starts_after (some d) = ltb today d

      ends_before : Option ℕ → Bool
      ends_before none = false
      ends_before (some d) = ltb d today

  unfoldable pub assert_sip_mandate : Mandate → Text → ℕ → Result SipRefusal (Unit {0})
  assert_sip_mandate m amount today = do
    throw_if (not m.approved) mandate_not_approved
    throw_if (not m.is_cybrilla) wrong_provider
    elim (parse amount) [
      | none ↦ err bad_amount
      | some value ↦ do
        throw_if
            (not (is_finite value)
              || (less_than_or_equal value zero || ltb 2 (decimal_places value)))
            bad_amount
        throw_if (less_than m.limit value) over_limit
        throw_if (outside m today) outside_validity
        ok tt
    ]

abbrev in_range : ℕ → ℕ → Number → Bool
in_range low high (whole n) = not (ltb n low || ltb high n)
in_range low high other = false

abbrev day_in_range : Option Number → Bool
day_in_range none = false
day_in_range (some d) = in_range 1 28 d

abbrev schedule_day : Frequency → Option Number → Result SipRefusal (Unit {0})
schedule_day monthly day = throw_if (not (day_in_range day)) bad_day
schedule_day daily day = throw_if (not (is_none day)) daily_day
schedule_day calendar_day_daily day = throw_if (not (is_none day)) daily_day
schedule_day _ day = err bad_frequency

unfoldable pub assert_sip_schedule :
    Frequency → Option Number → Number → Result SipRefusal (Unit {0})
assert_sip_schedule frequency day count = do
  throw_if (not (in_range 1 1200 count)) bad_count
  schedule_day frequency day

abbrev is_monthly : Frequency → Bool
is_monthly monthly = true
is_monthly _ = false

unfoldable pub assert_exit_plan_schedule :
    Frequency → Option Number → Number → Result SipRefusal (Unit {0})
assert_exit_plan_schedule frequency day count = do
  throw_if (not (is_monthly frequency)) bad_frequency
  assert_sip_schedule frequency day count

-- The code of a cancellation, and what travels with it.
pub data Cancellation : Type 0 where
  custom_reason : Cancellation
  stock_reason : (code : Text) → Cancellation

unfoldable pub plan_cancellation_payload : Cancellation → Option Text → Cancellation × Option Text
plan_cancellation_payload custom_reason reason =
    (custom_reason, if is_truthy reason then reason else none)
plan_cancellation_payload (stock_reason code) reason = (stock_reason code, none)

-- The schedules of an ONDC SIP.
pub data IsSipSchedule : Frequency → Option Number → Number → Type 0 where
  each_month :
      (day count : ℕ)
      → 1 ≤ day
      → day ≤ 28
      → 1 ≤ count
      → count ≤ 1200
      → IsSipSchedule monthly (some (whole day)) (whole count)
  each_day : (count : ℕ) → 1 ≤ count → count ≤ 1200 → IsSipSchedule daily none (whole count)
  each_calendar_day :
      (count : ℕ) → 1 ≤ count → count ≤ 1200 → IsSipSchedule calendar_day_daily none (whole count)

schedule_sound :
    (f : Frequency) (day : Option Number) (count : Number)
    → assert_sip_schedule f day count ≡ ok tt
    → IsSipSchedule f day count
unfolding assert_sip_schedule
schedule_sound monthly (some (whole d)) (whole n) e =
    each_month d n (ground arith) (ground arith) (ground arith) (ground arith)
schedule_sound daily none (whole n) e = each_day n (ground arith) (ground arith)
schedule_sound calendar_day_daily none (whole n) e =
    each_calendar_day n (ground arith) (ground arith)
schedule_sound f day count e = absurd (ground arith)

schedule_complete :
    (f : Frequency) (day : Option Number) (count : Number)
    → IsSipSchedule f day count
    → assert_sip_schedule f day count ≡ ok tt
unfolding assert_sip_schedule
schedule_complete f day count (each_month d n d1 d2 n1 n2) = ground arith
schedule_complete f day count (each_day n n1 n2) = ground arith
schedule_complete f day count (each_calendar_day n n1 n2) = ground arith

-- `assertSipSchedule` accepts exactly the schedules of 1 to 1200 installments that are monthly with
-- an installment day from 1 to 28, or daily without one.
pub assert_sip_schedule_iff :
    (f : Frequency) (day : Option Number) (count : Number)
    → (assert_sip_schedule f day count ≡ ok tt) ↔ IsSipSchedule f day count
assert_sip_schedule_iff f day count = (schedule_sound f day count, schedule_complete f day count)
