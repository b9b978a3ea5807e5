-- ===== src/Rules/Live.antt =====
-- src/services/scheme-availability.service.ts: FP's flags for a scheme, narrowed to the ONDC plan,
-- written back to the catalogue and checked before an order.
use backend_new.Basics.{
  ℕ, Bool, true, false, not, ◌&&◌, Option, none, some, List, [], ◌∷◌, Text, any, keep, update_where,
  Result, ok, err, if◌then◌else◌, throw_if, ◌>>◌,
}
use backend_new.Rules.Decimal.{Decimals}
use backend_new.Rules.Amount.{Limits}
use backend_new.Rules.Catalogue.{
  ThresholdType, sip, swp, stp, Frequency, not_applicable, Capability, to_purchase, to_sip,
  to_redeem, to_switch_out, to_switch_in, Refusal, fp_failed, live_merged, live_inactive,
  live_closed, Scheme, Threshold, Catalogue, has_isin, of_kind, is_threshold,
}

-- The limit types of an ONDC plan, and those that the service names.
pub data BlockType : Type 0 where
  lumpsum_block sip_block swp_block stp_out_block other_block : BlockType

abbrev pub is_lumpsum : BlockType → Bool
is_lumpsum lumpsum_block = true
is_lumpsum _ = false

abbrev pub is_sip : BlockType → Bool
is_sip sip_block = true
is_sip _ = false

-- `PLAN_THRESHOLD_TYPES`
abbrev pub threshold_type : BlockType → Option ThresholdType
threshold_type sip_block = some sip
threshold_type swp_block = some swp
threshold_type stp_out_block = some stp
threshold_type _ = none

-- The types that a plan rewrites.
abbrev pub is_periodic : ThresholdType → Bool
is_periodic sip = true
is_periodic swp = true
is_periodic stp = true
is_periodic _ = false

-- The flags of `fund_schemes` that orders read.
pub record Flags : Type 0 where
  pub active : Bool
  pub merged : Bool
  pub purchase_allowed : Bool
  pub sip_allowed : Bool
  pub redemption_allowed : Bool
  pub switch_out_allowed : Bool
  pub switch_in_allowed : Bool

abbrev pub with_flags : Flags → Scheme → Scheme
with_flags f s = record s {
  is_active = f.active;
  merged = f.merged;
  purchase_allowed = f.purchase_allowed;
  redemption_allowed = f.redemption_allowed;
  switch_in_allowed = f.switch_in_allowed;
  switch_out_allowed = f.switch_out_allowed;
  sip_allowed = f.sip_allowed;
}

abbrev pub flag_of : Capability → Flags → Bool
flag_of to_purchase f = f.purchase_allowed
flag_of to_sip f = f.sip_allowed
flag_of to_redeem f = f.redemption_allowed
flag_of to_switch_out f = f.switch_out_allowed
flag_of to_switch_in f = f.switch_in_allowed

abbrev pub check_flags : Capability → Flags → Result Refusal (Unit {0})
check_flags capability f = do
  throw_if f.merged live_merged
  throw_if (not f.active) live_inactive
  throw_if (not (flag_of capability f)) (live_closed capability)
  ok tt

module _ (dec : Decimals) where
  -- A block of the plan; its frequency is none when the name is unknown.
  pub record Block : Type 0 where
    pub kind : BlockType
    pub frequency : Option Frequency
    pub amount : Limits dec
    pub installments_min : Option ℕ
    pub dates : List ℕ

  -- What FP answers for the plan: the plan, a 4xx, or anything else that fails.
  pub data PlanReply : Type 0 where
    plan : (active : Bool) (thresholds : List Block) → PlanReply
    not_carried outage : PlanReply

  -- What FP answers for a scheme: its flags, none when the call failed, and its plan.
  pub record FpReply : Type 0 where
    pub flags : Option Flags
    pub plan_reply : PlanReply

  pub record LiveScheme : Type 0 where
    pub flags : Flags
    pub plan_thresholds : Option (List Block)

  abbrev pub offers : (BlockType → Bool) → List Block → Bool
  offers test blocks = any (λ b. test b.kind) blocks

  abbrev narrowed : Flags → Bool → Bool → Flags
  narrowed f purchase sip_ok = record f {
    purchase_allowed = f.purchase_allowed && purchase;
    sip_allowed = f.sip_allowed && sip_ok;
  }

  unfoldable pub fetch_live_scheme : FpReply → Option LiveScheme
  fetch_live_scheme reply = elim reply.flags [
    | none ↦ none
    | some f ↦ elim reply.plan_reply [
      | plan active blocks ↦ some (record {
        flags = narrowed f (active && offers is_lumpsum blocks) (active && offers is_sip blocks);
        plan_thresholds = some blocks;
      })
      | not_carried ↦ some (record { flags = narrowed f false false; plan_thresholds = none })
      | outage ↦ none
    ]
  ]

  abbrev no_limits : Limits dec
  no_limits = record { min = none; max = none; multiples = none }

  -- A block becomes at most one row.
  abbrev pub row_of : Text → Block → Option (Threshold dec)
  row_of isin b = elim (threshold_type b.kind) [
    | none ↦ none
    | some kind ↦ elim b.frequency [
      | none ↦ none
      | some not_applicable ↦ none
      | some frequency ↦ some (record {
        isin = isin;
        kind = kind;
        frequency = frequency;
        amount = b.amount;
        units = no_limits;
        installments_min = b.installments_min;
        allowed_dates = b.dates;
      })
    ]
  ]

  unfoldable pub rows_of : Text → List Block → List (Threshold dec)
  rows_of isin [] = []
  rows_of isin (b ∷ bs) = elim (row_of isin b) [
    | none ↦ rows_of isin bs
    | some row ↦ row ∷ rows_of isin bs
  ]

  abbrev pub same_key : Threshold dec → Threshold dec → Bool
  same_key a b = is_threshold dec a.isin a.kind a.frequency b

  -- `upsert`: the limits on units of a row that is there stay.
  unfoldable pub upsert : Threshold dec → List (Threshold dec) → List (Threshold dec)
  upsert row ts =
      if any (same_key row) ts
      then update_where (same_key row) (λ t. record row { units = t.units }) ts
      else row ∷ ts

  unfoldable pub upsert_all : List (Threshold dec) → List (Threshold dec) → List (Threshold dec)
  upsert_all [] ts = ts
  upsert_all (row ∷ rows) ts = upsert_all rows (upsert row ts)

  -- A periodic row of the scheme that the plan does not publish is deleted.
  abbrev pub is_dropped : Text → List (Threshold dec) → Threshold dec → Bool
  is_dropped isin rows t =
      has_same_isin t && (is_periodic t.kind && not (any (λ row. same_key row t) rows))
    where
      has_same_isin : Threshold dec → Bool
      has_same_isin t = of_kind dec isin t.kind t

  unfoldable pub apply_plan_thresholds : Text → List Block → Catalogue dec → Catalogue dec
  apply_plan_thresholds isin blocks cat =
      if any (has_isin isin) cat.schemes
      then record cat {
        thresholds =
            upsert_all (rows_of isin blocks)
              (keep (λ t. not (is_dropped isin (rows_of isin blocks) t)) cat.thresholds);
      }
      else cat

  abbrev pub apply_plan : Text → Option (List Block) → Catalogue dec → Catalogue dec
  apply_plan isin none cat = cat
  apply_plan isin (some blocks) cat = apply_plan_thresholds isin blocks cat

  unfoldable pub apply_live_flags : Text → LiveScheme → Catalogue dec → Catalogue dec
  apply_live_flags isin live cat =
      let planned = apply_plan isin live.plan_thresholds cat in
      record planned {
        schemes = update_where (has_isin isin) (with_flags live.flags) planned.schemes;
      }

  unfoldable pub assert_live_capability :
      (Text → FpReply)
      → Text
      → Capability
      → Catalogue dec
      → Catalogue dec × Result Refusal (Unit {0})
  assert_live_capability fp isin capability cat = elim (fetch_live_scheme (fp isin)) [
    | none ↦ (cat, err fp_failed)
    | some live ↦ (apply_live_flags isin live cat, check_flags capability live.flags)
  ]
