-- ===== src/Rules/Mirror.antt =====
-- What a live check leaves in the catalogue (src/services/scheme-availability.service.ts).
use backend_new.Basics.{
  ◌≡◌, ◌⊎◌, inl, inr, refl, ap, ◌∙◌, subst, Bool, true, false, some, Text, find, any, ok, err,
  arith, Option-cases, Bool-cases, find-update_where, find_sound, find_of_update_where,
}
use backend_new.Rules.Decimal.{Decimals}
use backend_new.Rules.Catalogue.{
  Capability, to_purchase, to_sip, to_redeem, to_switch_out, to_switch_in, no_scheme, Scheme,
  Catalogue, has_isin, require_tradable, require_tradable_scheme,
}
use backend_new.Rules.Live.{
  FpReply, LiveScheme, Flags, flag_of, check_flags, with_flags, apply_plan, apply_plan_thresholds,
  apply_live_flags, fetch_live_scheme, assert_live_capability,
}

-- The flags let the scheme be used for this.
pub record IsOpen (capability : Capability) (f : Flags) : Type 0 where
  pub active : f.active ≡ true
  pub merged : f.merged ≡ false
  pub allowed : flag_of capability f ≡ true

check_flags-IsOpen :
    (capability : Capability) (f : Flags) → check_flags capability f ≡ ok tt → IsOpen capability f
check_flags-IsOpen capability f e = ground arith

IsOpen-check_flags :
    (capability : Capability) (f : Flags) → IsOpen capability f → check_flags capability f ≡ ok tt
IsOpen-check_flags capability f o =
    let active = o.active in let merged = o.merged in let allowed = o.allowed in ground arith

-- The mirror's own flag for a capability.
abbrev pub mirrored : Capability → Scheme → Bool
mirrored to_purchase s = s.purchase_allowed
mirrored to_sip s = s.sip_allowed
mirrored to_redeem s = s.redemption_allowed
mirrored to_switch_out s = s.switch_out_allowed
mirrored to_switch_in s = s.switch_in_allowed

pub mirrored-with_flags :
    (capability : Capability) (f : Flags) (s : Scheme)
    → mirrored capability (with_flags f s) ≡ flag_of capability f
mirrored-with_flags to_purchase f s = refl
mirrored-with_flags to_sip f s = refl
mirrored-with_flags to_redeem f s = refl
mirrored-with_flags to_switch_out f s = refl
mirrored-with_flags to_switch_in f s = refl

pub tradable :
    (s : Scheme) → s.is_active ≡ true → s.merged ≡ false → require_tradable (some s) ≡ ok s
unfolding require_tradable
tradable s active merged = ground arith

module _ (dec : Decimals) (fp : Text → FpReply dec) where
  -- A live check that succeeds was answered, and wrote what it was told.
  pub assert_live_capability-ok :
      (isin : Text) (capability : Capability) (cat : Catalogue dec)
      → (assert_live_capability dec fp isin capability cat).1 ≡ ok tt
      → (live : LiveScheme dec) × (fetch_live_scheme dec (fp isin) ≡ some live)
        × IsOpen capability live.flags
        × ((assert_live_capability dec fp isin capability cat).0
            ≡ apply_live_flags dec isin live cat)
  unfolding assert_live_capability
  assert_live_capability-ok isin capability cat e =
      elim (Option-cases (fetch_live_scheme dec (fp isin))) [
        | inl missing ↦ absurd (let bad = rw (missing, assert_live_capability) at e in cc)
        | inr (live, here) ↦ (
          live,
          here,
          check_flags-IsOpen capability live.flags (rw (here, assert_live_capability) at e),
          rw (here, assert_live_capability),
        )
      ]

  pub assert_live_capability-open :
      (isin : Text) (capability : Capability) (cat : Catalogue dec) (live : LiveScheme dec)
      → fetch_live_scheme dec (fp isin) ≡ some live
      → IsOpen capability live.flags
      → assert_live_capability dec fp isin capability cat
        ≡ (apply_live_flags dec isin live cat, ok tt)
  unfolding assert_live_capability
  assert_live_capability-open isin capability cat live here open_for =
      rw (assert_live_capability, here)
        (ap (λ r. (apply_live_flags dec isin live cat, r))
          (IsOpen-check_flags capability live.flags open_for))

  pub apply_plan-schemes :
      (isin : Text) (live : LiveScheme dec) (cat : Catalogue dec)
      → (apply_plan dec isin live.plan_thresholds cat).schemes ≡ cat.schemes
  unfolding apply_plan_thresholds
  apply_plan-schemes isin live cat = elim (Option-cases live.plan_thresholds) [
    | inl missing ↦ rw missing
    | inr (blocks, here) ↦ elim (Bool-cases (any (has_isin isin) cat.schemes)) [
      | inl known ↦ rw (here, known)
      | inr unknown ↦ rw (here, unknown)
    ]
  ]

  pub apply_live_flags-find :
      (isin : Text) (live : LiveScheme dec) (cat : Catalogue dec) (s : Scheme)
      → find (has_isin isin) (apply_live_flags dec isin live cat).schemes ≡ some s
      → (old : Scheme) × (find (has_isin isin) cat.schemes ≡ some old)
        × (s ≡ with_flags live.flags old)
  unfolding apply_live_flags
  apply_live_flags-find isin live cat s e =
      find_of_update_where (has_isin isin) (with_flags live.flags) cat.schemes s (λ x. refl)
        (rw (apply_plan-schemes isin live cat) at e)

  pub apply_live_flags-found :
      (isin : Text) (live : LiveScheme dec) (cat : Catalogue dec) (old : Scheme)
      → find (has_isin isin) cat.schemes ≡ some old
      → find (has_isin isin) (apply_live_flags dec isin live cat).schemes
        ≡ some (with_flags live.flags old)
  unfolding apply_live_flags
  apply_live_flags-found isin live cat old known = rw (apply_plan-schemes isin live cat) (
      find-update_where (has_isin isin) (has_isin isin) (with_flags live.flags) cat.schemes old
        (find_sound (has_isin isin) cat.schemes old known) (λ x. refl) known)

  -- The mirror's row of a scheme after a live check that succeeds.
  mirrored_row :
      (isin : Text) (capability : Capability) (cat : Catalogue dec) (s : Scheme)
      → (assert_live_capability dec fp isin capability cat).1 ≡ ok tt
      → find (has_isin isin) (assert_live_capability dec fp isin capability cat).0.schemes ≡ some s
      → (s.is_active ≡ true) × (s.merged ≡ false) × (mirrored capability s ≡ true)
  mirrored_row isin capability cat s e f =
      let (live, answered, open_for, wrote) = assert_live_capability-ok isin capability cat e in
      let (old, found, is) =
        apply_live_flags-find isin live cat s
          (subst (λ c. find (has_isin isin) c.schemes ≡ some s) wrote f) in
      let active = open_for.active in
      let merged = open_for.merged in
      let allowed = open_for.allowed in
      (
        ap (λ x. x.is_active) is ∙ active,
        ap (λ x. x.merged) is ∙ merged,
        ap (mirrored capability) is ∙ mirrored-with_flags capability live.flags old ∙ allowed,
      )

  -- After a live check that succeeds, the mirror's own checks of the scheme can only miss the row.
  pub mirror_agrees :
      (isin : Text) (capability : Capability) (cat : Catalogue dec)
      → (assert_live_capability dec fp isin capability cat).1 ≡ ok tt
      → (require_tradable_scheme dec isin (assert_live_capability dec fp isin capability cat).0
          ≡ err no_scheme)
        ⊎ ((s : Scheme) × (require_tradable_scheme dec isin
                (assert_live_capability dec fp isin capability cat).0
              ≡ ok s)
            × (mirrored capability s ≡ true))
  unfolding require_tradable_scheme require_tradable
  mirror_agrees isin capability cat e =
      elim (Option-cases
        (find (has_isin isin) (assert_live_capability dec fp isin capability cat).0.schemes)) [
          | inl missing ↦ inl (ap require_tradable missing)
          | inr (s, here) ↦
              let (active, merged, allowed) = mirrored_row isin capability cat s e here in
              inr (s, ap require_tradable here ∙ tradable s active merged, allowed)
        ]
