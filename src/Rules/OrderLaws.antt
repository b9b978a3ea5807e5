-- ===== src/Rules/OrderLaws.antt =====
-- What an accepted purchase or switch has passed.
use backend_new.Basics.{
  ◌≡◌, ◌↔◌, refl, ap, ◌∙◌, subst, Bool, true, false, Option, none, some, Text, text_eq, find, ◌==◌,
  Result, ok, err, arith, if◌then◌else◌, bind-eq-ok, throw_if-ok, step-ok, not, throw_if, ◌>>◌,
  ◌>>=◌,
}
use backend_new.Rules.Decimal.{Decimals}
use backend_new.Rules.Amount.{AmountRefusal, check_amount}
use backend_new.Rules.Catalogue.{
  Refusal, Capability, closed_for, other_fund_house, same_scheme, amount_refused, lumpsum,
  additional, not_applicable, to_purchase, to_switch_out, to_switch_in, Scheme, Catalogue, has_isin,
  require_tradable, require_tradable_scheme, load_threshold,
}
use backend_new.Rules.Live.{
  FpReply, LiveScheme, with_flags, apply_live_flags, fetch_live_scheme, assert_live_capability,
}
use backend_new.Rules.Orders.{
  and_then, purchase_rules, amount_given, assert_amount_or_units, assert_switch_pair, limits_of,
  lift_amount, validate_purchase, validate_switch,
}
use backend_new.Rules.Mirror.{
  IsOpen, tradable, assert_live_capability-ok, assert_live_capability-open, apply_live_flags-find,
  apply_live_flags-found,
}

-- FP sells the scheme, the catalogue has it, and the amount passes the row for this folio.
pub record IsPurchasable (dec : Decimals) (fp : Text → FpReply dec) (isin amount : Text)
    (has_folio : Bool) (cat : Catalogue dec) : Type 0 where
  pub live : LiveScheme dec
  pub answered : fetch_live_scheme dec (fp isin) ≡ some live
  pub open_for : IsOpen to_purchase live.flags
  pub scheme : Scheme
  pub known : find (has_isin isin) cat.schemes ≡ some scheme
  pub passes :
      check_amount dec amount (
        limits_of dec (
          load_threshold dec isin
            (if has_folio then additional else lumpsum)
            not_applicable
            (apply_live_flags dec isin live cat)))
      ≡ ok tt

module _ (dec : Decimals) (fp : Text → FpReply dec) where
  pub and_then-ok :
      (m : Catalogue dec × Result Refusal (Unit {0}))
      (next : Catalogue dec → Catalogue dec × Result Refusal (Unit {0}))
      → (and_then dec fp m next).1 ≡ ok tt
      → (m.1 ≡ ok tt) × ((next m.0).1 ≡ ok tt)
  and_then-ok (cat, ok u) next e = (refl, e)
  and_then-ok (cat, err r) next e = absurd (let bad : err r ≡ ok tt = e in cc)

  pub ok-and_then :
      (m : Catalogue dec × Result Refusal (Unit {0}))
      (next : Catalogue dec → Catalogue dec × Result Refusal (Unit {0}))
      → m.1 ≡ ok tt
      → (and_then dec fp m next).1 ≡ (next m.0).1
  ok-and_then (cat, ok u) next e = refl
  ok-and_then (cat, err r) next e = absurd (let bad : err r ≡ ok tt = e in cc)

lift_amount-ok :
    (tag : AmountRefusal → Refusal) (m : Result AmountRefusal (Unit {0}))
    → lift_amount tag m ≡ ok tt
    → m ≡ ok tt
lift_amount-ok tag (ok u) e = refl
lift_amount-ok tag (err r) e = absurd (let bad : err (tag r) ≡ ok tt = e in cc)

open_passes :
    (b : Bool) (m : Result AmountRefusal (Unit {0}))
    → b ≡ true
    → m ≡ ok tt
    → (throw_if (not b) (closed_for to_purchase) >> lift_amount amount_refused m) ≡ ok tt
open_passes b m e f = ground arith

require_tradable-ok :
    (o : Option Scheme) (s : Scheme)
    → require_tradable o ≡ ok s
    → (o ≡ some s) × (s.is_active ≡ true) × (s.merged ≡ false)
unfolding require_tradable
require_tradable-ok o s e = ground arith

module _ (dec : Decimals) (fp : Text → FpReply dec) (isin amount : Text) (has_folio : Bool)
    (cat : Catalogue dec) where
  IsPurchasable-sound :
      (validate_purchase dec fp isin amount has_folio cat).1 ≡ ok tt
      → IsPurchasable dec fp isin amount has_folio cat
  unfolding validate_purchase require_tradable_scheme
  IsPurchasable-sound e =
      let (lives, rules) =
        and_then-ok dec fp (assert_live_capability dec fp isin to_purchase cat)
          (λ cat. (cat, purchase_rules dec fp isin amount has_folio cat)) e in
      let (live, answered, open_for, wrote) =
        assert_live_capability-ok dec fp isin to_purchase cat lives in
      let after = subst (λ c. purchase_rules dec fp isin amount has_folio c ≡ ok tt) wrote rules in
      let (s, is_tradable, rest) =
        bind-eq-ok (require_tradable_scheme dec isin (apply_live_flags dec isin live cat)) _
          after in
      let (found, _, _) =
        require_tradable-ok (find (has_isin isin) (apply_live_flags dec isin live cat).schemes) s
          is_tradable in
      let (old, known, _) = apply_live_flags-find dec fp isin live cat s found in
      let (_, checked) = throw_if-ok (not s.purchase_allowed) (closed_for to_purchase) _ rest in
      record {
        live = live;
        answered = answered;
        open_for = open_for;
        scheme = old;
        known = known;
        passes = lift_amount-ok amount_refused _ checked;
      }

  IsPurchasable-complete :
      IsPurchasable dec fp isin amount has_folio cat
      → (validate_purchase dec fp isin amount has_folio cat).1 ≡ ok tt
  unfolding validate_purchase require_tradable_scheme require_tradable
  IsPurchasable-complete p =
      let ran =
        assert_live_capability-open dec fp isin to_purchase cat p.live p.answered p.open_for in
      ok-and_then dec fp (assert_live_capability dec fp isin to_purchase cat)
        (λ cat. (cat, purchase_rules dec fp isin amount has_folio cat)) (ap (λ m. m.1) ran)
      ∙ ap (λ m. purchase_rules dec fp isin amount has_folio m.0) ran
      ∙ (let found = apply_live_flags-found dec fp isin p.live cat p.scheme p.known in
          let ready =
            ap require_tradable found
            ∙ tradable (with_flags p.live.flags p.scheme) p.open_for.active p.open_for.merged in
          ap
            (λ m. m >>= λ scheme.
              throw_if (not scheme.purchase_allowed) (closed_for to_purchase)
              >> amount_given dec (some amount) (
                  limits_of dec (
                    load_threshold dec isin (if has_folio then additional else lumpsum)
                      not_applicable (apply_live_flags dec isin p.live cat))))
            ready
          ∙ open_passes p.live.flags.purchase_allowed _ p.open_for.allowed p.passes)

module _ (dec : Decimals) (out_isin in_isin : Text) (cat : Catalogue dec) where
  pub record IsSwitchPair : Type 0 where
    pub differ : text_eq out_isin in_isin ≡ false
    pub source : Scheme
    pub target : Scheme
    pub from_source : find (has_isin out_isin) cat.schemes ≡ some source
    pub to_target : find (has_isin in_isin) cat.schemes ≡ some target
    pub both_active : (source.is_active ≡ true) × (target.is_active ≡ true)
    pub none_merged : (source.merged ≡ false) × (target.merged ≡ false)
    pub out_allowed : source.switch_out_allowed ≡ true
    pub in_allowed : target.switch_in_allowed ≡ true
    pub one_house : (source.amc_id == target.amc_id) ≡ true

  pub assert_switch_pair-ok : assert_switch_pair dec out_isin in_isin cat ≡ ok tt → IsSwitchPair
  unfolding assert_switch_pair require_tradable_scheme require_tradable
  assert_switch_pair-ok e =
      let (differ, r1) = throw_if-ok (text_eq out_isin in_isin) same_scheme _ e in
      let (source, t1, r2) = bind-eq-ok (require_tradable_scheme dec out_isin cat) _ r1 in
      let (target, t2, r3) = bind-eq-ok (require_tradable_scheme dec in_isin cat) _ r2 in
      let (out_ok, r4) =
        throw_if-ok (not source.switch_out_allowed) (closed_for to_switch_out) _ r3 in
      let (in_ok, r5) = throw_if-ok (not target.switch_in_allowed) (closed_for to_switch_in) _ r4 in
      let (house, _) = throw_if-ok (not (source.amc_id == target.amc_id)) other_fund_house _ r5 in
      let (f1, a1, m1) = require_tradable-ok (find (has_isin out_isin) cat.schemes) source t1 in
      let (f2, a2, m2) = require_tradable-ok (find (has_isin in_isin) cat.schemes) target t2 in
      record {
        differ = differ;
        source = source;
        target = target;
        from_source = f1;
        to_target = f2;
        both_active = (a1, a2);
        none_merged = (m1, m2);
        out_allowed = ground arith;
        in_allowed = ground arith;
        one_house = ground arith;
      }

-- `validatePurchase` lets a purchase pass exactly when FP answers for the scheme, and its flags,
-- narrowed to the ONDC plan, say active, not merged and open for purchases, the catalogue has the
-- scheme, and the amount passes `checkAmount` on the row, as the live answer left it, of an
-- additional purchase where there is a folio and of a first one where there is none.
pub validate_purchase_iff :
    (dec : Decimals) (fp : Text → FpReply dec) (isin amount : Text) (has_folio : Bool)
    (cat : Catalogue dec)
    → ((validate_purchase dec fp isin amount has_folio cat).1 ≡ ok tt)
      ↔ IsPurchasable dec fp isin amount has_folio cat
validate_purchase_iff dec fp isin amount has_folio cat = (
  IsPurchasable-sound dec fp isin amount has_folio cat,
  IsPurchasable-complete dec fp isin amount has_folio cat,
)

-- Exactly one of the two is given.
pub data IsOneOf : Option Text → Option Text → Type 0 where
  by_amount : (raw : Text) → IsOneOf (some raw) none
  by_units : (raw : Text) → IsOneOf none (some raw)

pub assert_amount_or_units-ok :
    (amount units : Option Text)
    → assert_amount_or_units amount units ≡ ok tt
    → IsOneOf amount units
unfolding assert_amount_or_units
assert_amount_or_units-ok (some a) (some u) e = absurd (cc)
assert_amount_or_units-ok (some a) none e = by_amount a
assert_amount_or_units-ok none (some u) e = by_units u
assert_amount_or_units-ok none none e = absurd (cc)

-- FP answered, and lets the scheme be used for this.
pub record IsLive (dec : Decimals) (fp : Text → FpReply dec) (isin : Text) (capability : Capability)
    : Type 0 where
  pub live : LiveScheme dec
  pub answered : fetch_live_scheme dec (fp isin) ≡ some live
  pub open_for : IsOpen capability live.flags

pub assert_live_capability-IsLive :
    (dec : Decimals) (fp : Text → FpReply dec) (isin : Text) (capability : Capability)
    (cat : Catalogue dec)
    → (assert_live_capability dec fp isin capability cat).1 ≡ ok tt
    → IsLive dec fp isin capability
assert_live_capability-IsLive dec fp isin capability cat e =
    let (live, answered, open_for, _) = assert_live_capability-ok dec fp isin capability cat e in
    record { live = live; answered = answered; open_for = open_for }

-- A switch that `validateSwitch` lets pass is between two different schemes of one fund house, both
-- in the catalogue, active, not merged and open for their side of it, with exactly one of an amount
-- and a number of units, and FP answered for both that they are active, not merged and open.
pub validate_switch-IsSwitchPair :
    (dec : Decimals) (fp : Text → FpReply dec) (out_isin in_isin : Text)
    (amount units : Option Text) (cat : Catalogue dec)
    → (validate_switch dec fp out_isin in_isin amount units cat).1 ≡ ok tt
    → IsSwitchPair dec out_isin in_isin cat
      × IsOneOf amount units
      × IsLive dec fp out_isin to_switch_out
      × IsLive dec fp in_isin to_switch_in
unfolding validate_switch
validate_switch-IsSwitchPair dec fp out_isin in_isin amount units cat e =
    let (r0, e1) =
      and_then-ok dec fp
        (cat, assert_switch_pair dec out_isin in_isin cat >> assert_amount_or_units amount units) _
        e in
    let (paired, given) =
      step-ok (assert_switch_pair dec out_isin in_isin cat) (assert_amount_or_units amount units)
        r0 in
    let (live_out, e2) =
      and_then-ok dec fp (assert_live_capability dec fp out_isin to_switch_out cat) _ e1 in
    let cat' = (assert_live_capability dec fp out_isin to_switch_out cat).0 in
    let (live_in, _) =
      and_then-ok dec fp (assert_live_capability dec fp in_isin to_switch_in cat') _ e2 in
    (
      assert_switch_pair-ok dec out_isin in_isin cat paired,
      assert_amount_or_units-ok amount units given,
      assert_live_capability-IsLive dec fp out_isin to_switch_out cat live_out,
      assert_live_capability-IsLive dec fp in_isin to_switch_in cat' live_in,
    )
