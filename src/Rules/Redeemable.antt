-- ===== src/Rules/Redeemable.antt =====
-- What a redemption may ask for (`assertRedeemable`).
use backend_new.Basics.{
  ℕ, ◌≡◌, ◌⊎◌, ◌↔◌, refl, sym, subst, inl, inr, false, Option, none, some, Text, find, ok,
  throw_if-ok, step-ok, some-injective, Option-cases,
}
use backend_new.Rules.Decimal.{Decimals}
use backend_new.Rules.Catalogue.{
  Refusal, malformed, nothing_sellable, units_too_many, amount_too_large, Catalogue, Holding,
}
use backend_new.Rules.Orders.{
  check_limit, exceeds, or_else, first_of, is_malformed, is_holding, assert_redeemable, sellable,
}

module _ (dec : Decimals) where
  open dec use {D, parse, zero, less_than, less_than_or_equal}

  -- A figure that is preferred, or the one that stands in for it.
  abbrev IsPreferred : Option D → Option D → D → Type 0
  IsPreferred first second d = (first ≡ some d) ⊎ ((first ≡ none) × (second ≡ some d))

  -- What is asked for, where something is, is a number, and the limit is not below it.
  abbrev IsWithin : D → Option Text → Type 0
  IsWithin limit asked =
      (raw : Text) → asked ≡ some raw → (d : D) × (parse raw ≡ some d) × (less_than limit d ≡ false)

  -- The units that can be redeemed (all units, where that figure is missing) are above zero and not
  -- below the units that are asked for, and the value that can be redeemed (the market value, where
  -- that figure is missing), if there is one, is not below the amount.
  pub record IsSellable (amount units : Option Text) (h : Holding dec) : Type 0 where
    pub some_units :
        (u : D)
        → IsPreferred h.redeemable_units (some h.units) u
        → less_than_or_equal u zero ≡ false
    pub units_fit : (u : D) → IsPreferred h.redeemable_units (some h.units) u → IsWithin u units
    pub amount_fits :
        (m : D) → IsPreferred h.redeemable_market_value h.market_value m → IsWithin m amount

  or_else-IsPreferred : (o : Option D) (e : D) → IsPreferred o (some e) (or_else dec o e)
  or_else-IsPreferred none e = inr (refl, refl)
  or_else-IsPreferred (some d) e = inl refl

  preferred_else : (o : Option D) (e d : D) → IsPreferred o (some e) d → or_else dec o e ≡ d
  preferred_else none e d (inl is) = absurd (cc)
  preferred_else none e d (inr (_, is)) = some-injective e d is
  preferred_else (some x) e d (inl is) = some-injective x d is
  preferred_else (some x) e d (inr (is, _)) = absurd (cc)

  preferred_first : (o o' : Option D) (d : D) → IsPreferred o o' d → first_of dec o o' ≡ some d
  preferred_first none o' d (inl is) = absurd (cc)
  preferred_first none o' d (inr (_, is)) = is
  preferred_first (some x) o' d (inl is) = is
  preferred_first (some x) o' d (inr (is, _)) = absurd (cc)

  first_of-IsPreferred : (o o' : Option D) (d : D) → first_of dec o o' ≡ some d → IsPreferred o o' d
  first_of-IsPreferred none o' d is = inr (refl, is)
  first_of-IsPreferred (some x) o' d is = inl is

  within :
      (limit : D) (asked : Option Text) (e : Refusal)
      → check_limit dec asked (some limit) e ≡ ok tt
      → IsWithin limit asked
  within limit none e h raw is = absurd (cc)
  within limit (some r) e h raw is =
      let (number, rest) = throw_if-ok (is_malformed dec (some r)) malformed _ h in
      let (fits, _) = throw_if-ok (exceeds dec (some r) limit) e _ rest in
      elim (Option-cases (parse r)) [
        | inl no_number ↦ absurd (let bad = rw no_number at number in cc)
        | inr (d, parsed) ↦ (
          d,
          subst (λ x. parse x ≡ some d) (some-injective r raw is) parsed,
          rw (parsed, exceeds) at fits,
        )
      ]

  within_passes :
      (limit : D) (asked : Option Text) (e : Refusal)
      → IsWithin limit asked
      → check_limit dec asked (some limit) e ≡ ok tt
  within_passes limit none e h = refl
  within_passes limit (some r) e h =
      let (d, parsed, fits) = h r refl in
      let number : is_malformed dec (some r) ≡ false = rw parsed in
      let under : exceeds dec (some r) limit ≡ false = rw (parsed, exceeds) fits in
      rw (number, under)

  amount_passes :
      (limit : Option D) (asked : Option Text) (e : Refusal)
      → ((m : D) → limit ≡ some m → IsWithin m asked)
      → check_limit dec asked limit e ≡ ok tt
  amount_passes none asked e h = refl
  amount_passes (some m) asked e h = within_passes m asked e (h m refl)

  module _ (amount units : Option Text) (h : Holding dec) where
    sound : sellable dec (some h) amount units ≡ ok tt → IsSellable amount units h
    unfolding sellable
    sound e =
        let (positive, rest) = throw_if-ok _ nothing_sellable _ e in
        let (units_ok, amount_ok) =
          step-ok
            (check_limit dec units (some (or_else dec h.redeemable_units h.units)) units_too_many) _
            rest in
        record {
          some_units = λ u is.
              subst (λ x. less_than_or_equal x zero ≡ false)
                (preferred_else h.redeemable_units h.units u is) positive;
          units_fit = λ u is.
              subst (λ x. IsWithin x units) (preferred_else h.redeemable_units h.units u is)
                (within (or_else dec h.redeemable_units h.units) units units_too_many units_ok);
          amount_fits = λ m is. within m amount amount_too_large (
              subst (λ o. check_limit dec amount o amount_too_large ≡ ok tt)
                (preferred_first h.redeemable_market_value h.market_value m is) amount_ok);
        }

    complete : IsSellable amount units h → sellable dec (some h) amount units ≡ ok tt
    unfolding sellable
    complete s =
        let is = or_else-IsPreferred h.redeemable_units h.units in
        let positive = s.some_units (or_else dec h.redeemable_units h.units) is in
        let units_ok =
          within_passes (or_else dec h.redeemable_units h.units) units units_too_many
            (s.units_fit (or_else dec h.redeemable_units h.units) is) in
        let amount_ok =
          amount_passes (first_of dec h.redeemable_market_value h.market_value) amount
            amount_too_large
            (λ m e.
              s.amount_fits m
                (first_of-IsPreferred h.redeemable_market_value h.market_value m e)) in
        rw (positive, units_ok, amount_ok)

-- `assertRedeemable` lets a redemption from a holding that is mirrored pass exactly when something can
-- be redeemed there, the units asked for are a number not above the units that can be redeemed (all of
-- them, where that figure is missing), and the amount asked for is a number not above the value that
-- can be redeemed (the market value, where that figure is missing; no limit, where both are).
pub assert_redeemable_iff :
    (dec : Decimals) (account : ℕ) (folio isin : Text) (amount units : Option Text)
    (cat : Catalogue dec) (h : Holding dec)
    → find (is_holding dec account folio isin) cat.holdings ≡ some h
    → (assert_redeemable dec account folio isin amount units cat ≡ ok tt)
      ↔ IsSellable dec amount units h
unfolding assert_redeemable
assert_redeemable_iff dec account folio isin amount units cat h held = (
  λ e. sound dec amount units h (subst (λ o. sellable dec o amount units ≡ ok tt) held e),
  λ s. subst (λ o. sellable dec o amount units ≡ ok tt) (sym held) (complete dec amount units h s),
)
