-- ===== src/Rules/AmountSpec.antt =====
-- What `checkAmount` accepts: the amounts of an arithmetic progression that starts at the minimum.
use backend_new.Basics.{
  ℕ, ◌+◌, ◌*◌, ◌-◌, ◌/◌, ◌%◌, ◌≤◌, ◌<◌, ◌≡◌, ◌↔◌, ◌≢◌, refl, true, false, Option, none, some, arith,
  Text, ok, inl, inr, Bool-cases, Option-cases,
}
use native.Mathlib.Nat.{div-add-mod, mul-mod_left}
use backend_new.Rules.Decimal.{Decimals, Exact}
use backend_new.Rules.Amount.{Limits, check_amount, base_of, below, above, off_grid}

module _ (dec : Decimals) (x : Exact dec) where
  open dec use {
    D, parse, is_finite, decimal_places, zero, less_than, less_than_or_equal, minus, modulo,
    is_zero,
  }
  open x use {
    is_natural, size, zero_natural, zero_size, largest, positive_natural, less_than_iff,
    less_than_or_equal_iff, minus_natural, minus_size, modulo_natural, modulo_size, is_zero_iff,
  }

  abbrev pub NaturalOr : Option D → Type 0
  NaturalOr none = Unit
  NaturalOr (some m) = is_natural m

  -- No limit of the row is negative, and each is held exactly.
  pub record IsSane (r : Limits dec) : Type 0 where
    pub min : NaturalOr r.min
    pub max : NaturalOr r.max
    pub multiples : NaturalOr r.multiples

  abbrev pub AtLeast : ℕ → Option D → Type 0
  AtLeast n none = Unit
  AtLeast n (some m) = size m ≤ n

  abbrev pub AtMost : ℕ → Option D → Type 0
  AtMost n none = Unit
  AtMost n (some m) = n ≤ size m

  -- A whole number of steps above the base.
  abbrev pub OnGrid : ℕ → ℕ → Option D → Type 0
  OnGrid n base none = Unit
  OnGrid n base (some step) = 0 < size step → (k : ℕ) × (n ≡ base + k * size step)

  pub record Fits (raw : Text) (r : Limits dec) : Type 0 where
    pub amount : D
    pub parsed : parse raw ≡ some amount
    pub finite : is_finite amount ≡ true
    pub natural : is_natural amount
    pub places : decimal_places amount ≤ 2
    pub positive : 0 < size amount
    pub at_least : AtLeast (size amount) r.min
    pub at_most : AtMost (size amount) r.max
    pub on_grid : OnGrid (size amount) (size (base_of dec r.min)) r.multiples

  positive_iff : (a : D) → is_natural a → (less_than_or_equal a zero ≡ false) ↔ (0 < size a)
  positive_iff a n = ground (arith, less_than_or_equal_iff a zero n zero_natural, zero_size)

  -- The remainder of the offset is zero exactly on the grid.
  grid_iff :
      (a base step : D)
      → is_natural a
      → is_natural base
      → is_natural step
      → size base ≤ size a
      → 0 < size step
      → (is_zero (modulo (minus a base) step) ≡ true) ↔ ((size a - size base) % size step ≡ 0)
  grid_iff a base step na nb ns le pos = ground (
    arith,
    is_zero_iff (modulo (minus a base) step)
        (modulo_natural (minus a base) step (minus_natural a base na nb le) ns pos),
    modulo_size (minus a base) step (minus_natural a base na nb le) ns pos,
    minus_size a base na nb le,
  )

  steps_of_mod : (n b s : ℕ) → b ≤ n → 0 < s → (n - b) % s ≡ 0 → n ≡ b + (n - b) / s * s
  steps_of_mod n b s le pos e = grind (arith, div-add-mod (n - b) s)

  mod_of_steps : (n b s k : ℕ) → 0 < s → n ≡ b + k * s → (n - b) % s ≡ 0
  mod_of_steps n b s k pos e =
      let offset : n - b ≡ k * s = omega arith in rw (offset, mul-mod_left k s)

  -- What is typed in, where it is a finite number, is not above the largest exact amount.
  abbrev pub IsInRange : Text → Type 0
  IsInRange raw =
      (a : D) → parse raw ≡ some a → is_finite a ≡ true → less_than_or_equal a largest ≡ true

  module _ (raw : Text) (r : Limits dec) (sane : IsSane r) where
    base_natural : is_natural (base_of dec r.min)
    base_natural = natural_base r.min sane.min
      where
        natural_base : (m : Option D) → NaturalOr m → is_natural (base_of dec m)
        natural_base none n = zero_natural
        natural_base (some m) n = n

    below_iff :
        (a : D)
        → is_natural a
        → (m : Option D) → NaturalOr m
        → (below dec a m ≡ false) ↔ AtLeast (size a) m
    below_iff a n none _ = (λ _. tt, λ _. refl)
    below_iff a n (some m) nm = ground (arith, less_than_iff a m n nm)

    above_iff :
        (a : D)
        → is_natural a
        → (m : Option D) → NaturalOr m
        → (above dec a m ≡ false) ↔ AtMost (size a) m
    above_iff a n none _ = (λ _. tt, λ _. refl)
    above_iff a n (some m) nm = ground (arith, less_than_iff m a nm n)

    base_le : (a : D) (m : Option D) → AtLeast (size a) m → size (base_of dec m) ≤ size a
    base_le a none _ = omega (arith, zero_size)
    base_le a (some m) h = h

    grid_sound :
        (a : D)
        → is_natural a
        → size (base_of dec r.min) ≤ size a
        → (m : Option D) → NaturalOr m
        → off_grid dec a (record r { multiples = m }) ≡ false
        → OnGrid (size a) (size (base_of dec r.min)) m
    grid_sound a n le none _ h = tt
    grid_sound a n le (some step) ns h = λ pos. (
      (size a - size (base_of dec r.min)) / size step,
      steps_of_mod (size a) (size (base_of dec r.min)) (size step) le pos (
          ground (
            arith,
            grid_iff a (base_of dec r.min) step n base_natural ns le pos,
            less_than_iff zero step zero_natural ns,
            zero_size,
          )),
    )

    grid_complete :
        (a : D)
        → is_natural a
        → size (base_of dec r.min) ≤ size a
        → (m : Option D) → NaturalOr m
        → OnGrid (size a) (size (base_of dec r.min)) m
        → off_grid dec a (record r { multiples = m }) ≡ false
    grid_complete a n le none _ g = refl
    grid_complete a n le (some step) ns g = elim (Bool-cases (less_than zero step)) [
      | inl steps ↦
          let pos : 0 < size step =
            omega (arith, (less_than_iff zero step zero_natural ns).0 steps, zero_size) in
          let (k, e) = g pos in
          let rest = mod_of_steps (size a) (size (base_of dec r.min)) (size step) k pos e in
          ground (arith, grid_iff a (base_of dec r.min) step n base_natural ns le pos)
      | inr free ↦ rw free
    ]

    -- The checks on a parsed amount, from above zero on.
    sound_of :
        (a : D)
        → parse raw ≡ some a
        → check_amount dec raw r ≡ ok tt
        → (is_finite a ≡ true)
          × (decimal_places a ≤ 2)
          × (less_than_or_equal a zero ≡ false)
          × (below dec a r.min ≡ false)
          × (above dec a r.max ≡ false)
          × (off_grid dec a r ≡ false)
    unfolding check_amount
    sound_of a p e = ground arith

    check_amount-none : parse raw ≡ none → check_amount dec raw r ≢ ok tt
    unfolding check_amount
    check_amount-none missing e = ground arith

    sound : IsInRange raw → check_amount dec raw r ≡ ok tt → Fits raw r
    sound in_range e = elim (Option-cases (parse raw)) [
      | inl missing ↦ absurd (check_amount-none missing e)
      | inr (a, p) ↦
          let (fin, places, pos, low, high, step) = sound_of a p e in
          let n = positive_natural a fin places pos (in_range a p fin) in
          let least = (below_iff a n r.min sane.min).0 low in
          record {
            amount = a;
            parsed = p;
            finite = fin;
            natural = n;
            places = places;
            positive = (positive_iff a n).0 pos;
            at_least = least;
            at_most = (above_iff a n r.max sane.max).0 high;
            on_grid = grid_sound a n (base_le a r.min least) r.multiples sane.multiples step;
          }
    ]

    complete : Fits raw r → check_amount dec raw r ≡ ok tt
    unfolding check_amount
    complete f =
        let parsed = f.parsed in
        let finite = f.finite in
        let places = f.places in
        let pos = (positive_iff f.amount f.natural).1 f.positive in
        let low = (below_iff f.amount f.natural r.min sane.min).1 f.at_least in
        let high = (above_iff f.amount f.natural r.max sane.max).1 f.at_most in
        let step =
          grid_complete f.amount f.natural (base_le f.amount r.min f.at_least) r.multiples
            sane.multiples f.on_grid in
        ground arith

-- For an amount that is not above the largest one that the decimals hold exactly in 20 digits, and a row
-- whose limits are not negative and fit in these digits, `checkAmount` lets it pass exactly when it is a
-- finite number with at most two decimals, above zero, within the limits the row has, and, where the
-- row has a step above zero, a whole number of steps above the row's minimum (above zero when there is
-- none).
pub check_amount_iff :
    (dec : Decimals) (x : Exact dec) (raw : Text) (r : Limits dec)
    → IsSane dec x r
    → IsInRange dec x raw
    → (check_amount dec raw r ≡ ok tt) ↔ Fits dec x raw r
check_amount_iff dec x raw r sane in_range =
    (sound dec x raw r sane in_range, complete dec x raw r sane)
