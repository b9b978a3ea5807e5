-- ===== src/Rules/Decimal.antt =====
-- The decimals of the ORM (`Prisma.Decimal`), which are not the program's own: their operations, and
-- what is documented of them for the values that they hold exactly. Their subtraction and remainder
-- round to 20 significant digits, so nothing is said of values that need more.
use backend_new.Basics.{ℕ, ◌-◌, ◌%◌, ◌≤◌, ◌<◌, ◌≡◌, ◌↔◌, Bool, true, false, Option, Text}

pub record Decimals : Type 1 where
  pub D : Type 0
  -- `new Decimal(raw)`, which throws on what is no number
  pub parse : Text → Option D
  pub is_finite : D → Bool
  pub decimal_places : D → ℕ
  pub zero : D
  pub less_than : D → D → Bool
  pub less_than_or_equal : D → D → Bool
  pub minus : D → D → D
  pub modulo : D → D → D
  pub is_zero : D → Bool

-- 10 ^ 20
abbrev pub digits_20 : ℕ
digits_20 = 100000000000000000000

module _ (dec : Decimals) where
  open dec use {
    D, is_finite, decimal_places, zero, less_than, less_than_or_equal, minus, modulo, is_zero,
  }

  -- `is_natural` says that a number is finite, not negative, a multiple of a unit (a power of ten
  -- that divides a hundredth and the values at hand), and below 10 ^ 20 units, so that the numbers,
  -- their differences and their remainders have 20 significant digits at most; `size` counts units.
  pub record Exact : Type 1 where
    pub is_natural : D → Type 0
    pub size : D → ℕ
    pub size_fits : (a : D) → is_natural a → size a < digits_20
    pub zero_natural : is_natural zero
    pub zero_size : size zero ≡ 0
    -- the largest amount of two decimals with at most 20 digits in the unit
    pub largest : D
    pub positive_natural :
        (a : D)
        → is_finite a ≡ true
        → decimal_places a ≤ 2
        → less_than_or_equal a zero ≡ false
        → less_than_or_equal a largest ≡ true
        → is_natural a
    pub less_than_iff :
        (a b : D) → is_natural a → is_natural b → (less_than a b ≡ true) ↔ (size a < size b)
    pub less_than_or_equal_iff :
        (a b : D)
        → is_natural a
        → is_natural b
        → (less_than_or_equal a b ≡ true) ↔ (size a ≤ size b)
    pub minus_natural :
        (a b : D) → is_natural a → is_natural b → size b ≤ size a → is_natural (minus a b)
    pub minus_size :
        (a b : D)
        → is_natural a
        → is_natural b
        → size b ≤ size a
        → size (minus a b) ≡ size a - size b
    pub modulo_natural :
        (a b : D) → is_natural a → is_natural b → 0 < size b → is_natural (modulo a b)
    pub modulo_size :
        (a b : D) → is_natural a → is_natural b → 0 < size b → size (modulo a b) ≡ size a % size b
    pub is_zero_iff : (a : D) → is_natural a → (is_zero a ≡ true) ↔ (size a ≡ 0)
