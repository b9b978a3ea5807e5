-- ===== src/Basics/Lists.antt =====
-- Lists measured by native numbers, Boolean searches, and predicates over lists.
use Prim.Native.Nat.{ℕ, suc, ◌+◌}
use mathlib.Core.Path.{◌≡◌, refl, sym, subst, ap}
use mathlib.Core.Logic.{inl, inr}
use mathlib.Core.Bool.{Bool, true, false, not, ◌&&◌, ◌||◌}
use mathlib.Core.Option.{Option, none, some, some-injective, none-ne-some}
use mathlib.Core.List.{List, [], ◌∷◌, ◌++◌}
use native.Mathlib.Omega.{arith}
use backend_new.Basics.Tests.{if◌then◌else◌, ◌==◌, Bool-cases}

module _ {ℓ} {A : Type ℓ} where
  abbrev pub length : List A → ℕ
  length [] = 0
  length (x ∷ xs) = suc (length xs)

  -- `Array.filter` with a Boolean test
  abbrev pub keep : (A → Bool) → List A → List A
  keep p [] = []
  keep p (x ∷ xs) = let rest = keep p xs in if p x then x ∷ rest else rest

  -- `Array.some`
  abbrev pub any : (A → Bool) → List A → Bool
  any p [] = false
  any p (x ∷ xs) = p x || any p xs

  -- `Array.every`
  abbrev pub every : (A → Bool) → List A → Bool
  every p [] = true
  every p (x ∷ xs) = p x && every p xs

  -- `Array.find`
  abbrev pub find : (A → Bool) → List A → Option A
  find p [] = none
  find p (x ∷ xs) = let rest = find p xs in if p x then some x else rest

  -- How many entries pass the test.
  abbrev pub count : (A → Bool) → List A → ℕ
  count p [] = 0
  count p (x ∷ xs) = let rest = count p xs in if p x then suc rest else rest

  -- A write to every entry that passes the test.
  abbrev pub update_where : (A → Bool) → (A → A) → List A → List A
  update_where p f [] = []
  update_where p f (x ∷ xs) = (if p x then f x else x) ∷ update_where p f xs

  abbrev pub All {κ} : (A → Type κ) → List A → Type κ
  All P [] = Unit
  All P (x ∷ xs) = P x × All P xs

-- `Array.includes` on identifiers
abbrev pub includes : List ℕ → ℕ → Bool
includes [] a = false
includes (x ∷ xs) a = x == a || includes xs a

module _ {ℓ} {A : Type ℓ} (p : A → Bool) where
  -- What `find` returns passes the test.
  pub find_sound : (xs : List A) (a : A) → find p xs ≡ some a → p a ≡ true
  find_sound [] a e = ground arith
  find_sound (x ∷ xs) a e = ground (arith, find_sound xs a)

  pub All-find : (P : A → Type 0) (xs : List A) (a : A) → All P xs → find p xs ≡ some a → P a
  All-find P [] a h e = absurd (cc)
  All-find P (x ∷ xs) a h e = elim (Bool-cases (p x)) [
    | inl here ↦ subst P (some-injective x a (rw here at e)) h.0
    | inr later ↦ All-find P xs a h.1 (rw later at e)
  ]

  -- A write to the matching entries keeps a predicate that the write keeps.
  pub All-update_where :
      (P : A → Type 0) (f : A → A) (xs : List A)
      → ((a : A) → P a → P (f a))
      → All P xs
      → All P (update_where p f xs)
  All-update_where P f [] k h = tt
  All-update_where P f (x ∷ xs) k h = elim (Bool-cases (p x)) [
    | inl here ↦ rw here (k x h.0, All-update_where P f xs k h.1)
    | inr later ↦ rw later (h.0, All-update_where P f xs k h.1)
  ]

  -- A search after a write that reaches what it found, and that does not change the test.
  pub find-update_where :
      (q : A → Bool) (f : A → A) (xs : List A) (a : A)
      → q a ≡ true
      → ((x : A) → p (f x) ≡ p x)
      → find p xs ≡ some a
      → find p (update_where q f xs) ≡ some (f a)
  find-update_where q f [] a hit same e = absurd (none-ne-some a e)
  find-update_where q f (x ∷ xs) a hit same e = elim (Bool-cases (p x)) [
    | inl here ↦
        let found = some-injective x a (rw here at e) in
        let reached : q x ≡ true = rw found hit in rw (reached, same x, here, found)
    | inr later ↦
        let rest = find-update_where q f xs a hit same (rw later at e) in
        elim (Bool-cases (q x)) [
          | inl written ↦ rw (written, same x, later) rest
          | inr missed ↦ rw (missed, later) rest
        ]
  ]

  -- What a search finds after a write to what it looks for was found and written.
  pub find_of_update_where :
      (f : A → A) (xs : List A) (b : A)
      → ((x : A) → p (f x) ≡ p x)
      → find p (update_where p f xs) ≡ some b
      → (a : A) × (find p xs ≡ some a) × (b ≡ f a)
  find_of_update_where f [] b same e = absurd (none-ne-some b e)
  find_of_update_where f (x ∷ xs) b same e = elim (Bool-cases (p x)) [
    | inl here ↦ (x, rw here, sym (some-injective (f x) b (rw (here, same x, here) at e)))
    | inr later ↦
        let (a, found, written) = find_of_update_where f xs b same (rw (later, later) at e) in
        (a, rw later found, written)
  ]

  pub find_of_any : (xs : List A) → any p xs ≡ true → (a : A) × (find p xs ≡ some a)
  find_of_any [] h = absurd (cc)
  find_of_any (x ∷ xs) h = elim (Bool-cases (p x)) [
    | inl here ↦ (x, rw here)
    | inr other ↦ let (a, found) = find_of_any xs (rw other at h) in (a, rw other found)
  ]

  pub any_of_find : (xs : List A) (a : A) → find p xs ≡ some a → any p xs ≡ true
  any_of_find [] a h = absurd (cc)
  any_of_find (x ∷ xs) a h = ground (arith, any_of_find xs a)

  pub any-update_where :
      (q : A → Bool) (f : A → A) (xs : List A)
      → ((x : A) → p (f x) ≡ p x)
      → any p (update_where q f xs) ≡ any p xs
  any-update_where q f [] same = refl
  any-update_where q f (x ∷ xs) same = ground (arith, same x, any-update_where q f xs same)

  -- A write that does not change the test does not change the count.
  pub count-update_where :
      (q : A → Bool) (f : A → A) (xs : List A)
      → ((x : A) → p (f x) ≡ p x)
      → count p (update_where q f xs) ≡ count p xs
  count-update_where q f [] same = refl
  count-update_where q f (x ∷ xs) same = ground (arith, same x, count-update_where q f xs same)

  pub All-keep : (xs : List A) → All (λ x. p x ≡ true) (keep p xs)
  All-keep [] = tt
  All-keep (x ∷ xs) = elim (Bool-cases (p x)) [
    | inl here ↦ rw here (here, All-keep xs)
    | inr other ↦ rw other (All-keep xs)
  ]

  pub length-keep : (xs : List A) → length (keep p xs) + count (λ x. not (p x)) xs ≡ length xs
  length-keep [] = omega arith
  length-keep (x ∷ xs) = ground (arith, length-keep xs)

  pub keep-append : (xs : List A) (y : A) → p y ≡ true → keep p (xs ++ y ∷ []) ≡ keep p xs ++ y ∷ []
  keep-append [] y h = rw h
  keep-append (x ∷ xs) y h = elim (Bool-cases (p x)) [
    | inl here ↦ rw here (ap (λ l. x ∷ l) (keep-append xs y h))
    | inr other ↦ rw other (keep-append xs y h)
  ]
