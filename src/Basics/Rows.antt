-- ===== src/Basics/Rows.antt =====
-- Writes to the rows that pass a test, and predicates over what they leave.
use Prim.Native.Nat.{◌≤◌}
use mathlib.Core.Path.{◌≡◌, refl, sym, subst, ap}
use mathlib.Core.Logic.{inl, inr}
use mathlib.Core.Bool.{Bool, true, false, not, ◌&&◌}
use mathlib.Core.Option.{some, some-injective, none-ne-some}
use mathlib.Core.List.{List, [], ◌∷◌}
use native.Mathlib.Omega.{arith}
use backend_new.Basics.Tests.{Bool-cases}
use backend_new.Basics.Lists.{keep, any, find, count, update_where, All}

module _ {ℓ} {A : Type ℓ} (q : A → Bool) where
  pub any-eq_false : (xs : List A) → any q xs ≡ false → count q xs ≡ 0
  any-eq_false [] h = refl
  any-eq_false (x ∷ xs) h = ground (arith, any-eq_false xs)

  -- A write to entries that are not there.
  pub All-update_none :
      (P : A → Type 0) (f : A → A) (xs : List A)
      → count q xs ≡ 0
      → All P xs
      → All P (update_where q f xs)
  All-update_none P f [] absent h = tt
  All-update_none P f (x ∷ xs) absent h = elim (Bool-cases (q x)) [
    | inl hit ↦ absurd (let bad = rw hit at absent in omega arith)
    | inr missed ↦ rw missed (h.0, All-update_none P f xs (rw missed at absent) h.1)
  ]

  pub count_pos :
      (p : A → Bool) (xs : List A) (c : A) → find p xs ≡ some c → q c ≡ true → 1 ≤ count q xs
  count_pos p [] c e h = absurd (none-ne-some c e)
  count_pos p (x ∷ xs) c e h = elim (Bool-cases (p x)) [
    | inl here ↦
        let same = some-injective x c (rw here at e) in
        let hit : q x ≡ true = rw same h in rw hit (omega arith)
    | inr later ↦ ground (arith, count_pos p xs c (rw later at e) h)
  ]

  -- A write to the only entry that passes `q`, which is the one that was found.
  pub All-update_found :
      (P : A → Type 0) (f : A → A) (p : A → Bool) (xs : List A) (c : A)
      → count q xs ≤ 1
      → find p xs ≡ some c
      → q c ≡ true
      → P (f c)
      → All P xs
      → All P (update_where q f xs)
  All-update_found P f p [] c few e hit new h = tt
  All-update_found P f p (x ∷ xs) c few e hit new h = elim (Bool-cases (p x)) [
    | inl here ↦
        let same = some-injective x c (rw here at e) in
        let head_hit : q x ≡ true = rw same hit in
        let rest : count q xs ≡ 0 = let few' = rw head_hit at few in omega arith in
        let written : P (f x) = rw same new in
        rw head_hit (written, All-update_none P f xs rest h.1)
    | inr later ↦
        let found = rw later at e in
        let more = count_pos p xs c found hit in
        elim (Bool-cases (q x)) [
          | inl both ↦ absurd (let few' = rw both at few in omega arith)
          | inr missed ↦
              rw missed (h.0, All-update_found P f p xs c (rw missed at few) found hit new h.1)
        ]
  ]

  -- A write that keeps a predicate where it is made.
  pub All-update_when :
      (P : A → Type 0) (f : A → A) (xs : List A)
      → ((a : A) → q a ≡ true → P a → P (f a))
      → All P xs
      → All P (update_where q f xs)
  All-update_when P f [] k h = tt
  All-update_when P f (x ∷ xs) k h = elim (Bool-cases (q x)) [
    | inl hit ↦ rw hit (k x hit h.0, All-update_when P f xs k h.1)
    | inr missed ↦ rw missed (h.0, All-update_when P f xs k h.1)
  ]

  -- A predicate that a write makes true where it is made, and that holds elsewhere.
  pub All-update_each :
      (Q P : A → Type 0) (f : A → A) (xs : List A)
      → ((a : A) → q a ≡ true → Q a → P (f a))
      → ((a : A) → q a ≡ false → Q a → P a)
      → All Q xs
      → All P (update_where q f xs)
  All-update_each Q P f [] made held h = tt
  All-update_each Q P f (x ∷ xs) made held h = elim (Bool-cases (q x)) [
    | inl hit ↦ rw hit (made x hit h.0, All-update_each Q P f xs made held h.1)
    | inr missed ↦ rw missed (held x missed h.0, All-update_each Q P f xs made held h.1)
  ]

  pub any-weaker :
      (p : A → Bool) (xs : List A)
      → ((a : A) → q a ≡ true → p a ≡ true)
      → any q xs ≡ true
      → any p xs ≡ true
  any-weaker p [] k h = absurd (cc)
  any-weaker p (x ∷ xs) k h = ground (arith, k x, any-weaker p xs k)

  pub All-kept : (P : A → Type 0) (xs : List A) → All P xs → All P (keep q xs)
  All-kept P [] h = tt
  All-kept P (x ∷ xs) h = elim (Bool-cases (q x)) [
    | inl here ↦ rw here (h.0, All-kept P xs h.1)
    | inr other ↦ rw other (All-kept P xs h.1)
  ]

  -- A filter keeps an entry that it keeps wherever it stands.
  pub any-keep :
      (p : A → Bool) (xs : List A)
      → All (λ x. p x ≡ true → q x ≡ true) xs
      → any p xs ≡ true
      → any p (keep q xs) ≡ true
  any-keep p [] k h = absurd (cc)
  any-keep p (x ∷ xs) k h = ground (arith, k.0, any-keep p xs k.1)

  pub All-weaker : (P Q : A → Type 0) (xs : List A) → ((a : A) → P a → Q a) → All P xs → All Q xs
  All-weaker P Q [] k h = tt
  All-weaker P Q (x ∷ xs) k h = (k x h.0, All-weaker P Q xs k h.1)

  pub All-both :
      (P Q R : A → Type 0) (xs : List A)
      → ((a : A) → P a → Q a → R a)
      → All P xs
      → All Q xs
      → All R xs
  All-both P Q R [] k g h = tt
  All-both P Q R (x ∷ xs) k g h = (k x g.0 h.0, All-both P Q R xs k g.1 h.1)

  pub All-always : (P : A → Type 0) (xs : List A) → ((a : A) → P a) → All P xs
  All-always P [] k = tt
  All-always P (x ∷ xs) k = (k x, All-always P xs k)

  pub All-none : (xs : List A) → any q xs ≡ false → All (λ x. q x ≡ false) xs
  All-none [] h = tt
  All-none (x ∷ xs) h = (ground arith, All-none xs (ground arith))

  pub any-congr : (p : A → Bool) (xs : List A) → All (λ x. p x ≡ q x) xs → any p xs ≡ any q xs
  any-congr p [] h = refl
  any-congr p (x ∷ xs) h = ground (arith, h.0, any-congr p xs h.1)

  -- A search for what is not written.
  pub find-update_other :
      (p : A → Bool) (f : A → A) (xs : List A)
      → ((x : A) → p x ≡ true → q x ≡ false)
      → ((x : A) → p (f x) ≡ p x)
      → find p (update_where q f xs) ≡ find p xs
  find-update_other p f [] apart same = refl
  find-update_other p f (x ∷ xs) apart same = elim (Bool-cases (p x)) [
    | inl here ↦ rw (apart x here, here)
    | inr other ↦ elim (Bool-cases (q x)) [
      | inl hit ↦ rw (hit, same x, other, find-update_other p f xs apart same)
      | inr missed ↦ rw (missed, other, find-update_other p f xs apart same)
    ]
  ]

  -- A search for what a filter keeps.
  pub find-keep :
      (p : A → Bool) (xs : List A)
      → ((x : A) → p x ≡ true → q x ≡ true)
      → find p (keep q xs) ≡ find p xs
  find-keep p [] k = refl
  find-keep p (x ∷ xs) k = elim (Bool-cases (p x)) [
    | inl here ↦ rw (k x here, here)
    | inr other ↦ elim (Bool-cases (q x)) [
      | inl kept ↦ rw (kept, other, find-keep p xs k)
      | inr cut ↦ rw (cut, other, find-keep p xs k)
    ]
  ]

  -- Two writes to the same entries are one.
  pub update_where-twice :
      (f g : A → A) (xs : List A)
      → ((x : A) → q (g x) ≡ q x)
      → update_where q f (update_where q g xs) ≡ update_where q (λ x. f (g x)) xs
  update_where-twice f g [] same = refl
  update_where-twice f g (x ∷ xs) same = elim (Bool-cases (q x)) [
    | inl hit ↦ rw (hit, same x, hit) (ap (λ l. f (g x) ∷ l) (update_where-twice f g xs same))
    | inr missed ↦ rw (missed, missed) (ap (λ l. x ∷ l) (update_where-twice f g xs same))
  ]

module _ {ℓ} {A : Type ℓ} (p q : A → Bool) (f : A → A) where
  -- Who passes a test before a write and is not written passes it after.
  pub count_others :
      (xs : List A) → count (λ x. not (q x) && p x) xs ≤ count p (update_where q f xs)
  count_others [] = omega arith
  count_others (x ∷ xs) = ground (arith, count_others xs)

  pub count-update_none :
      (xs : List A) → count q xs ≡ 0 → count p (update_where q f xs) ≡ count p xs
  count-update_none [] absent = refl
  count-update_none (x ∷ xs) absent = ground (arith, count-update_none xs)

  -- A write to the only entry of its key, if it keeps the test where it holds.
  pub count-update_found :
      (xs : List A) (t : A)
      → count q xs ≤ 1
      → find q xs ≡ some t
      → (p t ≡ true → p (f t) ≡ true)
      → count p xs ≤ count p (update_where q f xs)
  count-update_found [] t few e k = omega arith
  count-update_found (x ∷ xs) t few e k = elim (Bool-cases (q x)) [
    | inl here ↦
        let same : x ≡ t = some-injective x t (rw here at e) in
        let rest : count q xs ≡ 0 = let few' = rw here at few in omega arith in
        let k' : p x ≡ true → p (f x) ≡ true =
          subst (λ y. p y ≡ true → p (f y) ≡ true) (sym same) k in
        let tail = count-update_none xs rest in ground arith
    | inr missed ↦
        let tail = count-update_found xs t (rw missed at few) (rw missed at e) k in ground arith
  ]
