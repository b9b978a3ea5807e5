-- ===== src/Phone/Canonical.antt =====
-- Every way to write a mobile number comes to one form.
use backend_new.Basics.{
  ℕ, ◌≡◌, ◌↔◌, refl, sym, ap, ◌∙◌, inl, inr, Bool, true, false, not, ◌&&◌, [], ◌∷◌, every, keep,
  length, Text, Result, ok, Bool-cases, arith, ◌==◌, ==_iff,
}
use backend_new.Phone.Number.{
  PhoneRefusal, is_separator, is_digit, strip_plus, all_digits, starts_with_zero, starts_with_code,
  drop, is_national, e164, checked, national_of, normalise_phone,
}

-- What may stand before the ten digits.
pub data Prefix : Type 0 where
  bare trunk country : Prefix

abbrev pub written : Prefix → Text → Text
written bare national = national
written trunk national = 48 ∷ national
written country national = 57 ∷ 49 ∷ national

abbrev pub with_plus : Bool → Text → Text
with_plus true text = 43 ∷ text
with_plus false text = text

-- What is left of the input without its separators.
abbrev pub bare_of : Text → Text
bare_of input = keep (λ c. not (is_separator c)) input

checked-ok : (n p : Text) → checked n ≡ ok p → (is_national n ≡ true) × (p ≡ e164 n)
checked-ok n p e = elim (Bool-cases (is_national n)) [
  | inl good ↦ (good, ok_same p (e164 n) (rw good at e))
  | inr bad ↦ absurd (let no_way = rw bad at e in cc)
]
  where
    ok_same : (p q : Text) → ◌≡◌ {A = Result PhoneRefusal Text} (ok q) (ok p) → p ≡ q
    ok_same p q e = let same : q ≡ p = cc in sym same

national_digits : (n : Text) → is_national n ≡ true → (every is_digit n ≡ true) × (length n ≡ 10)
national_digits [] h = absurd (cc)
national_digits (c ∷ cs) h = (ground arith, ground (arith, ==_iff (length cs) 9))

written_zero : (d : Text) → starts_with_zero d ≡ true → d ≡ 48 ∷ drop 1 d
written_zero [] h = absurd (cc)
written_zero (c ∷ cs) h = ap (λ x. x ∷ cs) ((==_iff c 48).0 h)

written_code : (d : Text) → starts_with_code d ≡ true → d ≡ 57 ∷ 49 ∷ drop 2 d
written_code [] h = absurd (cc)
written_code (c ∷ []) h = absurd (cc)
written_code (c ∷ e ∷ cs) h =
    let (a, b) = both (c == 57) (e == 49) h in
    ap (λ x. x ∷ e ∷ cs) ((==_iff c 57).0 a) ∙ ap (λ x. 57 ∷ x ∷ cs) ((==_iff e 49).0 b)
  where
    both : (a b : Bool) → (a && b) ≡ true → (a ≡ true) × (b ≡ true)
    both a b h = ground arith

-- One of the ways to write a number, without separators.
pub record Writes (text p : Text) : Type 0 where
  pub plus : Bool
  pub prefix : Prefix
  pub national : Text
  pub mobile : is_national national ≡ true
  pub spelled : text ≡ with_plus plus (written prefix national)
  pub canonical : p ≡ e164 national

national_of-written :
    (d p : Text)
    → national_of d ≡ ok p
    → (pre : Prefix) × (n : Text) × (is_national n ≡ true) × (d ≡ written pre n) × (p ≡ e164 n)
unfolding national_of
national_of-written d p e = elim (Bool-cases (all_digits d)) [
  | inr odd ↦ absurd (let bad = rw (odd, national_of) at e in cc)
  | inl fine ↦ elim (Bool-cases (length d == 10)) [
    | inl ten ↦
        let (good, is) = checked-ok d p (rw (fine, national_of, ten) at e) in
        (bare, d, good, refl, is)
    | inr not_ten ↦ elim (Bool-cases ((length d == 11) && starts_with_zero d)) [
      | inl eleven ↦
          let (good, is) = checked-ok (drop 1 d) p (rw (fine, national_of, not_ten, eleven) at e) in
          (trunk, drop 1 d, good, written_zero d (ground arith), is)
      | inr not_eleven ↦ elim (Bool-cases ((length d == 12) && starts_with_code d)) [
        | inl twelve ↦
            let (good, is) =
              checked-ok (drop 2 d) p (rw (fine, national_of, not_ten, not_eleven, twelve) at e) in
            (country, drop 2 d, good, written_code d (ground arith), is)
        | inr none_of ↦
            absurd (let bad = rw (fine, national_of, not_ten, not_eleven, none_of) at e in cc)
      ]
    ]
  ]
]

strip_plus-with_plus : (text : Text) → (plus : Bool) × (text ≡ with_plus plus (strip_plus text))
strip_plus-with_plus [] = (false, refl)
strip_plus-with_plus (c ∷ cs) = elim (Bool-cases (c == 43)) [
  | inl plus ↦ (true, rw plus (ap (λ x. x ∷ cs) ((==_iff c 43).0 plus)))
  | inr none_there ↦ (false, rw none_there)
]

written-national_of :
    (pre : Prefix) (n : Text) → is_national n ≡ true → national_of (written pre n) ≡ ok (e164 n)
unfolding national_of
written-national_of bare [] h = absurd (cc)
written-national_of bare (c ∷ cs) h =
    let (digits, ten) = national_digits (c ∷ cs) h in rw (digits, national_of, ten) (rw h)
written-national_of trunk n h =
    let (digits, ten) = national_digits n h in rw (digits, national_of, ten) (rw h)
written-national_of country n h =
    let (digits, ten) = national_digits n h in rw (digits, national_of, ten) (rw h)

strip_plus-written :
    (plus : Bool) (pre : Prefix) (n : Text)
    → is_national n ≡ true
    → strip_plus (with_plus plus (written pre n)) ≡ written pre n
strip_plus-written true pre n h = refl
strip_plus-written false trunk n h = refl
strip_plus-written false country n h = refl
strip_plus-written false bare [] h = refl
strip_plus-written false bare (c ∷ cs) h = let other : (c == 43) ≡ false = ground arith in rw other

-- `normalisePhone` takes an input exactly when it is, without its separators, a mobile number with or
-- without a plus, and bare, after a zero or after 91; it answers with the one form +91 and the ten
-- digits, whichever way the number was written.
pub normalise_phone_iff :
    (input p : Text) → (normalise_phone input ≡ ok p) ↔ Writes (bare_of input) p
unfolding normalise_phone
normalise_phone_iff input p = (
  λ e.
      let (pre, n, good, is, canonical) = national_of-written (strip_plus (bare_of input)) p e in
      let (plus, spelled) = strip_plus-with_plus (bare_of input) in
      record {
        plus = plus;
        prefix = pre;
        national = n;
        mobile = good;
        spelled = spelled ∙ ap (with_plus plus) is;
        canonical = canonical;
      },
  λ w.
      ap (λ t. national_of (strip_plus t)) w.spelled
      ∙ ap national_of (strip_plus-written w.plus w.prefix w.national w.mobile)
      ∙ written-national_of w.prefix w.national w.mobile
      ∙ ap ok (sym w.canonical),
)

digit_stays : (c : ℕ) → is_digit c ≡ true → not (is_separator c) ≡ true
digit_stays c h = ground arith

digits_stay : (n : Text) → every is_digit n ≡ true → bare_of n ≡ n
digits_stay [] h = refl
digits_stay (c ∷ cs) h =
    let (first, rest) = parts (is_digit c) (every is_digit cs) h in
    let stays = digit_stays c first in rw stays (ap (λ x. c ∷ x) (digits_stay cs rest))
  where
    parts : (a b : Bool) → (a && b) ≡ true → (a ≡ true) × (b ≡ true)
    parts a b h = ground arith

-- The one form is its own form.
pub normalise_phone-twice :
    (input p : Text) → normalise_phone input ≡ ok p → normalise_phone p ≡ ok p
normalise_phone-twice input p e =
    let w = (normalise_phone_iff input p).0 e in
    let n = w.national in
    let same = digits_stay n (national_digits n w.mobile).0 in
    (normalise_phone_iff p p).1 (record {
      plus = true;
      prefix = country;
      national = n;
      mobile = w.mobile;
      spelled = ap bare_of w.canonical ∙ ap (λ x. 43 ∷ 57 ∷ 49 ∷ x) same;
      canonical = w.canonical;
    })
