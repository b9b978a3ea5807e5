-- ===== src/SignIn/Codes.antt =====
-- Which codes `verifyTotp` takes (src/utils/totp.ts).
use backend_new.Basics.{
  ℕ, ◌+◌, ◌-◌, ◌≡◌, ◌≤◌, ◌<◌, ◌↔◌, refl, Bool, true, false, not, ◌&&◌, Option, none, some, List, [],
  ◌∷◌, Text, text_eq, text_eq_iff, arith, some-injective, Bool-cases, inl, inr, subst, sym, ap,
  ◌==◌, if◌then◌else◌,
}
use backend_new.SignIn.Totp.{totp_at, first_match, verify_totp, is_code, is_used, time_step}

-- The first of the three steps around `now` that passes a test.
record IsFirst (p : ℕ → Bool) (now step : ℕ) : Type 0 where
  passes : p step ≡ true
  low : now - 1 ≤ step
  high : step ≤ now + 1
  earliest : (t : ℕ) → now - 1 ≤ t → t < step → p t ≡ false

abbrev pick : (ℕ → Bool) → ℕ → Option ℕ
pick p now =
    if p (now - 1)
    then some (now - 1)
    else if p now
    then some now
    else if p (now + 1)
    then some (now + 1)
    else none

between :
    (p : ℕ → Bool) (now t : ℕ)
    → p (now - 1) ≡ false
    → p now ≡ false
    → now - 1 ≤ t
    → t < now + 1
    → p t ≡ false
between p now t na nb low high = elim (Bool-cases (t == now)) [
  | inl same ↦ let is : now ≡ t = ground arith in subst (λ k. p k ≡ false) is nb
  | inr apart ↦ let is : now - 1 ≡ t = ground arith in subst (λ k. p k ≡ false) is na
]

pick_sound : (p : ℕ → Bool) (now step : ℕ) → pick p now ≡ some step → IsFirst p now step
pick_sound p now step e = elim (Bool-cases (p (now - 1))) [
  | inl a ↦
      let is : now - 1 ≡ step = some-injective _ _ (rw a at e) in
      record {
        passes = subst (λ k. p k ≡ true) is a;
        low = omega arith;
        high = omega arith;
        earliest = λ t low early. absurd (omega arith);
      }
  | inr na ↦ elim (Bool-cases (p now)) [
    | inl b ↦
        let is : now ≡ step = some-injective _ _ (rw (na, b) at e) in
        record {
          passes = subst (λ k. p k ≡ true) is b;
          low = omega arith;
          high = omega arith;
          earliest = λ t low early.
              let same : now - 1 ≡ t = omega arith in subst (λ k. p k ≡ false) same na;
        }
    | inr nb ↦ elim (Bool-cases (p (now + 1))) [
      | inl c ↦
          let is : now + 1 ≡ step = some-injective _ _ (rw (na, nb, c) at e) in
          record {
            passes = subst (λ k. p k ≡ true) is c;
            low = omega arith;
            high = omega arith;
            earliest = λ t low early. between p now t na nb low (omega arith);
          }
      | inr nc ↦ absurd (let bad = rw (na, nb, nc) at e in cc)
    ]
  ]
]

pick_complete : (p : ℕ → Bool) (now step : ℕ) → IsFirst p now step → pick p now ≡ some step
pick_complete p now step f =
    let low = f.low in
    let high = f.high in
    elim (Bool-cases (step == now - 1)) [
      | inl first ↦
          let is : step ≡ now - 1 = ground arith in
          let a : p (now - 1) ≡ true = subst (λ k. p k ≡ true) is f.passes in
          rw a (ap some (sym is))
      | inr later ↦
          let na = f.earliest (now - 1) (omega arith) (ground arith) in
          elim (Bool-cases (step == now)) [
            | inl second ↦
                let is : step ≡ now = ground arith in
                let b : p now ≡ true = subst (λ k. p k ≡ true) is f.passes in
                rw (na, b) (ap some (sym is))
            | inr last ↦
                let is : step ≡ now + 1 = ground arith in
                let nb = f.earliest now (omega arith) (omega arith) in
                let c : p (now + 1) ≡ true = subst (λ k. p k ≡ true) is f.passes in
                rw (na, nb, c) (ap some (sym is))
          ]
    ]

well_shaped :
    (b : Bool) (o : Option ℕ) (step : ℕ)
    → (if b then o else none) ≡ some step
    → (b ≡ true) × (o ≡ some step)
well_shaped b o step e = ground arith

both : (a b : Bool) → (not a && b) ≡ true → (a ≡ false) × (b ≡ true)
both a b e = ground arith

not_used :
    (last : Option ℕ) (step used : ℕ) → is_used last step ≡ false → last ≡ some used → used < step
not_used none step used fresh is = absurd (cc)
not_used (some l) step used fresh is = let same = some-injective l used is in ground arith

all_before :
    (last : Option ℕ) (step : ℕ)
    → ((used : ℕ) → last ≡ some used → used < step)
    → is_used last step ≡ false
all_before none step before = refl
all_before (some l) step before = let early = before l refl in ground arith

module _ (hmac : List ℕ → ℕ → List ℕ) (secret : List ℕ) (code : Text) (at : ℕ)
    (last : Option ℕ) where
  -- Later than the last step that was used, and the code of that step.
  abbrev pub fits : ℕ → Bool
  fits step = not (is_used last step) && text_eq (totp_at hmac secret step) code

  pub record IsTaken (step : ℕ) : Type 0 where
    pub well_formed : is_code code ≡ true
    pub low : time_step at - 1 ≤ step
    pub high : step ≤ time_step at + 1
    pub unused : (used : ℕ) → last ≡ some used → used < step
    pub right : totp_at hmac secret step ≡ code
    pub earliest : (t : ℕ) → time_step at - 1 ≤ t → t < step → fits t ≡ false

  candidates :
      (now step : ℕ)
      → (first_match hmac secret code last ((now - 1) ∷ now ∷ (now + 1) ∷ []) ≡ some step)
        ↔ IsFirst fits now step
  unfolding first_match
  candidates now step = (pick_sound fits now step, pick_complete fits now step)

  sound : (step : ℕ) → verify_totp hmac secret code at last ≡ some step → IsTaken step
  unfolding verify_totp
  sound step e =
      let (shape, e') = well_shaped (is_code code) _ step e in
      let first = (candidates (time_step at) step).0 e' in
      let passes = first.passes in
      let (unused, right) = both (is_used last step) _ passes in
      record {
        well_formed = shape;
        low = first.low;
        high = first.high;
        unused = λ used is. not_used last step used unused is;
        right = (text_eq_iff (totp_at hmac secret step) code).0 right;
        earliest = first.earliest;
      }

  complete : (step : ℕ) → IsTaken step → verify_totp hmac secret code at last ≡ some step
  unfolding verify_totp
  complete step t =
      let shape = t.well_formed in
      let unused = all_before last step t.unused in
      let right = (text_eq_iff (totp_at hmac secret step) code).1 t.right in
      let passes : fits step ≡ true = rw (unused, right) in
      rw (shape, verify_totp)
        ((candidates (time_step at) step).1
          (record { passes = passes; low = t.low; high = t.high; earliest = t.earliest }))

-- `verifyTotp` answers with a step exactly when the code has six digits, the step is one of the three
-- around the clock, later than the last one used and its code is the given one, and no earlier of the
-- three would do. So no step is ever answered that is not later than the last one used.
pub verify_totp_iff :
    (hmac : List ℕ → ℕ → List ℕ) (secret : List ℕ) (code : Text) (at : ℕ) (last : Option ℕ)
    (step : ℕ)
    → (verify_totp hmac secret code at last ≡ some step) ↔ IsTaken hmac secret code at last step
verify_totp_iff hmac secret code at last step =
    (sound hmac secret code at last step, complete hmac secret code at last step)
