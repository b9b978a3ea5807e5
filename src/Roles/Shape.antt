-- ===== src/Roles/Shape.antt =====
-- What the keys of roles look like.
use backend_new.Basics.{
  ℕ, ◌≤◌, ◌≡◌, refl, Bool, true, false, not, ◌||◌, [], ◌∷◌, ◌==◌, All, Text, length, arith,
  Bool-cases, inl, inr, suc, zero,
}
use backend_new.Roles.Key.{
  is_capital, underscore, squash, trim_start, trim_end, put_before, take, role_key_from,
}

abbrev pub IsLetter : ℕ → Type 0
IsLetter c = (is_capital c || c == underscore) ≡ true

abbrev pub begins_well : Text → Bool
begins_well [] = true
begins_well (c ∷ cs) = not (c == underscore)

abbrev pub ends_well : Text → Bool
ends_well [] = true
ends_well (c ∷ []) = not (c == underscore)
ends_well (c ∷ d ∷ ds) = ends_well (d ∷ ds)

-- Capitals and underscores, no underscore at either end, and at most forty of them.
pub record IsKey (key : Text) : Type 0 where
  pub letters : All IsLetter key
  pub begins : begins_well key ≡ true
  pub ends : ends_well key ≡ true
  pub short : length key ≤ 40

squash-IsLetter : (inside : Bool) (cs : Text) → All IsLetter (squash inside cs)
squash-IsLetter inside [] = tt
squash-IsLetter inside (c ∷ cs) = elim (Bool-cases (is_capital c)) [
  | inl capital ↦ rw capital (rw capital, squash-IsLetter false cs)
  | inr other ↦ elim (Bool-cases inside) [
    | inl run ↦ rw (other, run) (squash-IsLetter true cs)
    | inr first ↦ rw (other, first) (refl, squash-IsLetter true cs)
  ]
]

trim_start-All : (P : ℕ → Type 0) (cs : Text) → All P cs → All P (trim_start cs)
trim_start-All P [] h = tt
trim_start-All P (c ∷ cs) h = elim (Bool-cases (c == underscore)) [
  | inl cut ↦ rw cut (trim_start-All P cs h.1)
  | inr kept ↦ rw kept h
]

trim_end-All : (P : ℕ → Type 0) (cs : Text) → All P cs → All P (trim_end cs)
trim_end-All P [] h = tt
trim_end-All P (c ∷ cs) h = put (trim_end cs) (trim_end-All P cs h.1)
  where
    put : (rest : Text) → All P rest → All P (put_before c rest)
    put [] r = elim (Bool-cases (c == underscore)) [
      | inl cut ↦ rw cut tt
      | inr kept ↦ rw kept (h.0, tt)
    ]
    put (d ∷ ds) r = (h.0, r)

take-All : (P : ℕ → Type 0) (n : ℕ) (cs : Text) → All P cs → All P (take n cs)
take-All P zero cs h = tt
take-All P (suc n) [] h = tt
take-All P (suc n) (c ∷ cs) h = (h.0, take-All P n cs h.1)

trim_start-begins : (cs : Text) → begins_well (trim_start cs) ≡ true
trim_start-begins [] = refl
trim_start-begins (c ∷ cs) = elim (Bool-cases (c == underscore)) [
  | inl cut ↦ rw cut (trim_start-begins cs)
  | inr kept ↦ rw (kept, kept)
]

take-begins : (n : ℕ) (cs : Text) → begins_well cs ≡ true → begins_well (take n cs) ≡ true
take-begins zero cs h = refl
take-begins (suc n) [] h = refl
take-begins (suc n) (c ∷ cs) h = h

trim_end-begins : (cs : Text) → begins_well cs ≡ true → begins_well (trim_end cs) ≡ true
trim_end-begins [] h = refl
trim_end-begins (c ∷ cs) h = put (trim_end cs)
  where
    put : (rest : Text) → begins_well (put_before c rest) ≡ true
    put [] = elim (Bool-cases (c == underscore)) [ inl cut ↦ rw cut | inr kept ↦ rw (kept, kept) ]
    put (d ∷ ds) = h

trim_end-ends : (cs : Text) → ends_well (trim_end cs) ≡ true
trim_end-ends [] = refl
trim_end-ends (c ∷ cs) = put (trim_end cs) (trim_end-ends cs)
  where
    put : (rest : Text) → ends_well rest ≡ true → ends_well (put_before c rest) ≡ true
    put [] r = elim (Bool-cases (c == underscore)) [ inl cut ↦ rw cut | inr kept ↦ rw (kept, kept) ]
    put (d ∷ ds) r = r

length-take : (n : ℕ) (cs : Text) → length (take n cs) ≤ n
length-take zero cs = omega arith
length-take (suc n) [] = omega arith
length-take (suc n) (c ∷ cs) = let rest = length-take n cs in omega arith

length-trim_end : (cs : Text) → length (trim_end cs) ≤ length cs
length-trim_end [] = omega arith
length-trim_end (c ∷ cs) = put (trim_end cs) (length-trim_end cs)
  where
    put : (rest : Text) → length rest ≤ length cs → length (put_before c rest) ≤ suc (length cs)
    put [] r = elim (Bool-cases (c == underscore)) [
      | inl cut ↦ rw cut (omega arith)
      | inr kept ↦ rw kept (omega arith)
    ]
    put (d ∷ ds) r = omega arith

-- Whatever the name, its key is made of capitals and underscores, neither begins nor ends with an
-- underscore, and fits the column of forty characters.
pub role_key_from-IsKey :
    (to_upper : Text → Text) (name : Text) → IsKey (role_key_from to_upper name)
unfolding role_key_from
role_key_from-IsKey to_upper name =
    let start = trim_start (squash false (to_upper name)) in
    let cut = take 40 (trim_end start) in
    record {
      letters = trim_end-All IsLetter cut (
          take-All IsLetter 40 (trim_end start) (
            trim_end-All IsLetter start (
              trim_start-All IsLetter (squash false (to_upper name))
                (squash-IsLetter false (to_upper name)))));
      begins = trim_end-begins cut (
          take-begins 40 (trim_end start)
            (trim_end-begins start (trim_start-begins (squash false (to_upper name)))));
      ends = trim_end-ends cut;
      short = let a = length-trim_end cut in let b = length-take 40 (trim_end start) in omega arith;
    }
