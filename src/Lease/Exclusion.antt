-- ===== src/Lease/Exclusion.antt =====
-- While an instance holds a lease, no other instance takes it.
use backend_new.Basics.{
  ℕ, ◌+◌, ◌≡◌, ◌≢◌, ◌≤◌, refl, Bool, true, false, Option, none, some, List, [], ◌∷◌, All, any,
  update_where, Text, text_eq, same_option, arith, Bool-cases, inl, inr, subst, count,
  count-update_where, ◌∙◌, some-injective, text_eq_iff, any-eq_false, any-update_where,
  All-update_when,
}
use backend_new.Lease.Checkpoint.{
  Checkpoint, is_named, may_take, taken, ensure, acquire_job_lease, is_held_by, given_back,
  release_job_lease,
}

-- Every row of this name is held by `me` until `end` at least.
abbrev pub IsHeld : Text → ℕ → ℕ → Checkpoint → Type 0
IsHeld name me end c =
    is_named name c ≡ true
    → (c.lease_holder ≡ some me) × ((t : ℕ) × (c.lease_until ≡ some t) × (end ≤ t))

-- What the other instances do while the lease runs.
pub data Others (me end : ℕ) : List Checkpoint → List Checkpoint → Type 0 where
  idle : (rows : List Checkpoint) → Others me end rows rows
  acquire :
      {rows rows' : List Checkpoint} (other now ms : ℕ) (name : Text)
      → other ≢ me
      → now ≤ end
      → Others me end rows rows'
      → Others me end rows (acquire_job_lease other now name ms rows').0
  release :
      {rows rows' : List Checkpoint} (other : ℕ) (name : Text) (completed_at : Option ℕ)
      → other ≢ me
      → Others me end rows rows'
      → Others me end rows (release_job_lease other name completed_at rows')

other_holder :
    (other me : ℕ) (o : Option ℕ) → other ≢ me → o ≡ some me → same_option o (some other) ≡ false
other_holder other me none differ e = refl
other_holder other me (some m) differ e = let is = some-injective m me e in ground arith

-- The lease of this name is held by `me` until `end` at least.
pub record Holds (name : Text) (me end : ℕ) (rows : List Checkpoint) : Type 0 where
  pub there : any (is_named name) rows ≡ true
  pub held : All (IsHeld name me end) rows

module _ (name : Text) (me end : ℕ) where
  -- A row that is held is not to be taken.
  not_taken :
      (other now : ℕ) (name' : Text) (c : Checkpoint)
      → other ≢ me
      → now ≤ end
      → IsHeld name me end c
      → is_named name c ≡ true
      → may_take name' other now c ≡ false
  not_taken other now name' c differ early h named =
      let (holder, (t, until, late)) = h named in
      let apart : same_option c.lease_holder (some other) ≡ false =
        other_holder other me c.lease_holder differ holder in
      ground arith

  ensure-Holds :
      (name' : Text) (rows : List Checkpoint)
      → Holds name me end rows
      → Holds name me end (ensure name' rows)
  unfolding ensure
  ensure-Holds name' rows h = elim (Bool-cases (any (is_named name') rows)) [
    | inl known ↦ rw (known, ensure) h
    | inr new ↦ elim (Bool-cases (text_eq name' name)) [
      | inl same ↦
          let is = (text_eq_iff name' name).0 same in
          let there = h.there in
          absurd (let bad = subst (λ n. any (is_named n) rows ≡ false) is new in cc)
      | inr apart ↦
          let there = h.there in
          let held = h.held in
          rw (new, ensure) (record { there = rw apart there; held = (λ named. absurd (cc), held) })
    ]
  ]

  acquire-Holds :
      (other now ms : ℕ) (name' : Text) (rows : List Checkpoint)
      → other ≢ me
      → now ≤ end
      → Holds name me end rows
      → Holds name me end (acquire_job_lease other now name' ms rows).0
  unfolding acquire_job_lease
  acquire-Holds other now ms name' rows differ early h =
      let e = ensure-Holds name' rows h in
      record {
        there =
            any-update_where (is_named name) (may_take name' other now) (taken other now ms)
              (ensure name' rows) (λ x. refl)
            ∙ e.there;
        held =
            All-update_when (may_take name' other now) (IsHeld name me end) (taken other now ms)
              (ensure name' rows)
              (λ c may k named.
                absurd (let no = not_taken other now name' c differ early k named in cc))
              e.held;
      }

  release-Holds :
      (other : ℕ) (name' : Text) (completed_at : Option ℕ) (rows : List Checkpoint)
      → other ≢ me
      → Holds name me end rows
      → Holds name me end (release_job_lease other name' completed_at rows)
  unfolding release_job_lease
  release-Holds other name' completed_at rows differ h = record {
    there =
        any-update_where (is_named name) (is_held_by name' other) (given_back completed_at) rows
          (same_name completed_at)
        ∙ h.there;
    held =
        All-update_when (is_held_by name' other) (IsHeld name me end) (given_back completed_at) rows
          (λ c mine k named. absurd (
            let apart =
              other_holder other me c.lease_holder differ
                (k (subst (λ b. b ≡ true) (same_name completed_at c) named)).0 in
            ground arith))
          h.held;
  }
    where
      same_name : (o : Option ℕ) (x : Checkpoint) → is_named name (given_back o x) ≡ is_named name x
      same_name none x = refl
      same_name (some t) x = refl

  none_named :
      (rows : List Checkpoint) → count (is_named name) rows ≡ 0 → All (IsHeld name me end) rows
  none_named [] h = tt
  none_named (c ∷ cs) h = elim (Bool-cases (is_named name c)) [
    | inl named ↦ absurd (let bad = rw named at h in omega arith)
    | inr apart ↦ (λ named. absurd (cc), none_named cs (rw apart at h))
  ]

  Others-Holds :
      (rows rows' : List Checkpoint)
      → Others me end rows rows'
      → Holds name me end rows
      → Holds name me end rows'
  Others-Holds rows rows' (idle _) h = h
  Others-Holds rows rows' (acquire {rows' = before} other now ms name' differ early others) h =
      acquire-Holds other now ms name' before differ early (Others-Holds rows before others h)
  Others-Holds rows rows' (release {rows' = before} other name' completed_at differ others) h =
      release-Holds other name' completed_at before differ (Others-Holds rows before others h)

  none_taken :
      (other now : ℕ) (rows : List Checkpoint)
      → other ≢ me
      → now ≤ end
      → All (IsHeld name me end) rows
      → any (may_take name other now) rows ≡ false
  none_taken other now [] differ early h = refl
  none_taken other now (c ∷ cs) differ early h =
      let rest = none_taken other now cs differ early h.1 in
      elim (Bool-cases (is_named name c)) [
        | inl named ↦ let no = not_taken other now name c differ early h.0 named in rw (no, rest)
        | inr apart ↦ rw (apart, rest)
      ]

taken-named :
    (name : Text) (me now : ℕ) (rows : List Checkpoint)
    → any (may_take name me now) rows ≡ true
    → 1 ≤ count (is_named name) rows
taken-named name me now [] h = absurd (cc)
taken-named name me now (c ∷ cs) h = elim (Bool-cases (is_named name c)) [
  | inl named ↦ rw named (omega arith)
  | inr apart ↦ rw apart (taken-named name me now cs (rw apart at h))
]

-- Who takes a lease holds it.
taken-held :
    (name : Text) (me now ms : ℕ) (rows : List Checkpoint)
    → count (is_named name) rows ≤ 1
    → any (may_take name me now) rows ≡ true
    → All (IsHeld name me (now + ms)) (update_where (may_take name me now) (taken me now ms) rows)
taken-held name me now ms [] few h = tt
taken-held name me now ms (c ∷ cs) few h = elim (Bool-cases (is_named name c)) [
  | inl named ↦
      let rest : count (is_named name) cs ≡ 0 = let few' = rw named at few in omega arith in
      let tail =
        none_named name me (now + ms) (update_where (may_take name me now) (taken me now ms) cs) (
          count-update_where (is_named name) (may_take name me now) (taken me now ms) cs (λ x. refl)
          ∙ rest) in
      elim (Bool-cases (may_take name me now c)) [
        | inl may ↦ rw may (λ _. (refl, (now + ms, refl, omega arith)), tail)
        | inr may_not ↦
            absurd (let some_named = taken-named name me now cs (rw may_not at h) in omega arith)
      ]
  | inr apart ↦
      rw apart
        (λ named. absurd (cc), taken-held name me now ms cs (rw apart at few) (rw apart at h))
]

ensure-few :
    (name : Text) (rows : List Checkpoint)
    → count (is_named name) rows ≤ 1
    → count (is_named name) (ensure name rows) ≤ 1
unfolding ensure
ensure-few name rows few = elim (Bool-cases (any (is_named name) rows)) [
  | inl known ↦ rw (known, ensure) few
  | inr new ↦
      let none_yet = any-eq_false (is_named name) rows new in
      let own : text_eq name name ≡ true = (text_eq_iff name name).1 refl in
      rw (new, ensure, own) (omega arith)
]

acquired-Holds :
    (name : Text) (me now ms : ℕ) (rows : List Checkpoint)
    → count (is_named name) rows ≤ 1
    → (acquire_job_lease me now name ms rows).1 ≡ true
    → Holds name me (now + ms) (acquire_job_lease me now name ms rows).0
unfolding acquire_job_lease
acquired-Holds name me now ms rows few h = record {
  there =
      any-update_where (is_named name) (may_take name me now) (taken me now ms) (ensure name rows)
        (λ x. refl)
      ∙ named_of (is_named name) (ensure name rows) (taken-named name me now (ensure name rows) h);
  held = taken-held name me now ms (ensure name rows) (ensure-few name rows few) h;
}
  where
    named_of : (p : Checkpoint → Bool) (cs : List Checkpoint) → 1 ≤ count p cs → any p cs ≡ true
    named_of p [] h = absurd (omega arith)
    named_of p (c ∷ cs) h = ground (arith, named_of p cs)

-- An instance that took a lease keeps it until it runs out: whatever leases other instances take,
-- refresh and give back in the meantime, no other instance is given this one up to that moment. The
-- table has one row for each name.
pub lease_excludes :
    (name : Text) (me at ms : ℕ) (rows rows' : List Checkpoint) (other now ms' : ℕ)
    → count (is_named name) rows ≤ 1
    → (acquire_job_lease me at name ms rows).1 ≡ true
    → Others me (at + ms) (acquire_job_lease me at name ms rows).0 rows'
    → other ≢ me
    → now ≤ at + ms
    → (acquire_job_lease other now name ms' rows').1 ≡ false
unfolding acquire_job_lease
lease_excludes name me at ms rows rows' other now ms' few mine others differ early =
    let h =
      Others-Holds name me (at + ms) (acquire_job_lease me at name ms rows).0 rows' others
        (acquired-Holds name me at ms rows few mine) in
    let e = ensure-Holds name me (at + ms) name rows' h in
    none_taken name me (at + ms) other now (ensure name rows') differ early e.held
