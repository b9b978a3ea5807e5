-- ===== src/Roles/Guards.antt =====
-- What the guards of the writes have checked when a write happens.
use backend_new.Basics.{
  ℕ, ◌≡◌, refl, sym, subst, Bool, true, false, not, ◌&&◌, ◌||◌, Option, none, some, List, [], ◌∷◌,
  ◌++◌, ◌==◌, ==_iff, Text, find, any, keep, includes, arith, Bool-cases, Option-cases, inl, inr,
  ok, throw_if-eq_ok, step-ok, throw_if,
}
use backend_new.Roles.Store.{Role, Db, Actor, has_key, is_permission, self_management, name_taken}
use backend_new.Roles.Admin.{
  UpdateInput, may_update, may_grant, load_editable, editable, holds, added, removed, grant, held,
}

pub record IsEditable (actor : Actor) (key : Text) (db : Db) (r : Role) : Type 0 where
  pub row : Role
  pub found : find (has_key key) db.roles ≡ some row
  pub loaded : r ≡ record row { permissions = keep is_permission row.permissions }
  pub not_held : any (holds actor key) db.holdings ≡ false

editable-not_held :
    (actor : Actor) (key : Text) (r : Role) (db : Db)
    → editable actor key r db ≡ ok tt
    → any (holds actor key) db.holdings ≡ false
unfolding editable
editable-not_held actor key r db e =
    let (a, rest) = step-ok _ (throw_if (any (holds actor key) db.holdings) self_management) e in
    elim (Bool-cases (any (holds actor key) db.holdings)) [
      | inr clear ↦ clear
      | inl mine ↦ absurd (let bad = rw mine at rest in cc)
    ]

pub load_editable-IsEditable :
    (actor : Actor) (key : Text) (db : Db) (r : Role)
    → load_editable actor key db ≡ ok r
    → IsEditable actor key db r
unfolding load_editable
load_editable-IsEditable actor key db r e = elim (Option-cases (find (has_key key) db.roles)) [
  | inl missing ↦ absurd (let bad = rw (missing, load_editable) at e in cc)
  | inr (row, here) ↦
      let (fine, is) = step-ok (editable actor key row db) _ (rw (here, load_editable) at e) in
      record {
        row = row;
        found = here;
        loaded = cc;
        not_held = editable-not_held actor key row db fine;
      }
]

-- Neither what comes nor what goes is beyond the caller.
pub may_grant-held :
    (actor : Actor) (key : Text) (chosen : Option (List ℕ)) (r : Role)
    → may_grant actor key chosen r ≡ ok tt
    → any (λ p. not (includes actor.permissions p)) (added chosen r ++ removed chosen r) ≡ false
unfolding may_grant
may_grant-held actor key none r e = refl
may_grant-held actor key (some chosen) r e =
    let (rest, is_held) =
      step-ok _ (held actor (added (some chosen) r ++ removed (some chosen) r)) e in
    throw_if-eq_ok _ _ is_held

module _ (to_upper to_lower : Text → Text) (same_name : Text → Text → Bool) where
  pub may_update-held :
      (actor : Actor) (key : Text) (input : UpdateInput) (r : Role) (db : Db)
      → may_update to_upper to_lower same_name actor key input r db ≡ ok tt
      → may_grant actor key input.permissions r ≡ ok tt
  unfolding may_update
  may_update-held actor key input r db e =
      let (rest, free) = step-ok _ (throw_if _ name_taken) e in
      let (own, granted) = step-ok _ (may_grant actor key input.permissions r) rest in granted

-- Membership after a filter, and in two lists.
pub includes-keep :
    (q : ℕ → Bool) (xs : List ℕ) (p : ℕ) → includes (keep q xs) p ≡ (includes xs p && q p)
includes-keep q [] p = refl
includes-keep q (x ∷ xs) p = elim (Bool-cases (q x)) [
  | inl kept ↦ elim (Bool-cases (x == p)) [
    | inl same ↦
        let is = subst (λ y. q y ≡ true) ((==_iff x p).0 same) kept in rw (kept, same) (sym is)
    | inr other ↦ rw (kept, other) (includes-keep q xs p)
  ]
  | inr cut ↦ elim (Bool-cases (x == p)) [
    | inl same ↦
        let is = subst (λ y. q y ≡ false) ((==_iff x p).0 same) cut in
        let rest = includes-keep q xs p in rw (cut, same) ground arith
    | inr other ↦ rw (cut, other) (includes-keep q xs p)
  ]
]

pub includes-append :
    (xs ys : List ℕ) (p : ℕ) → includes (xs ++ ys) p ≡ (includes xs p || includes ys p)
includes-append [] ys p = refl
includes-append (x ∷ xs) ys p = ground (arith, includes-append xs ys p)

-- What a test fails on is not in a list that it passes on.
pub not_among :
    (t : ℕ → Bool) (xs : List ℕ) (p : ℕ)
    → any (λ x. not (t x)) xs ≡ false
    → t p ≡ false
    → includes xs p ≡ false
not_among t [] p h no_hit = refl
not_among t (x ∷ xs) p h no_hit = elim (Bool-cases (x == p)) [
  | inl same ↦
      let is = subst (λ y. t y ≡ false) (sym ((==_iff x p).0 same)) no_hit in absurd (ground arith)
  | inr other ↦ rw other (not_among t xs p (ground arith) no_hit)
]

-- Rows that are neither written nor removed stay.
pub includes-grant :
    (plus minus permissions : List ℕ) (p : ℕ)
    → includes plus p ≡ false
    → includes minus p ≡ false
    → includes (grant plus minus permissions) p ≡ includes permissions p
includes-grant plus minus permissions p a b =
    let rest = keep (λ x. not (includes minus x)) permissions in
    let whole = includes-append rest (keep (λ x. not (includes rest x)) plus) p in
    let left = includes-keep (λ x. not (includes minus x)) permissions p in
    let right = includes-keep (λ x. not (includes rest x)) plus p in ground arith
