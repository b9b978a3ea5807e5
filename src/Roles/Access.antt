-- ===== src/Roles/Access.antt =====
-- The writes of roles give nobody what the caller does not hold, and the caller nothing at all.
use backend_new.Basics.{
  ℕ, ◌≡◌, ◌⊎◌, inl, inr, refl, sym, ap, ◌∙◌, subst, Bool, true, false, ◌&&◌, Option, none, some,
  ◌++◌, ◌==◌, ==_iff, All, Text, text_eq, text_eq_iff, find, find_sound, find-update_where,
  find-update_other, any, any-congr, All-none, All-weaker, All-always, includes, update_where,
  arith, Bool-cases, ok,
}
use backend_new.Roles.Store.{Role, Db, Actor, has_key}
use backend_new.Roles.Admin.{UpdateInput, may_grant, holds, added, removed, rewrite_role}
use backend_new.Roles.Guards.{
  IsEditable, may_grant-held, not_among, includes-grant, includes-append,
}

abbrev pub granted_by : Option Role → ℕ → Bool
granted_by none p = false
granted_by (some r) p = includes r.permissions p

abbrev pub grants : Text → ℕ → Db → Bool
grants key p db = granted_by (find (has_key key) db.roles) p

-- Whether one of the roles of a member of staff grants the permission.
abbrev pub has_access : ℕ → ℕ → Db → Bool
has_access staff p db = any (λ h. (h.staff_id == staff) && grants h.role_key p db) db.holdings

-- Every role that is held exists.
abbrev pub IsKnown : Db → Type 0
IsKnown db = All (λ h. any (has_key h.role_key) db.roles ≡ true) db.holdings

-- The permission is not the caller's to give, or it is the caller who would get it.
abbrev pub IsBeyond : Actor → ℕ → ℕ → Type 0
IsBeyond actor staff p = (includes actor.permissions p ≡ false) ⊎ (staff ≡ actor.staff_id)

pub same_grants :
    (staff p : ℕ) (db db' : Db)
    → db'.holdings ≡ db.holdings
    → All (λ h. h.staff_id ≡ staff → grants h.role_key p db' ≡ grants h.role_key p db) db.holdings
    → has_access staff p db' ≡ has_access staff p db
same_grants staff p db db' same h =
    ap (any (λ h. (h.staff_id == staff) && grants h.role_key p db')) same
    ∙ any-congr (λ h. (h.staff_id == staff) && grants h.role_key p db)
        (λ h. (h.staff_id == staff) && grants h.role_key p db') db.holdings
        (All-weaker (λ x. true)
          (λ h. h.staff_id ≡ staff → grants h.role_key p db' ≡ grants h.role_key p db) _ db.holdings
          (λ x k. each x.staff_id staff _ _ k) h)
  where
    each : (a b : ℕ) (x y : Bool) → (a ≡ b → x ≡ y) → ((a == b) && x) ≡ ((a == b) && y)
    each a b x y k = ground (arith, ==_iff a b)

pub one_key :
    (k key : Text) (r : Role) → has_key k r ≡ true → text_eq k key ≡ false → has_key key r ≡ false
one_key k key r here other = elim (Bool-cases (text_eq r.key key)) [
  | inr no_hit ↦ no_hit
  | inl hit ↦
      let a = (text_eq_iff r.key k).0 here in
      let b = (text_eq_iff r.key key).0 hit in
      let bad = (text_eq_iff k key).1 (sym a ∙ b) in absurd (cc)
]

pub grants_by :
    (k : Text) (p : ℕ) (db db' : Db)
    → find (has_key k) db'.roles ≡ find (has_key k) db.roles
    → grants k p db' ≡ grants k p db
grants_by k p db db' e = ap (λ o. granted_by o p) e

-- A write to one role does not change what another grants.
grants-other :
    (k key : Text) (p : ℕ) (f : Role → Role) (db db' : Db)
    → db'.roles ≡ update_where (has_key key) f db.roles
    → ((r : Role) → (f r).key ≡ r.key)
    → text_eq k key ≡ false
    → grants k p db' ≡ grants k p db
grants-other k key p f db db' wrote same other = grants_by k p db db' (
    ap (find (has_key k)) wrote
    ∙ find-update_other (has_key key) (has_key k) f db.roles (λ r here. one_key k key r here other)
        (λ r. ap (λ x. text_eq x k) (same r)))

-- Who does not hold a role that is not held.
unheld :
    (actor : Actor) (key : Text) (db : Db) (db' : Db) (staff p : ℕ)
    → any (holds actor key) db.holdings ≡ false
    → staff ≡ actor.staff_id
    → ((k : Text) → text_eq k key ≡ false → grants k p db' ≡ grants k p db)
    → All (λ h. h.staff_id ≡ staff → grants h.role_key p db' ≡ grants h.role_key p db) db.holdings
unheld actor key db db' staff p none_held mine k =
    All-weaker (λ x. true) (λ h. holds actor key h ≡ false) _ db.holdings
      (λ h miss own.
        k h.role_key (missed h.staff_id actor.staff_id (text_eq h.role_key key) (own ∙ mine) miss))
      (All-none (holds actor key) db.holdings none_held)
  where
    missed : (a b : ℕ) (c : Bool) → a ≡ b → ((a == b) && c) ≡ false → c ≡ false
    missed a b c e h = ground (arith, ==_iff a b)

module _ (actor : Actor) (key : Text) (input : UpdateInput) (r : Role) (db db' : Db)
    (ed : IsEditable actor key db r) where
  -- What the role itself grants after the write, of what the caller may not give.
  grants-written :
      (p : ℕ)
      → db'.roles ≡ update_where (has_key key) (rewrite_role input r) db.roles
      → may_grant actor key input.permissions r ≡ ok tt
      → includes actor.permissions p ≡ false
      → grants key p db' ≡ grants key p db
  grants-written p wrote may beyond =
      let f = rewrite_role input r in
      let plus = added input.permissions r in
      let minus = removed input.permissions r in
      let out =
        sym (includes-append plus minus p)
        ∙ not_among (includes actor.permissions) (plus ++ minus) p
            (may_grant-held actor key input.permissions r may) beyond in
      let row = ed.row in
      let found = ed.found in
      let there =
        ap (find (has_key key)) wrote
        ∙ find-update_where (has_key key) (has_key key) f db.roles row
            (find_sound (has_key key) db.roles row found) (λ x. refl) found in
      ap (λ o. granted_by o p) there
      ∙ includes-grant plus minus row.permissions p (ground arith) (ground arith)
      ∙ ap (λ o. granted_by o p) (sym found)

  pub updated :
      (staff p : ℕ)
      → db'.roles ≡ update_where (has_key key) (rewrite_role input r) db.roles
      → db'.holdings ≡ db.holdings
      → may_grant actor key input.permissions r ≡ ok tt
      → IsBeyond actor staff p
      → has_access staff p db' ≡ has_access staff p db
  updated staff p wrote same may (inr mine) = same_grants staff p db db' same (
      unheld actor key db db' staff p ed.not_held mine
        (λ k other. grants-other k key p (rewrite_role input r) db db' wrote (λ x. refl) other))
  updated staff p wrote same may (inl beyond) =
      same_grants staff p db db' same
        (All-always (λ x. true) _ db.holdings (λ h own. at_key h.role_key))
    where
      at_key : (k : Text) → grants k p db' ≡ grants k p db
      at_key k = elim (Bool-cases (text_eq k key)) [
        | inr other ↦ grants-other k key p (rewrite_role input r) db db' wrote (λ x. refl) other
        | inl hit ↦
            subst (λ x. grants x p db' ≡ grants x p db) (sym ((text_eq_iff k key).0 hit))
              (grants-written p wrote may beyond)
      ]
