-- ===== src/Roles/Escalation.antt =====
-- The writes of roles as steps, and what no step changes.
use backend_new.Basics.{
  ℕ, ◌≡◌, inl, inr, refl, sym, ◌∙◌, subst, Bool, true, false, not, ◌||◌, ◌∷◌, All, Text, text_eq,
  text_eq_iff, find-keep, any-weaker, any, All-none, All-weaker, All-both, keep, update_where,
  any-update_where, any-keep, All-always, arith, Bool-cases, Result-cases, ok, throw_if-eq_ok,
  step-ok, throw_if,
}
use backend_new.Roles.Key.{role_key_from}
use backend_new.Roles.Store.{
  Role, Db, Actor, has_key, of_role, audit, not_unique, name_taken, in_use,
}
use backend_new.Roles.Admin.{
  CreateInput, UpdateInput, create_role, update_role, delete_role, may_create, may_update,
  may_delete, load_editable, rewrite_role,
}
use backend_new.Roles.Guards.{load_editable-IsEditable, may_update-held}
use backend_new.Roles.Access.{
  has_access, IsKnown, IsBeyond, same_grants, grants_by, one_key, updated,
}

-- The functions of `String`, and the database's comparison of names.
pub record World : Type 0 where
  pub to_upper : Text → Text
  pub to_lower : Text → Text
  pub same_name : Text → Text → Bool

pub data Step (w : World) (actor : Actor) (db : Db) : Db → Type 0 where
  create :
      (input : CreateInput)
      → Step w actor db (create_role w.to_upper w.to_lower w.same_name actor input db).0
  update :
      (key : Text) (input : UpdateInput)
      → Step w actor db (update_role w.to_upper w.to_lower w.same_name actor key input db).0
  delete : (key : Text) → Step w actor db (delete_role actor key db).0

abbrev with_new : Text → CreateInput → Db → Db
with_new key input db = record db {
  roles =
      record {
        key = key;
        name = input.name;
        description = input.description;
        is_system = false;
        permissions = input.permissions;
      }
      ∷ db.roles;
}

abbrev without : Text → Db → Db
without key db = record db { roles = keep (λ r. not (has_key key r)) db.roles }

module _ (w : World) (actor : Actor) where
  -- A key that no role has is not the key of a role that is held.
  created_apart :
      (input : CreateInput) (key : Text) (db : Db)
      → may_create w.to_upper w.to_lower w.same_name actor input key db ≡ ok tt
      → (k : Text) → any (has_key k) db.roles ≡ true
      → text_eq key k ≡ false
  unfolding may_create
  created_apart input key db e k here =
      let (rest, once) = step-ok _ (throw_if _ not_unique) e in
      let (rest', free) = step-ok _ (throw_if _ name_taken) rest in
      let none_so = throw_if-eq_ok _ _ free in
      elim (Bool-cases (text_eq key k)) [
        | inr other ↦ other
        | inl hit ↦
            let same = (text_eq_iff key k).0 hit in
            let there = subst (λ x. any (has_key x) db.roles ≡ true) (sym same) here in
            let bad =
              any-weaker (has_key key) (λ r. has_key key r || w.same_name r.name input.name)
                db.roles (λ r h. rw h) there in
            absurd (cc)
      ]

  create-access :
      (input : CreateInput) (staff p : ℕ) (db : Db)
      → IsKnown db
      → has_access staff p (create_role w.to_upper w.to_lower w.same_name actor input db).0
        ≡ has_access staff p db
  unfolding create_role audit
  create-access input staff p db known =
      elim (Result-cases (
        may_create w.to_upper w.to_lower w.same_name actor input
          (role_key_from w.to_upper input.name) db)) [
            | inl (e, bad) ↦ rw (create_role, bad)
            | inr (done, fine) ↦
                rw (create_role, fine)
                  (same_grants staff p db (with_new (role_key_from w.to_upper input.name) input db)
                    refl
                    (All-weaker (λ x. true) (λ h. any (has_key h.role_key) db.roles ≡ true) _
                      db.holdings
                      (λ h here own.
                        let apart = created_apart input _ db fine h.role_key here in
                        grants_by h.role_key p db
                          (with_new (role_key_from w.to_upper input.name) input db) (rw apart))
                      known))
          ]

  update-access :
      (key : Text) (input : UpdateInput) (staff p : ℕ) (db : Db)
      → IsBeyond actor staff p
      → has_access staff p (update_role w.to_upper w.to_lower w.same_name actor key input db).0
        ≡ has_access staff p db
  unfolding update_role audit
  update-access key input staff p db beyond = elim (Result-cases (load_editable actor key db)) [
    | inl (e, bad) ↦ rw (update_role, bad)
    | inr (r, fine) ↦
        elim (Result-cases (may_update w.to_upper w.to_lower w.same_name actor key input r db)) [
          | inl (e, bad) ↦ rw (update_role, fine, bad)
          | inr (done, may) ↦
              rw (update_role, fine, may)
                (updated actor key input r db
                  (record db { roles = update_where (has_key key) (rewrite_role input r) db.roles })
                  (load_editable-IsEditable actor key db r fine) staff p refl refl
                  (may_update-held w.to_upper w.to_lower w.same_name actor key input r db may)
                  beyond)
        ]
  ]

  unused :
      (key : Text) (r : Role) (db : Db)
      → may_delete key r db ≡ ok tt
      → All (λ h. of_role key h ≡ false) db.holdings
  unfolding may_delete
  unused key r db e =
      let (own, free) = step-ok _ (throw_if (any (of_role key) db.holdings) in_use) e in
      All-none (of_role key) db.holdings (throw_if-eq_ok _ _ free)

  spared :
      (k key : Text) (x : Role)
      → text_eq k key ≡ false
      → has_key k x ≡ true
      → not (has_key key x) ≡ true
  spared k key x other here = let apart = one_key k key x here other in rw apart

  delete-access :
      (key : Text) (staff p : ℕ) (db : Db)
      → has_access staff p (delete_role actor key db).0 ≡ has_access staff p db
  unfolding delete_role audit
  delete-access key staff p db = elim (Result-cases (load_editable actor key db)) [
    | inl (e, bad) ↦ rw (delete_role, bad)
    | inr (r, fine) ↦ elim (Result-cases (may_delete key r db)) [
      | inl (e, bad) ↦ rw (delete_role, fine, bad)
      | inr (done, may) ↦
          rw (delete_role, fine, may)
            (same_grants staff p db (without key db) refl (
              All-weaker (λ x. true) (λ h. of_role key h ≡ false) _ db.holdings
                (λ h other own. grants_by h.role_key p db (without key db) (
                  find-keep (λ x. not (has_key key x)) (has_key h.role_key) db.roles
                    (λ x here. spared h.role_key key x other here)))
                (unused key r db may)))
    ]
  ]

  Step-access :
      (staff p : ℕ) {db db' : Db}
      → Step w actor db db'
      → IsKnown db
      → IsBeyond actor staff p
      → has_access staff p db' ≡ has_access staff p db
  Step-access staff p {db} (create input) known beyond = create-access input staff p db known
  Step-access staff p {db} (update key input) known beyond =
      update-access key input staff p db beyond
  Step-access staff p {db} (delete key) known beyond = delete-access key staff p db

  Step-IsKnown : {db db' : Db} → Step w actor db db' → IsKnown db → IsKnown db'
  unfolding create_role update_role delete_role audit
  Step-IsKnown {db} (create input) known =
      elim (Result-cases (
        may_create w.to_upper w.to_lower w.same_name actor input
          (role_key_from w.to_upper input.name) db)) [
            | inl (e, bad) ↦ rw (create_role, bad) known
            | inr (done, fine) ↦
                rw (create_role, fine)
                  (All-weaker (λ x. true) (λ h. any (has_key h.role_key) db.roles ≡ true) _
                    db.holdings (λ h here. ground (arith, here)) known)
          ]
  Step-IsKnown {db} (update key input) known = elim (Result-cases (load_editable actor key db)) [
    | inl (e, bad) ↦ rw (update_role, bad) known
    | inr (r, fine) ↦
        elim (Result-cases (may_update w.to_upper w.to_lower w.same_name actor key input r db)) [
          | inl (e, bad) ↦ rw (update_role, fine, bad) known
          | inr (done, may) ↦
              rw (update_role, fine, may)
                (All-weaker (λ x. true) (λ h. any (has_key h.role_key) db.roles ≡ true) _
                  db.holdings
                  (λ h here.
                    any-update_where (has_key h.role_key) (has_key key) (rewrite_role input r)
                      db.roles (λ x. refl)
                    ∙ here)
                  known)
        ]
  ]
  Step-IsKnown {db} (delete key) known = elim (Result-cases (load_editable actor key db)) [
    | inl (e, bad) ↦ rw (delete_role, bad) known
    | inr (r, fine) ↦ elim (Result-cases (may_delete key r db)) [
      | inl (e, bad) ↦ rw (delete_role, fine, bad) known
      | inr (done, may) ↦
          rw (delete_role, fine, may)
            (All-both (λ x. true) (λ h. any (has_key h.role_key) db.roles ≡ true)
              (λ h. of_role key h ≡ false) _ db.holdings
              (λ h here other.
                any-keep (λ x. not (has_key key x)) (has_key h.role_key) db.roles
                  (All-always (λ x. true) _ db.roles (λ x mine. spared h.role_key key x other mine))
                  here)
              known (unused key r db may))
    ]
  ]

-- A write of roles leaves the access of a member of staff as it was, to every permission that the
-- caller does not hold; and the caller's own access altogether. The roles that are held exist, before
-- and after it.
pub access_kept :
    (w : World) (actor : Actor) (staff p : ℕ) {db db' : Db}
    → Step w actor db db'
    → IsKnown db
    → IsBeyond actor staff p
    → IsKnown db' × (has_access staff p db' ≡ has_access staff p db)
access_kept w actor staff p step known beyond =
    (Step-IsKnown w actor step known, Step-access w actor staff p step known beyond)
