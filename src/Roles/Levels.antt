-- ===== src/Roles/Levels.antt =====
-- Managing staff and managing roles stay with the roles of a level.
use backend_new.Basics.{
  ℕ, ◌≡◌, refl, subst, Bool, true, false, not, ◌||◌, Option, none, some, List, [], ◌∷◌, ◌++◌, All,
  Text, text_eq, text_eq_iff, any, keep, includes, All-update_when, All-kept, arith, if◌then◌else◌,
  inl, inr, Result-cases, ok, throw_if-eq_ok, step-ok, throw_if,
}
use backend_new.Roles.Key.{role_key_from}
use backend_new.Roles.Store.{
  Role, Db, Actor, has_key, audit, is_level, not_unique, name_taken, admin_role, sub_admin_role,
  role_manager_role,
}
use backend_new.Roles.Admin.{
  CreateInput, UpdateInput, create_role, update_role, delete_role, may_create, may_update,
  may_grant, may_delete, load_editable, rewrite_role, added, removed, grant, held, operator_access,
}
use backend_new.Roles.Guards.{may_update-held}
use backend_new.Roles.Escalation.{World, Step, create, update, delete}

abbrev pub is_level_role : Text → Bool
is_level_role key =
    text_eq key admin_role || (text_eq key sub_admin_role || text_eq key role_manager_role)

-- Only a role of a level grants the management of staff or roles.
abbrev pub IsModest : Role → Type 0
IsModest r = is_level_role r.key ≡ false → any is_level r.permissions ≡ false

any-append :
    (p : ℕ → Bool) (xs ys : List ℕ) → any p xs ≡ false → any p ys ≡ false → any p (xs ++ ys) ≡ false
any-append p [] ys a b = b
any-append p (x ∷ xs) ys a b = ground (arith, any-append p xs ys)

unkept : (p q : ℕ → Bool) (xs : List ℕ) → any p xs ≡ false → any p (keep q xs) ≡ false
unkept p q [] a = refl
unkept p q (x ∷ xs) a = ground (arith, unkept p q xs)

grant-modest :
    (plus minus permissions : List ℕ)
    → any is_level plus ≡ false
    → any is_level permissions ≡ false
    → any is_level (grant plus minus permissions) ≡ false
grant-modest plus minus permissions a b =
    let rest = keep (λ p. not (includes minus p)) permissions in
    any-append is_level rest (keep (λ p. not (includes rest p)) plus)
      (unkept is_level (λ p. not (includes minus p)) permissions b)
      (unkept is_level (λ p. not (includes rest p)) plus a)

added-modest :
    (actor : Actor) (key : Text) (chosen : Option (List ℕ)) (r : Role)
    → may_grant actor key chosen r ≡ ok tt
    → text_eq key sub_admin_role ≡ false
    → any is_level (added chosen r) ≡ false
unfolding may_grant
added-modest actor key none r e other = refl
added-modest actor key (some chosen) r e other =
    let (rest, mine) =
      step-ok _ (held actor (added (some chosen) r ++ removed (some chosen) r)) e in
    let (filled, plain) =
      step-ok _ (if text_eq key sub_admin_role then _ else operator_access (added (some chosen) r))
        rest in
    throw_if-eq_ok _ _ (rw other at plain)

created-modest :
    (w : World) (actor : Actor) (input : CreateInput) (key : Text) (db : Db)
    → may_create w.to_upper w.to_lower w.same_name actor input key db ≡ ok tt
    → any is_level input.permissions ≡ false
unfolding may_create
created-modest w actor input key db e =
    let (a, once) = step-ok _ (throw_if _ not_unique) e in
    let (b, free) = step-ok _ (throw_if _ name_taken) a in
    let (c, mine) = step-ok _ (held actor input.permissions) b in
    let (d, plain) = step-ok _ (operator_access input.permissions) c in throw_if-eq_ok _ _ plain

written-IsModest :
    (actor : Actor) (key : Text) (input : UpdateInput) (loaded row : Role)
    → may_grant actor key input.permissions loaded ≡ ok tt
    → has_key key row ≡ true
    → IsModest row
    → IsModest (rewrite_role input loaded row)
written-IsModest actor key input loaded row may here modest plain_role =
    let is = (text_eq_iff row.key key).0 here in
    let plain = subst (λ k. is_level_role k ≡ false) is plain_role in
    grant-modest (added input.permissions loaded) (removed input.permissions loaded) row.permissions
      (added-modest actor key input.permissions loaded may (ground arith)) (modest plain_role)

-- Whatever is done to the roles, only the roles of a level grant the management of staff or of roles.
pub levels_are_reserved :
    (w : World) (actor : Actor) {db db' : Db}
    → Step w actor db db'
    → All IsModest db.roles
    → All IsModest db'.roles
unfolding create_role update_role delete_role audit
levels_are_reserved w actor {db} (create input) h =
    elim (Result-cases (
      may_create w.to_upper w.to_lower w.same_name actor input (role_key_from w.to_upper input.name)
        db)) [
          | inl (e, bad) ↦ rw (create_role, bad) h
          | inr (done, fine) ↦
              rw (create_role, fine)
                (
                  λ plain.
                      created-modest w actor input (role_key_from w.to_upper input.name) db fine,
                  h,
                )
        ]
levels_are_reserved w actor {db} (update key input) h =
    elim (Result-cases (load_editable actor key db)) [
      | inl (e, bad) ↦ rw (update_role, bad) h
      | inr (r, fine) ↦
          elim (Result-cases (may_update w.to_upper w.to_lower w.same_name actor key input r db)) [
            | inl (e, bad) ↦ rw (update_role, fine, bad) h
            | inr (done, may) ↦
                rw (update_role, fine, may)
                  (All-update_when (has_key key) IsModest (rewrite_role input r) db.roles
                    (λ row here modest.
                      written-IsModest actor key input r row
                        (may_update-held w.to_upper w.to_lower w.same_name actor key input r db may)
                        here modest)
                    h)
          ]
    ]
levels_are_reserved w actor {db} (delete key) h = elim (Result-cases (load_editable actor key db)) [
  | inl (e, bad) ↦ rw (delete_role, bad) h
  | inr (r, fine) ↦ elim (Result-cases (may_delete key r db)) [
    | inl (e, bad) ↦ rw (delete_role, fine, bad) h
    | inr (done, may) ↦
        rw (delete_role, fine, may) (All-kept (λ x. not (has_key key x)) IsModest db.roles h)
  ]
]
