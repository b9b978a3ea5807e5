-- ===== src/Staff/Escalation.antt =====
-- Who is no admin gives and takes no role that sets a level.
use backend_new.Basics.{
  ℕ, ◌≡◌, refl, Bool, true, false, not, ◌&&◌, ◌||◌, List, [], ◌∷◌, ◌++◌, any, count, keep, find,
  some, none, Option, ok, Option-cases, Bool-cases, inl, inr, arith, subst, sym, ap, ◌∙◌,
  count-update_where, throw_if, throw_if-ok, step-ok, ◌>>◌, update_where, ◌==◌,
}
use backend_new.Staff.Hierarchy.{
  RoleKey, super_admin, holds, is_admin_only, is_admin, level_of, same_role, role_set_problem,
}
use backend_new.Staff.Store.{
  Status, active, suspended, deactivated, Staff, Db, Actor, has_id, put, audit, revoke_open,
  escalation, no_roles, incompatible_roles, same_status, self_management, is_active,
}
use backend_new.Staff.Admin.{
  CreateInput, UpdateInput, dedupe, actor_roles, assert_can_handle, assert_outranks,
  assert_roles_exist, is_empty, create_checks, create_staff, new_staff, update_checks, update_staff,
  updated, removed, added, live_only, rank_check, role_checks, keeps_admin, may_touch,
  change_status, set_status, with_status, reset_password, with_password, reset_mfa, revoke_sessions,
}
use backend_new.Staff.Guards.{
  guarded-keeps, after_check-keeps, if-keeps, on_target-keeps, same_role-eq,
}
use backend_new.Staff.Invariant.{end_sessions-staff}
use backend_new.Staff.Steps.{Step, create, update, change, new_password, new_mfa, revoke}

abbrev pub holder : RoleKey → Staff → Bool
holder k s = holds k s.roles

-- How many hold the role.
abbrev pub holders : RoleKey → Db → ℕ
holders k db = count (holder k) db.staff

handled :
    (is_permission : ℕ → Bool) (actor : Actor) (keys : List RoleKey) (db : Db)
    → is_admin (level_of (actor_roles actor db)) ≡ false
    → assert_can_handle is_permission actor keys db ≡ ok tt
    → any is_admin_only keys ≡ false
unfolding assert_can_handle
handled is_permission actor [] db low e = refl
handled is_permission actor (k ∷ ks) db low e =
    let (e1, _) =
      step-ok
        (throw_if (any is_admin_only (k ∷ ks) && not (is_admin (level_of (actor_roles actor db))))
          escalation)
        _ e in
    clear (any is_admin_only (k ∷ ks)) (is_admin (level_of (actor_roles actor db))) low e1
  where
    clear : (a b : Bool) → b ≡ false → throw_if (a && not b) escalation ≡ ok tt → a ≡ false
    clear a b low e = ground arith

none_held :
    (k : RoleKey) (keys : List RoleKey)
    → is_admin_only k ≡ true
    → any is_admin_only keys ≡ false
    → holds k keys ≡ false
none_held k [] only h = refl
none_held k (x ∷ xs) only h = elim (Bool-cases (same_role x k)) [
  | inl here ↦
      let is = same_role-eq x k here in
      absurd (
        let bad = subst (λ y. (is_admin_only y || any is_admin_only xs) ≡ false) is h in
        ground arith)
  | inr apart ↦ ground (arith, none_held k xs only)
]

holds-append :
    (k : RoleKey) (xs ys : List RoleKey) → holds k (xs ++ ys) ≡ (holds k xs || holds k ys)
holds-append k [] ys = refl
holds-append k (x ∷ xs) ys = ground (arith, holds-append k xs ys)

-- A change that neither gives nor takes the role.
holds_same :
    (k : RoleKey) (keys gone more : List RoleKey)
    → holds k gone ≡ false
    → holds k more ≡ false
    → holds k (keep (λ x. not (holds x gone)) keys ++ more) ≡ holds k keys
holds_same k [] gone more g m = m
holds_same k (x ∷ xs) gone more g m = elim (Bool-cases (same_role x k)) [
  | inl here ↦
      let stays : holds x gone ≡ false =
        subst (λ y. holds y gone ≡ false) (sym (same_role-eq x k here)) g in
      rw (stays, here)
  | inr apart ↦
      let rest = holds_same k xs gone more g m in
      elim (Bool-cases (holds x gone)) [
        | inl taken ↦ rw (taken, apart) rest
        | inr left ↦ rw (left, apart) rest
      ]
]

module _ (is_permission : ℕ → Bool) (actor : Actor) (k : RoleKey)
    (only : is_admin_only k ≡ true) where
  abbrev Same : ℕ → Db → Type 0
  Same n db = holders k db ≡ n

  -- A write that leaves roles alone.
  Same-write :
      (id : ℕ) (f : Staff → Staff) (db : Db) (n : ℕ)
      → ((s : Staff) → holder k (f s) ≡ holder k s)
      → Same n db
      → count (holder k) (update_where (has_id id) f db.staff) ≡ n
  Same-write id f db n same h = count-update_where (holder k) (has_id id) f db.staff same ∙ h

  create-holders :
      (fresh_id hash : ℕ) (input : CreateInput) (db : Db)
      → is_admin (level_of (actor_roles actor db)) ≡ false
      → holders k (create_staff is_permission actor fresh_id hash input db).0 ≡ holders k db
  unfolding create_staff audit new_staff
  create-holders fresh_id hash input db low =
      guarded-keeps (Same (holders k db)) (create_checks is_permission actor fresh_id input db) db _
        refl
        λ e.
          let (_, r1) = throw_if-ok (is_empty input.role_keys) no_roles _ e in
          let (_, r2) = throw_if-ok (role_set_problem input.role_keys) incompatible_roles _ r1 in
          let (_, r3) = step-ok (assert_roles_exist input.role_keys db) _ r2 in
          let (_, r4) = step-ok (assert_outranks actor input.role_keys db) _ r3 in
          let (may, _) = step-ok (assert_can_handle is_permission actor input.role_keys db) _ r4 in
          let free =
            none_held k input.role_keys only
              (handled is_permission actor input.role_keys db low may) in
          rw free

  -- Neither among the roles that a change gives nor among those it takes.
  untouched :
      (t : Staff) (keys : Option (List RoleKey)) (db : Db)
      → is_admin (level_of (actor_roles actor db)) ≡ false
      → role_checks is_permission actor t keys db ≡ ok tt
      → (holds k (removed is_permission t keys) ≡ false)
        × (holds k (added is_permission t keys) ≡ false)
  untouched t none db low e = (refl, refl)
  untouched t (some keys) db low e =
      let (_, r1) = throw_if-ok (actor.staff_id == t.id) self_management _ e in
      let (_, r2) = throw_if-ok (is_empty (dedupe keys)) no_roles _ r1 in
      let (_, r3) = throw_if-ok (role_set_problem (dedupe keys)) incompatible_roles _ r2 in
      let (_, r4) = step-ok (assert_roles_exist (dedupe keys) db) _ r3 in
      let (_, may) = step-ok (assert_outranks actor (dedupe keys) db) _ r4 in
      let both = added is_permission t (some keys) ++ removed is_permission t (some keys) in
      let free = none_held k both only (handled is_permission actor both db low may) in
      split (holds k (removed is_permission t (some keys)))
        (holds k (added is_permission t (some keys)))
        (sym (
            holds-append k (added is_permission t (some keys))
              (removed is_permission t (some keys)))
          ∙ free)
    where
      split : (a b : Bool) → (b || a) ≡ false → (a ≡ false) × (b ≡ false)
      split a b e = ground arith

  update-holders :
      (id : ℕ) (input : UpdateInput) (db : Db)
      → is_admin (level_of (actor_roles actor db)) ≡ false
      → holders k (update_staff is_permission actor id input db).0 ≡ holders k db
  unfolding update_staff put audit updated
  update-holders id input db low = elim (Option-cases (find (has_id id) db.staff)) [
    | inl missing ↦ rw (missing, update_staff)
    | inr (t, here) ↦
        rw (here, update_staff)
          (guarded-keeps (Same (holders k db)) (update_checks is_permission actor t input db) db _
            refl
            λ e.
              let (_, r1) = step-ok (live_only t) _ e in
              let (_, r2) = step-ok (rank_check is_permission actor t db) _ r1 in
              let (roles, _) =
                step-ok (role_checks is_permission actor t input.role_keys db) _ r2 in
              let (gone, more) = untouched t input.role_keys db low roles in
              Same-write id (updated is_permission t input) db (holders k db)
                (λ s.
                  holds_same k s.roles (removed is_permission t input.role_keys)
                    (added is_permission t input.role_keys) gone more)
                refl)
  ]

  with_status-holder :
      (now : ℕ) (status : Status) (s : Staff)
      → holder k (with_status is_permission now status s) ≡ holder k s
  unfolding with_status
  with_status-holder now active s = refl
  with_status-holder now suspended s = refl
  with_status-holder now deactivated s = refl

  change-holders :
      (id now : ℕ) (status : Status) (db : Db)
      → holders k (set_status is_permission actor id now status db).0 ≡ holders k db
  unfolding set_status change_status put audit revoke_open
  change-holders id now status db =
      on_target-keeps (Same (holders k db)) actor id db _ refl λ t apart here.
        after_check-keeps (Same (holders k db)) (may_touch is_permission actor t db) db _ refl (
          if-keeps (Same (holders k db)) (same_status t.status status) (db, ok tt)
            (change_status is_permission actor t now status db) refl
            (guarded-keeps (Same (holders k db))
              (live_only t
                >> keeps_admin is_permission t (not (is_active status) && holds super_admin t.roles)
                    db)
              db _ refl
              λ _.
                ap (count (holder k)) (end_sessions-staff is_permission t.id now status _)
                ∙ Same-write t.id (with_status is_permission now status) db (holders k db)
                    (with_status-holder now status) refl))

  pub Step-holders :
      (db db' : Db)
      → is_admin (level_of (actor_roles actor db)) ≡ false
      → Step is_permission actor db db'
      → holders k db' ≡ holders k db
  unfolding reset_password reset_mfa revoke_sessions put audit revoke_open with_password
  Step-holders db db' low (create fresh_id hash input) = create-holders fresh_id hash input db low
  Step-holders db db' low (update id input) = update-holders id input db low
  Step-holders db db' low (change id now status) = change-holders id now status db
  Step-holders db db' low (new_password id now hash) =
      on_target-keeps (Same (holders k db)) actor id db _ refl λ t apart here.
        guarded-keeps (Same (holders k db)) (live_only t >> may_touch is_permission actor t db) db _
          refl
          λ _. Same-write id (with_password is_permission hash) db (holders k db) (λ s. refl) refl
  Step-holders db db' low (new_mfa id now) =
      on_target-keeps (Same (holders k db)) actor id db _ refl λ t apart here.
        guarded-keeps (Same (holders k db)) (live_only t >> may_touch is_permission actor t db) db _
          refl
          λ _. Same-write id (λ s. record s { has_mfa = false }) db (holders k db) (λ s. refl) refl
  Step-holders db db' low (revoke id now) =
      on_target-keeps (Same (holders k db)) actor id db _ refl λ t apart here.
        guarded-keeps (Same (holders k db)) (may_touch is_permission actor t db) db _ refl λ _. refl

-- No call by someone who does not hold the admin role, whether it succeeds or is refused, changes how
-- many hold a role that sets a level: admin, sub-admin or role manager.
pub no_escalation :
    (is_permission : ℕ → Bool) (actor : Actor) (k : RoleKey) (db db' : Db)
    → is_admin_only k ≡ true
    → is_admin (level_of (actor_roles actor db)) ≡ false
    → Step is_permission actor db db'
    → holders k db' ≡ holders k db
no_escalation is_permission actor k db db' only low s =
    Step-holders is_permission actor k only db db' low s
