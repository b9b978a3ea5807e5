-- ===== src/Staff/Admin.antt =====
-- The writes of src/services/staff-admin.service.ts. A call answers with the tables it leaves and a
-- refusal or nothing; the tables that `createStaff` and the others read back are not repeated.
use backend_new.Basics.{
  ℕ, Bool, true, false, not, ◌&&◌, ◌||◌, Option, none, some, List, [], ◌∷◌, ◌++◌, ◌==◌, Text,
  text_eq, find, any, keep, count, includes, if◌then◌else◌, Result, ok, err, ◌>>◌, throw_if,
}
use backend_new.Staff.Hierarchy.{
  RoleKey, super_admin, same_role, holds, is_admin_only, level_of, can_manage, is_admin,
  role_set_problem,
}
use backend_new.Staff.Store.{
  Status, active, suspended, deactivated, same_status, Staff, staff_suspended, staff_deactivated,
  password_reset, mfa_reset, admin_revoked, Action, staff_created, staff_updated, staff_reactivated,
  suspended_staff, deactivated_staff, password_was_reset, mfa_was_reset, sessions_revoked, Db,
  Actor, Refusal, self_management, hierarchy, escalation, unknown_role, no_roles,
  incompatible_roles, last_super_admin, email_taken, not_found, is_deactivated, not_unique, has_id,
  is_active, is_active_super, is_deactivated_status, put, revoke_open, audit,
}

abbrev pub Reply : Type 0
Reply = Db × Result Refusal (Unit {0})

-- A write behind checks that leave the tables alone.
abbrev pub guarded : Result Refusal (Unit {0}) → Db → Db → Reply
guarded (ok u) before after = (after, ok tt)
guarded (err e) before after = (before, err e)

-- A further call behind checks.
abbrev pub after_check : Result Refusal (Unit {0}) → Db → Reply → Reply
after_check (ok u) db next = next
after_check (err e) db next = (db, err e)

abbrev pub is_empty {ℓ} : {A : Type ℓ} → List A → Bool
is_empty [] = true
is_empty (_ ∷ _) = false

abbrev pub not_self : Actor → ℕ → Result Refusal (Unit {0})
not_self actor id = throw_if (actor.staff_id == id) self_management

abbrev pub roles_of : Option Staff → List RoleKey
roles_of none = []
roles_of (some s) = s.roles

unfoldable pub actor_roles : Actor → Db → List RoleKey
actor_roles actor db = roles_of (find (has_id actor.staff_id) db.staff)

unfoldable pub assert_outranks : Actor → List RoleKey → Db → Result Refusal (Unit {0})
assert_outranks actor keys db =
    throw_if (not (can_manage (level_of (actor_roles actor db)) (level_of keys))) hierarchy

-- A permission that is unknown, or that the actor has not.
abbrev pub is_beyond : (ℕ → Bool) → Actor → ℕ → Bool
is_beyond is_permission actor p = not (is_permission p) || not (includes actor.permissions p)

unfoldable pub beyond : (ℕ → Bool) → Actor → List RoleKey → Db → Bool
beyond is_permission actor keys db =
    any (λ r. holds r.key keys && any (is_beyond is_permission actor) r.permissions) db.roles

unfoldable pub assert_can_handle :
    (ℕ → Bool) → Actor → List RoleKey → Db → Result Refusal (Unit {0})
assert_can_handle is_permission actor keys db =
    if is_empty keys
    then ok tt
    else throw_if (any is_admin_only keys && not (is_admin (level_of (actor_roles actor db))))
        escalation
      >> throw_if (beyond is_permission actor keys db) escalation

unfoldable pub assert_roles_exist : List RoleKey → Db → Result Refusal (Unit {0})
assert_roles_exist keys db =
    throw_if (any (λ k. not (any (λ r. same_role r.key k) db.roles)) keys) unknown_role

unfoldable pub assert_another_super_admin : ℕ → Db → Result Refusal (Unit {0})
assert_another_super_admin id db =
    throw_if (count (λ s. not (has_id id s) && is_active_super s) db.staff == 0) last_super_admin

-- `[...new Set(keys)]`
abbrev pub dedupe : List RoleKey → List RoleKey
dedupe [] = []
dedupe (k ∷ ks) = k ∷ keep (λ x. not (same_role x k)) (dedupe ks)

-- Two rows for one key, which a table's primary key refuses.
abbrev pub has_repeat : List RoleKey → Bool
has_repeat [] = false
has_repeat (k ∷ ks) = holds k ks || has_repeat ks

-- The target's own state, and what the actor may do to it.
abbrev pub may_touch : (ℕ → Bool) → Actor → Staff → Db → Result Refusal (Unit {0})
may_touch is_permission actor t db = do
  assert_outranks actor t.roles db
  assert_can_handle is_permission actor t.roles db

abbrev pub live_only : Staff → Result Refusal (Unit {0})
live_only t = throw_if (is_deactivated_status t.status) is_deactivated

-- `loadTarget`, for a caller that is not the target.
abbrev pub on_target : Actor → ℕ → Db → (Staff → Reply) → Reply
on_target actor id db f =
    if actor.staff_id == id
    then (db, err self_management)
    else elim (find (has_id id) db.staff) [ none ↦ (db, err not_found) | some t ↦ f t ]

pub record CreateInput : Type 0 where
  pub email : Text
  pub full_name : Text
  pub phone : Option Text
  pub role_keys : List RoleKey

pub record UpdateInput : Type 0 where
  pub full_name : Option Text
  pub phone : Option (Option Text)
  pub role_keys : Option (List RoleKey)

unfoldable pub new_staff : ℕ → ℕ → CreateInput → Staff
new_staff fresh_id hash input = record {
  id = fresh_id;
  email = input.email;
  full_name = input.full_name;
  phone = input.phone;
  status = active;
  roles = input.role_keys;
  deactivated_at = none;
  password_hash = hash;
  must_change = true;
  failed_attempts = 0;
  locked_until = none;
  has_mfa = false;
}

abbrev pub or_old {ℓ} : {A : Type ℓ} → Option A → A → A
or_old none old = old
or_old (some new) _ = new

-- `is_permission` is the list of permissions (src/types/staff.types.ts); `hash` the hash of the
-- password that was issued.
module _ (is_permission : ℕ → Bool) where
  abbrev pub create_checks : Actor → ℕ → CreateInput → Db → Result Refusal (Unit {0})
  create_checks actor fresh_id input db = do
    throw_if (is_empty input.role_keys) no_roles
    throw_if (role_set_problem input.role_keys) incompatible_roles
    assert_roles_exist input.role_keys db
    assert_outranks actor input.role_keys db
    assert_can_handle is_permission actor input.role_keys db
    throw_if (any (λ s. text_eq s.email input.email) db.staff) email_taken
    throw_if (has_repeat input.role_keys) not_unique
    throw_if (any (has_id fresh_id) db.staff) not_unique
    ok tt

  unfoldable pub create_staff : Actor → ℕ → ℕ → CreateInput → Db → Reply
  create_staff actor fresh_id hash input db = guarded (create_checks actor fresh_id input db) db (
      audit actor staff_created fresh_id
        (record db { staff = new_staff fresh_id hash input ∷ db.staff }))

  -- The roles that a change takes away, and gives.
  abbrev pub removed : Staff → Option (List RoleKey) → List RoleKey
  removed t none = []
  removed t (some keys) = keep (λ k. not (holds k (dedupe keys))) t.roles

  abbrev pub added : Staff → Option (List RoleKey) → List RoleKey
  added t none = []
  added t (some keys) = keep (λ k. not (holds k t.roles)) (dedupe keys)

  abbrev pub role_checks : Actor → Staff → Option (List RoleKey) → Db → Result Refusal (Unit {0})
  role_checks actor t none db = ok tt
  role_checks actor t (some keys) db = do
    throw_if (actor.staff_id == t.id) self_management
    throw_if (is_empty (dedupe keys)) no_roles
    throw_if (role_set_problem (dedupe keys)) incompatible_roles
    assert_roles_exist (dedupe keys) db
    assert_outranks actor (dedupe keys) db
    assert_can_handle is_permission actor (added t (some keys) ++ removed t (some keys)) db

  abbrev pub rank_check : Actor → Staff → Db → Result Refusal (Unit {0})
  rank_check actor t db =
      if not (actor.staff_id == t.id) then assert_outranks actor t.roles db else ok tt

  abbrev pub keeps_admin : Staff → Bool → Db → Result Refusal (Unit {0})
  keeps_admin t losing db = if losing then assert_another_super_admin t.id db else ok tt

  abbrev pub update_checks : Actor → Staff → UpdateInput → Db → Result Refusal (Unit {0})
  update_checks actor t input db = do
    live_only t
    rank_check actor t db
    role_checks actor t input.role_keys db
    keeps_admin t (holds super_admin (removed t input.role_keys) && is_active t.status) db

  unfoldable pub updated : Staff → UpdateInput → Staff → Staff
  updated t input s = record s {
    full_name = or_old input.full_name s.full_name;
    phone = or_old input.phone s.phone;
    roles =
        keep (λ k. not (holds k (removed t input.role_keys))) s.roles ++ added t input.role_keys;
  }

  unfoldable pub update_staff : Actor → ℕ → UpdateInput → Db → Reply
  update_staff actor id input db = elim (find (has_id id) db.staff) [
    | none ↦ (db, err not_found)
    | some t ↦
        guarded (update_checks actor t input db) db
          (audit actor staff_updated id (put id (updated t input) db))
  ]

  abbrev pub action_of : Status → Action
  action_of active = staff_reactivated
  action_of suspended = suspended_staff
  action_of deactivated = deactivated_staff

  unfoldable pub with_status : ℕ → Status → Staff → Staff
  with_status now deactivated s = record s { status = deactivated; deactivated_at = some now }
  with_status now status s = record s { status = status }

  -- Who may not work has no session.
  abbrev pub end_sessions : ℕ → ℕ → Status → Db → Db
  end_sessions id now active db = db
  end_sessions id now suspended db = revoke_open id now staff_suspended db
  end_sessions id now deactivated db = revoke_open id now staff_deactivated db

  unfoldable pub change_status : Actor → Staff → ℕ → Status → Db → Reply
  change_status actor t now status db =
      guarded
        (live_only t >> keeps_admin t (not (is_active status) && holds super_admin t.roles) db) db
        (audit actor (action_of status) t.id
          (end_sessions t.id now status (put t.id (with_status now status) db)))

  unfoldable pub set_status : Actor → ℕ → ℕ → Status → Db → Reply
  set_status actor id now status db = on_target actor id db λ t.
      after_check (may_touch is_permission actor t db) db
        (if same_status t.status status then (db, ok tt) else change_status actor t now status db)

  unfoldable pub with_password : ℕ → Staff → Staff
  with_password hash s = record s {
    password_hash = hash;
    must_change = true;
    failed_attempts = 0;
    locked_until = none;
  }

  unfoldable pub reset_password : Actor → ℕ → ℕ → ℕ → Db → Reply
  reset_password actor id now hash db = on_target actor id db λ t.
      guarded (live_only t >> may_touch is_permission actor t db) db (
        audit actor password_was_reset id
          (revoke_open id now password_reset (put id (with_password hash) db)))

  unfoldable pub reset_mfa : Actor → ℕ → ℕ → Db → Reply
  reset_mfa actor id now db = on_target actor id db λ t.
      guarded (live_only t >> may_touch is_permission actor t db) db (
        audit actor mfa_was_reset id
          (revoke_open id now mfa_reset (put id (λ s. record s { has_mfa = false }) db)))

  unfoldable pub revoke_sessions : Actor → ℕ → ℕ → Db → Reply
  revoke_sessions actor id now db = on_target actor id db λ t.
      guarded (may_touch is_permission actor t db) db
        (audit actor sessions_revoked id (revoke_open id now admin_revoked db))
