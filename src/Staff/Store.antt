-- ===== src/Staff/Store.antt =====
-- The tables that staff administration reads and writes (prisma/schema.prisma), and its refusals.
use backend_new.Basics.{
  ℕ, Bool, true, false, ◌&&◌, Option, some, List, ◌∷◌, Text, ◌==◌, update_where, is_none,
}
use backend_new.Staff.Hierarchy.{RoleKey, super_admin, holds}

pub data Status : Type 0 where
  active suspended deactivated : Status

abbrev pub same_status : Status → Status → Bool
same_status active active = true
same_status suspended suspended = true
same_status deactivated deactivated = true
same_status _ _ = false

-- A member of staff, with the credential and whether an authenticator is set up.
pub record Staff : Type 0 where
  pub id : ℕ
  pub email : Text
  pub full_name : Text
  pub phone : Option Text
  pub status : Status
  pub roles : List RoleKey
  pub deactivated_at : Option ℕ
  pub password_hash : ℕ
  pub must_change : Bool
  pub failed_attempts : ℕ
  pub locked_until : Option ℕ
  pub has_mfa : Bool

pub data RevokedReason : Type 0 where
  staff_suspended staff_deactivated password_reset mfa_reset admin_revoked : RevokedReason

pub record Session : Type 0 where
  pub staff_id : ℕ
  pub revoked : Option (ℕ × RevokedReason)

-- A role, and the permissions it grants.
pub record Role : Type 0 where
  pub key : RoleKey
  pub permissions : List ℕ

pub data Action : Type 0 where
  staff_created staff_updated staff_reactivated : Action
  suspended_staff deactivated_staff password_was_reset mfa_was_reset sessions_revoked : Action

pub record Audit : Type 0 where
  pub actor : ℕ
  pub action : Action
  pub target : ℕ

pub record Db : Type 0 where
  pub staff : List Staff
  pub sessions : List Session
  pub roles : List Role
  pub audits : List Audit

-- Who calls, with the permissions of the session.
pub record Actor : Type 0 where
  pub staff_id : ℕ
  pub permissions : List ℕ

pub data Refusal : Type 0 where
  self_management hierarchy escalation unknown_role : Refusal
  no_roles incompatible_roles last_super_admin email_taken : Refusal
  not_found is_deactivated not_unique : Refusal

abbrev pub has_id : ℕ → Staff → Bool
has_id id s = s.id == id

abbrev pub is_active : Status → Bool
is_active s = same_status s active

abbrev pub is_deactivated_status : Status → Bool
is_deactivated_status s = same_status s deactivated

-- An active super admin.
abbrev pub is_active_super : Staff → Bool
is_active_super s = is_active s.status && holds super_admin s.roles

unfoldable pub put : ℕ → (Staff → Staff) → Db → Db
put id f db = record db { staff = update_where (has_id id) f db.staff }

-- `updateMany` on the sessions that are not revoked.
unfoldable pub revoke_open : ℕ → ℕ → RevokedReason → Db → Db
revoke_open id now reason db = record db {
  sessions =
      update_where (λ s. (s.staff_id == id) && is_none s.revoked)
        (λ s. record s { revoked = some (now, reason) }) db.sessions;
}

unfoldable pub audit : Actor → Action → ℕ → Db → Db
audit actor what id db = record db {
  audits = record { actor = actor.staff_id; action = what; target = id } ∷ db.audits;
}
