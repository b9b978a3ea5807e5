-- ===== src/Roles/Store.antt =====
-- The tables of roles (prisma/schema.prisma), and what the writes refuse with.
use backend_new.Basics.{ℕ, Bool, ◌||◌, Option, List, [], ◌∷◌, ◌==◌, Text, text_eq, includes}

pub record Role : Type 0 where
  pub key : Text
  pub name : Text
  pub description : Option Text
  pub is_system : Bool
  pub permissions : List ℕ

-- A row of `staff_user_roles`.
pub record Holding : Type 0 where
  pub staff_id : ℕ
  pub role_key : Text

pub data Action : Type 0 where
  role_created role_updated role_deleted : Action

pub record Audit : Type 0 where
  pub actor : ℕ
  pub action : Action
  pub role_key : Text

pub record Db : Type 0 where
  pub roles : List Role
  pub holdings : List Holding
  pub audits : List Audit

-- Who calls, with the permissions of the session.
pub record Actor : Type 0 where
  pub staff_id : ℕ
  pub permissions : List ℕ

pub data Refusal : Type 0 where
  not_found admin_is_fixed role_manager_is_fixed self_management : Refusal
  short_name no_permissions reserved_access escalation : Refusal
  name_taken not_unique built_in sub_admin_is_fixed in_use : Refusal

-- The permissions are numbered as in the list of src/types/staff.types.ts.
abbrev pub is_permission : ℕ → Bool
is_permission p = includes (0 ∷ 1 ∷ 2 ∷ 3 ∷ 4 ∷ 5 ∷ 6 ∷ 7 ∷ 8 ∷ 9 ∷ 10 ∷ []) p

-- `staff.manage` and `roles.manage`
abbrev pub is_level : ℕ → Bool
is_level p = (p == 9) || (p == 10)

-- `SUPER_ADMIN`
abbrev pub admin_role : Text
admin_role = 83 ∷ 85 ∷ 80 ∷ 69 ∷ 82 ∷ 95 ∷ 65 ∷ 68 ∷ 77 ∷ 73 ∷ 78 ∷ []

-- `SUB_ADMIN`
abbrev pub sub_admin_role : Text
sub_admin_role = 83 ∷ 85 ∷ 66 ∷ 95 ∷ 65 ∷ 68 ∷ 77 ∷ 73 ∷ 78 ∷ []

-- `ROLE_MANAGER`
abbrev pub role_manager_role : Text
role_manager_role = 82 ∷ 79 ∷ 76 ∷ 69 ∷ 95 ∷ 77 ∷ 65 ∷ 78 ∷ 65 ∷ 71 ∷ 69 ∷ 82 ∷ []

abbrev pub has_key : Text → Role → Bool
has_key key r = text_eq r.key key

abbrev pub of_role : Text → Holding → Bool
of_role key h = text_eq h.role_key key

unfoldable pub audit : Actor → Action → Text → Db → Db
audit actor what key db = record db {
  audits = record { actor = actor.staff_id; action = what; role_key = key } ∷ db.audits;
}
