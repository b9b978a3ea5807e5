-- ===== src/Staff/Hierarchy.antt =====
-- src/utils/staff-hierarchy.ts: the three levels of staff and the roles that set them.
use backend_new.Basics.{ℕ, Bool, true, false, not, ◌&&◌, ◌||◌, List, ◌==◌, any, if◌then◌else◌}

-- A role's key; `other` is any role that sets no level.
pub data RoleKey : Type 0 where
  super_admin sub_admin role_manager : RoleKey
  other : ℕ → RoleKey

pub data Level : Type 0 where
  admin sub_admin_level operator : Level

abbrev pub same_role : RoleKey → RoleKey → Bool
same_role super_admin super_admin = true
same_role sub_admin sub_admin = true
same_role role_manager role_manager = true
same_role (other a) (other b) = a == b
same_role _ _ = false

-- `roleKeys.includes(key)`
abbrev pub holds : RoleKey → List RoleKey → Bool
holds key keys = any (λ k. same_role k key) keys

-- `ADMIN_ONLY_ROLES.includes(key)`
abbrev pub is_admin_only : RoleKey → Bool
is_admin_only (other _) = false
is_admin_only _ = true

unfoldable pub level_of : List RoleKey → Level
level_of keys =
    if holds super_admin keys
    then admin
    else if holds sub_admin keys
    then sub_admin_level
    else operator

unfoldable pub can_manage : Level → Level → Bool
can_manage admin _ = true
can_manage sub_admin_level operator = true
can_manage _ _ = false

abbrev pub is_admin : Level → Bool
is_admin admin = true
is_admin _ = false

-- The set of roles can't be held together.
unfoldable pub role_set_problem : List RoleKey → Bool
role_set_problem keys =
    (holds super_admin keys && holds sub_admin keys)
    || (holds role_manager keys && not (holds sub_admin keys))
