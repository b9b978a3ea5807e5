-- ===== src/Roles/Tests.antt =====
-- Roles at concrete inputs.
use backend_new.Basics.{◌≡◌, refl, false, none, some, [], ◌∷◌, All, Text, text_eq, ok, err, inl}
use backend_new.Roles.Key.{role_key_from}
use backend_new.Roles.Store.{Db, Actor, escalation}
use backend_new.Roles.Admin.{
  UpdateInput, update_role, load_editable, editable, may_update, may_grant,
}
use backend_new.Roles.Shape.{IsKey, role_key_from-IsKey}
use backend_new.Roles.Access.{IsKnown, has_access}
use backend_new.Roles.Escalation.{World, update, access_kept}
use backend_new.Roles.Levels.{IsModest, levels_are_reserved}

-- Upper-case texts stay as they are.
abbrev as_is : Text → Text
as_is t = t

-- " A (B) " makes "A_B".
key_of_a_b : role_key_from as_is (32 ∷ 65 ∷ 32 ∷ 40 ∷ 66 ∷ 41 ∷ 32 ∷ []) ≡ 65 ∷ 95 ∷ 66 ∷ []
unfolding role_key_from
key_of_a_b = refl

role_key_from-IsKey_example : IsKey (role_key_from as_is (32 ∷ 65 ∷ 32 ∷ 66 ∷ []))
role_key_from-IsKey_example = role_key_from-IsKey as_is (32 ∷ 65 ∷ 32 ∷ 66 ∷ [])

abbrev ops : Text
ops = 79 ∷ 80 ∷ 83 ∷ []

abbrev start : Db
start = record {
  roles =
      record {
        key = ops;
        name = ops;
        description = none;
        is_system = false;
        permissions = 1 ∷ 2 ∷ [];
      }
      ∷ [];
  holdings = record { staff_id = 5; role_key = ops } ∷ [];
  audits = [];
}

abbrev caller : Actor
caller = record { staff_id = 1; permissions = 1 ∷ 3 ∷ 10 ∷ [] }

abbrev world : World
world = record { to_upper = as_is; to_lower = as_is; same_name = text_eq }

known : IsKnown start
unfolding text_eq
known = (refl, tt)

abbrev swap : UpdateInput
swap = record { name = none; description = none; permissions = some (2 ∷ 3 ∷ []) }

-- Permission 1 goes and 3 comes, 2 is beyond the caller and stays.
swapped : (update_role as_is as_is text_eq caller ops swap start).1 ≡ ok ops
unfolding update_role load_editable editable may_update may_grant text_eq
swapped = refl

refused :
    (update_role as_is as_is text_eq caller ops
      (record { name = none; description = none; permissions = some (1 ∷ 2 ∷ 4 ∷ []) })
      start).1
    ≡ err escalation
unfolding update_role load_editable editable may_update may_grant text_eq
refused = refl

abbrev after : Db
after = (update_role as_is as_is text_eq caller ops swap start).0

access_kept_example : IsKnown after × (has_access 5 2 after ≡ has_access 5 2 start)
access_kept_example = access_kept world caller 5 2 (update ops swap) known (inl refl)

levels_are_reserved_example : All IsModest after.roles
levels_are_reserved_example =
    levels_are_reserved world caller {db = start} (update ops swap) (λ plain. refl, tt)
