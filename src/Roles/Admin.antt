-- ===== src/Roles/Admin.antt =====
-- The writes of src/services/role-admin.service.ts.
use backend_new.Basics.{
  ℕ, Bool, true, false, not, ◌&&◌, ◌||◌, Option, none, some, List, [], ◌∷◌, ◌++◌, ltb, ◌==◌, Text,
  text_eq, find, any, keep, length, includes, update_where, if◌then◌else◌, Result, ok, err, ◌>>◌,
  throw_if,
}
use backend_new.SignIn.Session.{dedupe}
use backend_new.Roles.Key.{role_key_from}
use backend_new.Roles.Store.{
  Role, Holding, role_created, role_updated, role_deleted, Db, Actor, Refusal, not_found,
  admin_is_fixed, role_manager_is_fixed, self_management, short_name, no_permissions,
  reserved_access, escalation, name_taken, not_unique, built_in, sub_admin_is_fixed, in_use,
  is_permission, is_level, admin_role, sub_admin_role, role_manager_role, has_key, of_role, audit,
}

pub record CreateInput : Type 0 where
  pub name : Text
  pub description : Option Text
  pub permissions : List ℕ

pub record UpdateInput : Type 0 where
  pub name : Option Text
  pub description : Option (Option Text)
  pub permissions : Option (List ℕ)

abbrev pub is_empty : List ℕ → Bool
is_empty [] = true
is_empty (p ∷ ps) = false

-- `assertOperatorAccess`
abbrev pub operator_access : List ℕ → Result Refusal (Unit {0})
operator_access permissions = throw_if (any is_level permissions) reserved_access

-- `assertHeld`
abbrev pub held : Actor → List ℕ → Result Refusal (Unit {0})
held actor permissions =
    throw_if (any (λ p. not (includes actor.permissions p)) permissions) escalation

abbrev pub holds : Actor → Text → Holding → Bool
holds actor key h = (h.staff_id == actor.staff_id) && of_role key h

-- Whether the caller may change a role that was found.
unfoldable pub editable : Actor → Text → Role → Db → Result Refusal (Unit {0})
editable actor key r db =
    throw_if (text_eq r.key admin_role) admin_is_fixed
    >> throw_if (text_eq r.key role_manager_role) role_manager_is_fixed
    >> throw_if (any (holds actor key) db.holdings) self_management

unfoldable pub load_editable : Actor → Text → Db → Result Refusal Role
load_editable actor key db = elim (find (has_key key) db.roles) [
  | none ↦ err not_found
  | some r ↦
      editable actor key r db >> ok (record r { permissions = keep is_permission r.permissions })
]

abbrev pub has_twice : List ℕ → Bool
has_twice [] = false
has_twice (p ∷ ps) = includes ps p || has_twice ps

-- What a list of permissions adds to a role, and what it takes from it.
abbrev pub added : Option (List ℕ) → Role → List ℕ
added none r = []
added (some chosen) r = keep (λ p. not (includes r.permissions p)) (dedupe chosen)

abbrev pub removed : Option (List ℕ) → Role → List ℕ
removed none r = []
removed (some chosen) r = keep (λ p. not (includes (dedupe chosen) p)) r.permissions

abbrev pub differs : Option Text → Text → Bool
differs none name = false
differs (some t) name = not (text_eq t name)

abbrev pub same_description : Option Text → Option Text → Bool
same_description none none = true
same_description (some s) (some t) = text_eq s t
same_description _ _ = false

abbrev pub redescribes : Option (Option Text) → Option Text → Bool
redescribes none d = false
redescribes (some t) d = not (same_description t d)

unfoldable pub may_grant : Actor → Text → Option (List ℕ) → Role → Result Refusal (Unit {0})
may_grant actor key none r = ok tt
may_grant actor key (some chosen) r =
    throw_if (is_empty chosen) no_permissions
    >> (if text_eq key sub_admin_role
        then throw_if (any is_level (added (some chosen) r ++ removed (some chosen) r))
            sub_admin_is_fixed
        else operator_access (added (some chosen) r))
    >> held actor (added (some chosen) r ++ removed (some chosen) r)

abbrev pub or_else : {A : Type 0} → Option A → A → A
or_else none a = a
or_else (some b) a = b

-- The rows of `removed` go, and those of `added` come that are not there yet.
abbrev pub grant : List ℕ → List ℕ → List ℕ → List ℕ
grant plus minus permissions =
    let rest = keep (λ p. not (includes minus p)) permissions in
    rest ++ keep (λ p. not (includes rest p)) plus

abbrev pub rewrite_role : UpdateInput → Role → Role → Role
rewrite_role input loaded r = record r {
  name = or_else input.name r.name;
  description = or_else input.description r.description;
  permissions =
      grant (added input.permissions loaded) (removed input.permissions loaded) r.permissions;
}

-- `to_upper` and `to_lower` are those of `String`; `same_name` is the database's comparison of names
-- with `mode: "insensitive"`.
module _ (to_upper to_lower : Text → Text) (same_name : Text → Text → Bool) where
  unfoldable pub may_create : Actor → CreateInput → Text → Db → Result Refusal (Unit {0})
  may_create actor input key db =
      throw_if (ltb (length key) 2) short_name
      >> throw_if (is_empty input.permissions) no_permissions
      >> operator_access input.permissions
      >> held actor input.permissions
      >> throw_if (any (λ r. has_key key r || same_name r.name input.name) db.roles) name_taken
      >> throw_if (has_twice input.permissions) not_unique

  unfoldable pub create_role : Actor → CreateInput → Db → Db × Result Refusal Text
  create_role actor input db =
      let key = role_key_from to_upper input.name in
      elim (may_create actor input key db) [
        | err e ↦ (db, err e)
        | ok done ↦ (
          audit actor role_created key (record db {
            roles =
                record {
                  key = key;
                  name = input.name;
                  description = input.description;
                  is_system = false;
                  permissions = input.permissions;
                }
                ∷ db.roles;
          }),
          ok key,
        )
      ]

  abbrev pub renames : Option Text → Text → Bool
  renames none name = false
  renames (some t) name = not (text_eq (to_lower t) (to_lower name))

  abbrev pub is_taken : Text → Option Text → Db → Bool
  is_taken key none db = false
  is_taken key (some t) db = any (λ r. not (has_key key r) && same_name r.name t) db.roles

  unfoldable pub may_update : Actor → Text → UpdateInput → Role → Db → Result Refusal (Unit {0})
  may_update actor key input r db =
      throw_if
        (r.is_system && (differs input.name r.name || redescribes input.description r.description))
        built_in
      >> may_grant actor key input.permissions r
      >> throw_if (renames input.name r.name && is_taken key input.name db) name_taken

  unfoldable pub update_role : Actor → Text → UpdateInput → Db → Db × Result Refusal Text
  update_role actor key input db = elim (load_editable actor key db) [
    | err e ↦ (db, err e)
    | ok r ↦ elim (may_update actor key input r db) [
      | err e ↦ (db, err e)
      | ok done ↦ (
        audit actor role_updated key
            (record db { roles = update_where (has_key key) (rewrite_role input r) db.roles }),
        ok key,
      )
    ]
  ]

unfoldable pub may_delete : Text → Role → Db → Result Refusal (Unit {0})
may_delete key r db =
    throw_if r.is_system built_in >> throw_if (any (of_role key) db.holdings) in_use

unfoldable pub delete_role : Actor → Text → Db → Db × Result Refusal (Unit {0})
delete_role actor key db = elim (load_editable actor key db) [
  | err e ↦ (db, err e)
  | ok r ↦ elim (may_delete key r db) [
    | err e ↦ (db, err e)
    | ok done ↦ (
      audit actor role_deleted key (record db { roles = keep (λ r. not (has_key key r)) db.roles }),
      ok tt,
    )
  ]
]
