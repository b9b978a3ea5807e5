-- ===== src/Staff/Tests.antt =====
-- Staff administration at concrete inputs.
use backend_new.Basics.{
  ℕ, ◌≡◌, refl, Bool, true, false, none, List, [], ◌∷◌, arith, ◌==◌, err, ok, text_eq,
}
use backend_new.Staff.Hierarchy.{
  RoleKey, super_admin, sub_admin, other, is_admin, level_of, can_manage, role_set_problem,
}
use backend_new.Staff.Store.{
  active, suspended, Staff, Db, Actor, put, audit, revoke_open, hierarchy,
}
use backend_new.Staff.Admin.{
  CreateInput, actor_roles, assert_outranks, beyond, assert_can_handle, assert_roles_exist,
  assert_another_super_admin, create_staff, new_staff, update_staff, updated, with_status,
  change_status, set_status,
}
use backend_new.Staff.Invariant.{Governed}
use backend_new.Staff.Steps.{begin, next, change, create, Reach-Governed}
use backend_new.Staff.Escalation.{holders, no_escalation}

abbrev member : ℕ → List RoleKey → Staff
member id roles = record {
  id = id;
  email = id ∷ [];
  full_name = [];
  phone = none;
  status = active;
  roles = roles;
  deactivated_at = none;
  password_hash = 0;
  must_change = false;
  failed_attempts = 0;
  locked_until = none;
  has_mfa = true;
}

-- Two admins, a sub-admin and an operator.
abbrev start : Db
start = record {
  staff =
      member 1 (super_admin ∷ [])
      ∷ member 2 (super_admin ∷ [])
      ∷ member 3 (sub_admin ∷ [])
      ∷ member 4 (other 0 ∷ [])
      ∷ [];
  sessions = [];
  roles =
      record { key = super_admin; permissions = 1 ∷ [] }
      ∷ record { key = other 0; permissions = [] }
      ∷ [];
  audits = [];
}

abbrev is_permission : ℕ → Bool
is_permission p = p == 1

abbrev admin_one : Actor
admin_one = record { staff_id = 1; permissions = 1 ∷ [] }

abbrev sub_three : Actor
sub_three = record { staff_id = 3; permissions = 1 ∷ [] }

start-Governed : Governed start
start-Governed = record { keyed = λ id. ground arith; governed = omega arith }

abbrev newcomer : CreateInput
newcomer = record { email = 9 ∷ []; full_name = []; phone = none; role_keys = super_admin ∷ [] }

Reach-Governed_example : Governed (set_status is_permission admin_one 2 100 suspended start).0
Reach-Governed_example =
    Reach-Governed is_permission start (set_status is_permission admin_one 2 100 suspended start).0
      start-Governed (next admin_one begin (change 2 100 suspended))

desk : Unit {0}
unfolding text_eq level_of can_manage role_set_problem put audit revoke_open actor_roles
    assert_outranks beyond assert_can_handle assert_roles_exist assert_another_super_admin
    create_staff new_staff update_staff updated with_status change_status set_status
desk = tt

one_suspends_two : (set_status is_permission admin_one 2 100 suspended start).1 ≡ ok tt
unfolding desk
one_suspends_two = refl

sub_admins_make_no_admin :
    (create_staff is_permission sub_three 5 0 newcomer start).1 ≡ err hierarchy
unfolding desk
sub_admins_make_no_admin = refl

sub_three_is_low : is_admin (level_of (actor_roles sub_three start)) ≡ false
unfolding desk
sub_three_is_low = refl

no_escalation_example :
    holders super_admin (create_staff is_permission sub_three 5 0 newcomer start).0
    ≡ holders super_admin start
no_escalation_example =
    no_escalation is_permission sub_three super_admin start
      (create_staff is_permission sub_three 5 0 newcomer start).0 refl sub_three_is_low
      (create 5 0 newcomer)
