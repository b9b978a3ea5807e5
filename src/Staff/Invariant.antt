-- ===== src/Staff/Invariant.antt =====
-- Whatever staff administration does, an active super admin is left.
use backend_new.Basics.{
  any, text_eq, any-eq_false, throw_if-ok, ℕ, ◌≡◌, ◌≤◌, refl, Bool, true, false, not, ◌&&◌, some,
  List, ◌∷◌, ◌==◌, count, find, find_sound, ok, arith, Bool-cases, Option-cases, inl, inr, subst,
  sym, ap, ◌∙◌, ◌>>◌, step-ok, count_others, count-update_found, count-update_where, update_where,
  ==_iff,
}
use backend_new.Staff.Hierarchy.{role_set_problem, super_admin, holds}
use backend_new.Staff.Store.{
  no_roles, incompatible_roles, email_taken, not_unique, Status, active, suspended, deactivated,
  Staff, Db, Actor, has_id, is_active, is_active_super, same_status, put, audit, revoke_open,
}
use backend_new.Staff.Admin.{
  is_empty, has_repeat, assert_roles_exist, assert_outranks, assert_can_handle, CreateInput,
  UpdateInput, create_checks, create_staff, new_staff, update_checks, update_staff, updated,
  removed, added, live_only, rank_check, role_checks, keeps_admin, may_touch,
  assert_another_super_admin, change_status, set_status, with_status, end_sessions, reset_password,
  with_password, reset_mfa, revoke_sessions,
}
use backend_new.Staff.Guards.{
  guarded-keeps, after_check-keeps, if-keeps, on_target-keeps, holds_kept,
}

-- No two rows share a key, and an active super admin is there.
pub record IsGoverned (staff : List Staff) : Type 0 where
  pub keyed : (id : ℕ) → count (has_id id) staff ≤ 1
  pub governed : 1 ≤ count is_active_super staff

-- A write to the row of a key that leaves the key alone.
module _ (id : ℕ) (f : Staff → Staff) (same : (s : Staff) → (f s).id ≡ s.id) where
  keyed_after :
      (staff : List Staff)
      → ((i : ℕ) → count (has_id i) staff ≤ 1)
      → (i : ℕ) → count (has_id i) (update_where (has_id id) f staff) ≤ 1
  keyed_after staff keyed i =
      rw (count-update_where (has_id i) (has_id id) f staff (λ x. ap (λ n. n == i) (same x)))
        (keyed i)

  -- The row that is written stays an active super admin, or another one is there.
  pub IsGoverned-by_row :
      (staff : List Staff) (t : Staff)
      → find (has_id id) staff ≡ some t
      → (is_active_super t ≡ true → is_active_super (f t) ≡ true)
      → IsGoverned staff
      → IsGoverned (update_where (has_id id) f staff)
  IsGoverned-by_row staff t here stays g =
      let more = count-update_found is_active_super (has_id id) f staff t (g.keyed id) here stays in
      let before = g.governed in
      record { keyed = keyed_after staff g.keyed; governed = omega arith }

  pub IsGoverned-by_others :
      (staff : List Staff)
      → (count (λ s. not (has_id id s) && is_active_super s) staff == 0) ≡ false
      → IsGoverned staff
      → IsGoverned (update_where (has_id id) f staff)
  IsGoverned-by_others staff others g =
      let more = count_others is_active_super (has_id id) f staff in
      record { keyed = keyed_after staff g.keyed; governed = ground arith }

abbrev pub Governed : Db → Type 0
Governed db = IsGoverned db.staff

-- A row that is created takes a key that no other row has.
created_fresh :
    (is_permission : ℕ → Bool) (actor : Actor) (fresh_id : ℕ) (input : CreateInput) (db : Db)
    → create_checks is_permission actor fresh_id input db ≡ ok tt
    → count (has_id fresh_id) db.staff ≡ 0
created_fresh is_permission actor fresh_id input db e =
    let (_, r1) = throw_if-ok (is_empty input.role_keys) no_roles _ e in
    let (_, r2) = throw_if-ok (role_set_problem input.role_keys) incompatible_roles _ r1 in
    let (_, r3) = step-ok (assert_roles_exist input.role_keys db) _ r2 in
    let (_, r4) = step-ok (assert_outranks actor input.role_keys db) _ r3 in
    let (_, r5) = step-ok (assert_can_handle is_permission actor input.role_keys db) _ r4 in
    let (_, r6) = throw_if-ok (any (λ s. text_eq s.email input.email) db.staff) email_taken _ r5 in
    let (_, r7) = throw_if-ok (has_repeat input.role_keys) not_unique _ r6 in
    let (new, _) = throw_if-ok (any (has_id fresh_id) db.staff) not_unique _ r7 in
    any-eq_false (has_id fresh_id) db.staff new

pub create_staff-Governed :
    (is_permission : ℕ → Bool) (actor : Actor) (fresh_id hash : ℕ) (input : CreateInput) (db : Db)
    → Governed db
    → Governed (create_staff is_permission actor fresh_id hash input db).0
unfolding create_staff audit new_staff
create_staff-Governed is_permission actor fresh_id hash input db g =
    guarded-keeps Governed (create_checks is_permission actor fresh_id input db) db _ g λ e.
      record {
        keyed = λ i.
            let few = g.keyed i in
            keyed_new (created_fresh is_permission actor fresh_id input db e) i few;
        governed = let before = g.governed in ground arith;
      }
  where
    keyed_new :
        count (has_id fresh_id) db.staff ≡ 0
        → (i : ℕ) → count (has_id i) db.staff ≤ 1
        → count (has_id i) (new_staff fresh_id hash input ∷ db.staff) ≤ 1
    keyed_new fresh i few = elim (Bool-cases (fresh_id == i)) [
      | inl own ↦
          let none_yet =
            subst (λ n. count (has_id n) db.staff ≡ 0) ((==_iff fresh_id i).0 own) fresh in
          ground arith
      | inr apart ↦ rw apart few
    ]

-- A change of roles that takes none of an active super admin's level.
stays_super :
    (is_permission : ℕ → Bool) (t : Staff) (input : UpdateInput)
    → (holds super_admin (removed is_permission t input.role_keys) && is_active t.status) ≡ false
    → is_active_super t ≡ true
    → is_active_super (updated is_permission t input t) ≡ true
unfolding updated
stays_super is_permission t input calm before =
    let kept =
      holds_kept super_admin t.roles (removed is_permission t input.role_keys)
        (added is_permission t input.role_keys) in
    ground (arith, kept)

others_left :
    (id : ℕ) (db : Db)
    → assert_another_super_admin id db ≡ ok tt
    → (count (λ s. not (has_id id s) && is_active_super s) db.staff == 0) ≡ false
unfolding assert_another_super_admin
others_left id db e = ground arith

-- The guard before a write that may take the level away.
keeps_admin-Governed :
    (is_permission : ℕ → Bool) (f : Staff → Staff) (t : Staff) (losing : Bool) (id : ℕ) (db : Db)
    → ((s : Staff) → (f s).id ≡ s.id)
    → find (has_id id) db.staff ≡ some t
    → keeps_admin is_permission t losing db ≡ ok tt
    → (losing ≡ false → is_active_super t ≡ true → is_active_super (f t) ≡ true)
    → Governed db
    → IsGoverned (update_where (has_id id) f db.staff)
keeps_admin-Governed is_permission f t true id db same here e stays g =
    let is : t.id ≡ id = (==_iff t.id id).0 (find_sound (has_id id) db.staff t here) in
    IsGoverned-by_others id f same db.staff
      (others_left id db (subst (λ n. assert_another_super_admin n db ≡ ok tt) is e)) g
keeps_admin-Governed is_permission f t false id db same here e stays g =
    IsGoverned-by_row id f same db.staff t here (stays refl) g

pub update_staff-Governed :
    (is_permission : ℕ → Bool) (actor : Actor) (id : ℕ) (input : UpdateInput) (db : Db)
    → Governed db
    → Governed (update_staff is_permission actor id input db).0
unfolding update_staff put audit updated
update_staff-Governed is_permission actor id input db g =
    elim (Option-cases (find (has_id id) db.staff)) [
      | inl missing ↦ rw (missing, update_staff) g
      | inr (t, here) ↦
          rw (here, update_staff)
            (guarded-keeps Governed (update_checks is_permission actor t input db) db _ g λ e.
              let (_, r1) = step-ok (live_only t) _ e in
              let (_, r2) = step-ok (rank_check is_permission actor t db) _ r1 in
              let (_, r3) = step-ok (role_checks is_permission actor t input.role_keys db) _ r2 in
              keeps_admin-Governed is_permission (updated is_permission t input) t
                (holds super_admin (removed is_permission t input.role_keys) && is_active t.status)
                id db (λ s. refl) here r3 (stays_super is_permission t input) g)
    ]

stays_on :
    (is_permission : ℕ → Bool) (now : ℕ) (status : Status) (t : Staff)
    → (not (is_active status) && holds super_admin t.roles) ≡ false
    → is_active_super t ≡ true
    → is_active_super (with_status is_permission now status t) ≡ true
unfolding with_status
stays_on is_permission now active t calm before = ground arith
stays_on is_permission now suspended t calm before = ground arith
stays_on is_permission now deactivated t calm before = ground arith

pub end_sessions-staff :
    (is_permission : ℕ → Bool) (id now : ℕ) (status : Status) (db : Db)
    → (end_sessions is_permission id now status db).staff ≡ db.staff
unfolding revoke_open
end_sessions-staff is_permission id now active db = refl
end_sessions-staff is_permission id now suspended db = refl
end_sessions-staff is_permission id now deactivated db = refl

with_status-id :
    (is_permission : ℕ → Bool) (now : ℕ) (status : Status) (s : Staff)
    → (with_status is_permission now status s).id ≡ s.id
unfolding with_status
with_status-id is_permission now active s = refl
with_status-id is_permission now suspended s = refl
with_status-id is_permission now deactivated s = refl

change_status-Governed :
    (is_permission : ℕ → Bool) (actor : Actor) (t : Staff) (id now : ℕ) (status : Status) (db : Db)
    → find (has_id id) db.staff ≡ some t
    → Governed db
    → Governed (change_status is_permission actor t now status db).0
unfolding change_status audit put
change_status-Governed is_permission actor t id now status db here g =
    let is : t.id ≡ id = (==_iff t.id id).0 (find_sound (has_id id) db.staff t here) in
    guarded-keeps Governed
      (live_only t
        >> keeps_admin is_permission t (not (is_active status) && holds super_admin t.roles) db)
      db _ g
      λ e.
        let (_, r1) = step-ok (live_only t) _ e in
        let written =
          keeps_admin-Governed is_permission (with_status is_permission now status) t
            (not (is_active status) && holds super_admin t.roles) id db
            (with_status-id is_permission now status) here r1 (stays_on is_permission now status t)
            g in
        subst IsGoverned (sym (end_sessions-staff is_permission t.id now status _)) (
          subst
            (λ n.
              IsGoverned (update_where (has_id n) (with_status is_permission now status) db.staff))
            (sym is) written)

pub set_status-Governed :
    (is_permission : ℕ → Bool) (actor : Actor) (id now : ℕ) (status : Status) (db : Db)
    → Governed db
    → Governed (set_status is_permission actor id now status db).0
unfolding set_status
set_status-Governed is_permission actor id now status db g =
    on_target-keeps Governed actor id db _ g λ t apart here.
      after_check-keeps Governed (may_touch is_permission actor t db) db _ g (
        if-keeps Governed (same_status t.status status) (db, ok tt)
          (change_status is_permission actor t now status db) g
          (change_status-Governed is_permission actor t id now status db here g))

-- A write that leaves roles and status alone.
calm-Governed :
    (f : Staff → Staff) (id : ℕ) (t : Staff) (db : Db)
    → ((s : Staff) → (f s).id ≡ s.id)
    → is_active_super (f t) ≡ is_active_super t
    → find (has_id id) db.staff ≡ some t
    → Governed db
    → IsGoverned (update_where (has_id id) f db.staff)
calm-Governed f id t db same calm here g =
    IsGoverned-by_row id f same db.staff t here (λ h. calm ∙ h) g

pub reset_password-Governed :
    (is_permission : ℕ → Bool) (actor : Actor) (id now hash : ℕ) (db : Db)
    → Governed db
    → Governed (reset_password is_permission actor id now hash db).0
unfolding reset_password put audit revoke_open with_password
reset_password-Governed is_permission actor id now hash db g =
    on_target-keeps Governed actor id db _ g λ t apart here.
      guarded-keeps Governed (live_only t >> may_touch is_permission actor t db) db _ g
        λ _. calm-Governed (with_password is_permission hash) id t db (λ s. refl) refl here g

pub reset_mfa-Governed :
    (is_permission : ℕ → Bool) (actor : Actor) (id now : ℕ) (db : Db)
    → Governed db
    → Governed (reset_mfa is_permission actor id now db).0
unfolding reset_mfa put audit revoke_open
reset_mfa-Governed is_permission actor id now db g =
    on_target-keeps Governed actor id db _ g λ t apart here.
      guarded-keeps Governed (live_only t >> may_touch is_permission actor t db) db _ g
        λ _. calm-Governed (λ s. record s { has_mfa = false }) id t db (λ s. refl) refl here g

pub revoke_sessions-Governed :
    (is_permission : ℕ → Bool) (actor : Actor) (id now : ℕ) (db : Db)
    → Governed db
    → Governed (revoke_sessions is_permission actor id now db).0
unfolding revoke_sessions audit revoke_open
revoke_sessions-Governed is_permission actor id now db g =
    on_target-keeps Governed actor id db _ g
      λ t apart here. guarded-keeps Governed (may_touch is_permission actor t db) db _ g λ _. g
