-- ===== src/Staff/Steps.antt =====
-- The writes of staff administration as steps, by anyone who is on the staff.
use backend_new.Basics.{ℕ, Bool}
use backend_new.Staff.Store.{Status, Db, Actor}
use backend_new.Staff.Admin.{
  CreateInput, UpdateInput, create_staff, update_staff, set_status, reset_password, reset_mfa,
  revoke_sessions,
}
use backend_new.Staff.Invariant.{
  Governed, create_staff-Governed, update_staff-Governed, set_status-Governed,
  reset_password-Governed, reset_mfa-Governed, revoke_sessions-Governed,
}

-- A call by `actor`.
pub data Step (is_permission : ℕ → Bool) (actor : Actor) (db : Db) : Db → Type 0 where
  create :
      (fresh_id hash : ℕ) (input : CreateInput)
      → Step is_permission actor db (create_staff is_permission actor fresh_id hash input db).0
  update :
      (id : ℕ) (input : UpdateInput)
      → Step is_permission actor db (update_staff is_permission actor id input db).0
  change :
      (id now : ℕ) (status : Status)
      → Step is_permission actor db (set_status is_permission actor id now status db).0
  new_password :
      (id now hash : ℕ)
      → Step is_permission actor db (reset_password is_permission actor id now hash db).0
  new_mfa : (id now : ℕ) → Step is_permission actor db (reset_mfa is_permission actor id now db).0
  revoke :
      (id now : ℕ) → Step is_permission actor db (revoke_sessions is_permission actor id now db).0

-- Calls by anyone, one after the other.
pub data Reach (is_permission : ℕ → Bool) (start : Db) : Db → Type 0 where
  begin : Reach is_permission start start
  next :
      {db db' : Db} (actor : Actor)
      → Reach is_permission start db
      → Step is_permission actor db db'
      → Reach is_permission start db'

Step-Governed :
    (is_permission : ℕ → Bool) (actor : Actor) (db db' : Db)
    → Step is_permission actor db db'
    → Governed db
    → Governed db'
Step-Governed is_permission actor db db' (create fresh_id hash input) g =
    create_staff-Governed is_permission actor fresh_id hash input db g
Step-Governed is_permission actor db db' (update id input) g =
    update_staff-Governed is_permission actor id input db g
Step-Governed is_permission actor db db' (change id now status) g =
    set_status-Governed is_permission actor id now status db g
Step-Governed is_permission actor db db' (new_password id now hash) g =
    reset_password-Governed is_permission actor id now hash db g
Step-Governed is_permission actor db db' (new_mfa id now) g =
    reset_mfa-Governed is_permission actor id now db g
Step-Governed is_permission actor db db' (revoke id now) g =
    revoke_sessions-Governed is_permission actor id now db g

-- From tables with an active super admin and one row for each key, any sequence of calls of staff
-- administration, each run as a whole, by whoever and with whatever input, leaves an active super
-- admin (and one row for each key).
pub Reach-Governed :
    (is_permission : ℕ → Bool) (start db : Db)
    → Governed start
    → Reach is_permission start db
    → Governed db
Reach-Governed is_permission start db g begin = g
Reach-Governed is_permission start db g (next {db = before} actor r s) =
    Step-Governed is_permission actor before db s (Reach-Governed is_permission start before g r)
