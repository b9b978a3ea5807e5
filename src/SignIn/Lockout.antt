-- ===== src/SignIn/Lockout.antt =====
-- Wrong passwords lock the password steps (src/services/staff-auth.service.ts).
use backend_new.Basics.{
  ℕ, ◌+◌, ◌≡◌, ◌<◌, refl, sym, ap, ◌∙◌, subst, Bool, true, false, some, List, All, Text, find,
  length, is_after, arith, err,
}
use backend_new.SignIn.Store.{
  Member, Credential, Db, Principal, locked_out, has_email, credential_of, lockout_ms, locked_error,
  record_login,
}
use backend_new.SignIn.Password.{Env, until, failed_once, locked_now, login, change_password}
use backend_new.SignIn.Wrong.{
  IsAccount, IsWrong, logins, wrong-locks, run-counted, locked_login, locked_change,
}

-- Both password steps of the member are refused, whatever the password, and count nothing.
pub record IsLocked (mfa_enabled : Bool) (verifies : Text → ℕ → Bool) (hash_token : ℕ → ℕ)
    (email : Text) (m : Member) (until_ms : ℕ) (db : Db) : Type 0 where
  pub no_login :
      (env : Env) (password : Text)
      → env.now < until_ms
      → login mfa_enabled verifies hash_token env email password db ≡ (
        record_login locked_out email (some m.id) env.db_now db,
        err (locked_error until_ms env.now),
      )
  pub no_change :
      (hash_password : Text → ℕ) (started now : ℕ) (p : Principal) (current next : Text)
      → p.staff_id ≡ m.id
      → started < until_ms
      → change_password mfa_enabled verifies hash_token hash_password started now p current next db
        ≡ (db, err (locked_error until_ms started))

-- What may come while the lock stands: sign-ins with the email and changes of the member's password,
-- and whatever else leaves the two rows of the account.
pub data Later (mfa_enabled : Bool) (verifies : Text → ℕ → Bool) (hash_token : ℕ → ℕ) (email : Text)
    (m : Member) (until_ms : ℕ) (locked : Db) : Db → Type 0 where
  at_once : Later mfa_enabled verifies hash_token email m until_ms locked locked
  try_login :
      {db : Db}
      → Later mfa_enabled verifies hash_token email m until_ms locked db
      → (env : Env) (password : Text) → env.now < until_ms
      → Later mfa_enabled verifies hash_token email m until_ms locked
          (login mfa_enabled verifies hash_token env email password db).0
  try_change :
      {db : Db}
      → Later mfa_enabled verifies hash_token email m until_ms locked db
      → (hash_password : Text → ℕ) (started now : ℕ) (p : Principal) (current next : Text)
      → p.staff_id ≡ m.id
      → started < until_ms
      → Later mfa_enabled verifies hash_token email m until_ms locked
          (change_password mfa_enabled verifies hash_token hash_password started now p current next
            db).0
  aside :
      {db : Db}
      → Later mfa_enabled verifies hash_token email m until_ms locked db
      → (db' : Db) → find (has_email email) db'.members ≡ find (has_email email) db.members
      → find (credential_of m.id) db'.credentials ≡ find (credential_of m.id) db.credentials
      → Later mfa_enabled verifies hash_token email m until_ms locked db'

module _ (mfa_enabled : Bool) (verifies : Text → ℕ → Bool) (hash_token : ℕ → ℕ) (email : Text)
    (m : Member) (c : Credential) (until_ms : ℕ) where
  -- The lock keeps the rows of the account.
  Later-IsAccount :
      {locked db : Db}
      → Later mfa_enabled verifies hash_token email m until_ms locked db
      → c.locked_until ≡ some until_ms
      → IsAccount email m c locked
      → IsAccount email m c db
  unfolding record_login
  Later-IsAccount at_once is a = a
  Later-IsAccount {locked} (try_login {db} before env password early) is a =
      let b = Later-IsAccount before is a in
      let stands : is_after c.locked_until env.now ≡ true = rw is (ground arith) in
      subst (λ r. IsAccount email m c r.0)
        (sym (locked_login mfa_enabled verifies hash_token email env password m c db b stands))
        (record { member = b.member; credential = b.credential })
  Later-IsAccount {locked}
        (try_change {db} before hash_password started now p current next own early) is a =
      let b = Later-IsAccount before is a in
      let stands : is_after c.locked_until started ≡ true = rw is (ground arith) in
      subst (λ r. IsAccount email m c r.0)
        (sym (
          locked_change mfa_enabled verifies hash_token email hash_password started now p current
            next m c db b own stands))
        b
  Later-IsAccount (aside before db' members credentials) is a =
      let b = Later-IsAccount before is a in
      record { member = members ∙ b.member; credential = credentials ∙ b.credential }

  IsAccount-IsLocked :
      (db : Db)
      → IsAccount email m c db
      → c.locked_until ≡ some until_ms
      → IsLocked mfa_enabled verifies hash_token email m until_ms db
  IsAccount-IsLocked db b is = record {
    no_login = λ env password early.
        let stands : is_after c.locked_until env.now ≡ true = rw is (ground arith) in
        locked_login mfa_enabled verifies hash_token email env password m c db b stands
        ∙ ap
            (λ o. (
              record_login locked_out email (some m.id) env.db_now db,
              err (locked_error (until o) env.now),
            ))
            is;
    no_change = λ hash_password started now p current next own early.
        let stands : is_after c.locked_until started ≡ true = rw is (ground arith) in
        locked_change mfa_enabled verifies hash_token email hash_password started now p current next
          m c db b own stands
        ∙ ap (λ o. (db, err (locked_error (until o) started))) is;
  }

-- Wrong passwords in a row, the fifth that is counted being the last, lock an account that has no lock
-- in force when they come (it never had one, or the one that it had ran out): from then on, until
-- fifteen minutes after the last of them, every sign-in with its email is refused as locked, with the
-- right password as well, and so is every change of its password; a refused sign-in writes its event
-- and nothing else. This holds right after the last wrong password and after any number of further
-- sign-ins and changes within that time, and of anything else that leaves the account's two rows; a
-- reset by an administrator, which writes the credential, is not among these.
pub wrong_passwords-IsLocked :
    (mfa_enabled : Bool) (verifies : Text → ℕ → Bool) (hash_token : ℕ → ℕ) (email : Text)
    (gs : List (Env × Text)) (env : Env) (password : Text) (m : Member) (c : Credential) (db : Db)
    → IsAccount email m c db
    → All (IsWrong mfa_enabled verifies hash_token email c) gs
    → IsWrong mfa_enabled verifies hash_token email c (env, password)
    → c.failed_attempts + length gs ≡ 4
    → {db' : Db}
    → Later mfa_enabled verifies hash_token email m
        (env.now + lockout_ms)
        (login mfa_enabled verifies hash_token env email password
          (logins mfa_enabled verifies hash_token email gs db)).0
        db'
    → IsLocked mfa_enabled verifies hash_token email m (env.now + lockout_ms) db'
wrong_passwords-IsLocked mfa_enabled verifies hash_token email gs env password m c db a wrong
      last_wrong four {db'} later =
    let (c', a', many, until', same) =
      run-counted mfa_enabled verifies hash_token email gs m c db a wrong four in
    let open_now : is_after c'.locked_until env.now ≡ false = rw until' last_wrong.0 in
    let wrong' : verifies password c'.password_hash ≡ false = rw same last_wrong.1 in
    let b =
      wrong-locks mfa_enabled verifies hash_token email env password m c'
        (logins mfa_enabled verifies hash_token email gs db) a' open_now wrong' many in
    let c'' = locked_now env.now (failed_once c') in
    IsAccount-IsLocked mfa_enabled verifies hash_token email m c'' (env.now + lockout_ms) db'
      (Later-IsAccount mfa_enabled verifies hash_token email m c'' (env.now + lockout_ms) later refl
        b)
      refl
