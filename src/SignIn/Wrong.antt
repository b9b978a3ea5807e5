-- ===== src/SignIn/Wrong.antt =====
-- What a wrong password does to an account, and what a lock does to the password steps
-- (src/services/staff-auth.service.ts).
use backend_new.Basics.{
  ℕ, ◌+◌, ◌≡◌, ◌<◌, refl, sym, ap, ◌∙◌, subst, Bool, true, false, some, List, [], ◌∷◌, All, Text,
  find, find_sound, find-update_where, length, ltb, ◌==◌, is_after, arith, err,
}
use backend_new.SignIn.Store.{
  Member, Credential, Db, LoginOutcome, Principal, locked_out, has_email, credential_of,
  locked_error, record_login, put_credential,
}
use backend_new.SignIn.Password.{
  Env, until, failed_once, locked_now, record_password_failure, account, outcome_of, login,
  login_with, change_password, change_with,
}

-- The two rows of an account.
pub record IsAccount (email : Text) (m : Member) (c : Credential) (db : Db) : Type 0 where
  pub member : find (has_email email) db.members ≡ some m
  pub credential : find (credential_of m.id) db.credentials ≡ some c

account_of :
    (email : Text) (db : Db) (m : Member) (c : Credential)
    → IsAccount email m c db
    → account email db ≡ some (m, c)
account_of email db m c a = let fm = a.member in let fc = a.credential in rw (account, fm, fc)

module _ (email : Text) (m : Member) (c : Credential) (db : Db) (a : IsAccount email m c db) where
  -- A write to the credential that keeps its key.
  written :
      (f : Credential → Credential)
      → ((x : Credential) → (f x).staff_id ≡ x.staff_id)
      → IsAccount email m (f c) (put_credential m.id f db)
  unfolding put_credential
  written f same =
      let mine = find_sound (credential_of m.id) db.credentials c a.credential in
      record {
        member = a.member;
        credential =
            find-update_where (credential_of m.id) (credential_of m.id) f db.credentials c mine
              (λ x. ap (λ n. n == m.id) (same x)) a.credential;
      }

  failure_counted :
      (now : ℕ)
      → c.failed_attempts + 1 < 5
      → record_password_failure m.id now db ≡ (put_credential m.id failed_once db, false)
  unfolding record_password_failure
  failure_counted now few =
      let found = (written failed_once (λ x. refl)).credential in
      let test : ltb (c.failed_attempts + 1) 5 ≡ true = ground arith in
      rw (record_password_failure, found, test)

  failure_locks :
      (now : ℕ)
      → c.failed_attempts ≡ 4
      → record_password_failure m.id now db
        ≡ (put_credential m.id (locked_now now) (put_credential m.id failed_once db), true)
  unfolding record_password_failure
  failure_locks now many =
      let found = (written failed_once (λ x. refl)).credential in
      let test : ltb (c.failed_attempts + 1) 5 ≡ false = ground arith in
      rw (record_password_failure, found, test)

module _ (mfa_enabled : Bool) (verifies : Text → ℕ → Bool) (hash_token : ℕ → ℕ) (email : Text) where
  -- A wrong password, and where it goes.
  login-wrong :
      (env : Env) (password : Text) (m : Member) (c : Credential) (db : Db)
      → IsAccount email m c db
      → is_after c.locked_until env.now ≡ false
      → verifies password c.password_hash ≡ false
      → (outcome : LoginOutcome) × ((login mfa_enabled verifies hash_token env email password db).0
          ≡ record_login outcome email
              (some m.id)
              env.db_now
              (record_password_failure m.id env.now db).0)
  unfolding login login_with
  login-wrong env password m c db a open_now wrong =
      let here = account_of email db m c a in
      (outcome_of (record_password_failure m.id env.now db).1, rw (login, here, open_now, wrong))

  wrong-counted :
      (env : Env) (password : Text) (m : Member) (c : Credential) (db : Db)
      → IsAccount email m c db
      → is_after c.locked_until env.now ≡ false
      → verifies password c.password_hash ≡ false
      → c.failed_attempts + 1 < 5
      → IsAccount email m
          (failed_once c)
          (login mfa_enabled verifies hash_token env email password db).0
  unfolding record_login
  wrong-counted env password m c db a open_now wrong few =
      let (outcome, is) = login-wrong env password m c db a open_now wrong in
      let counted = ap (λ r. r.0) (failure_counted email m c db a env.now few) in
      let w = written email m c db a failed_once (λ x. refl) in
      subst (IsAccount email m (failed_once c))
        (sym (is ∙ ap (record_login outcome email (some m.id) env.db_now) counted))
        (record { member = w.member; credential = w.credential })

  pub wrong-locks :
      (env : Env) (password : Text) (m : Member) (c : Credential) (db : Db)
      → IsAccount email m c db
      → is_after c.locked_until env.now ≡ false
      → verifies password c.password_hash ≡ false
      → c.failed_attempts ≡ 4
      → IsAccount email m
          (locked_now env.now (failed_once c))
          (login mfa_enabled verifies hash_token env email password db).0
  unfolding record_login
  wrong-locks env password m c db a open_now wrong many =
      let (outcome, is) = login-wrong env password m c db a open_now wrong in
      let locks = ap (λ r. r.0) (failure_locks email m c db a env.now many) in
      let w =
        written email m (failed_once c) (put_credential m.id failed_once db)
          (written email m c db a failed_once (λ x. refl)) (locked_now env.now) (λ x. refl) in
      subst (IsAccount email m (locked_now env.now (failed_once c)))
        (sym (is ∙ ap (record_login outcome email (some m.id) env.db_now) locks))
        (record { member = w.member; credential = w.credential })

  -- Sign-ins for this email, one after the other.
  unfoldable pub logins : List (Env × Text) → Db → Db
  logins [] db = db
  logins ((env, password) ∷ gs) db =
      logins gs (login mfa_enabled verifies hash_token env email password db).0

  -- A sign-in that is not locked out, with a wrong password.
  abbrev pub IsWrong : Credential → Env × Text → Type 0
  IsWrong c g = (is_after c.locked_until g.0.now ≡ false) × (verifies g.1 c.password_hash ≡ false)

  pub run-counted :
      (gs : List (Env × Text)) (m : Member) (c : Credential) (db : Db)
      → IsAccount email m c db
      → All (IsWrong c) gs
      → c.failed_attempts + length gs ≡ 4
      → (c' : Credential) × IsAccount email m c' (logins gs db)
        × (c'.failed_attempts ≡ 4)
        × (c'.locked_until ≡ c.locked_until)
        × (c'.password_hash ≡ c.password_hash)
  unfolding logins
  run-counted [] m c db a wrong four = (c, a, omega arith, refl, refl)
  run-counted ((env, password) ∷ gs) m c db a wrong four =
      let a' = wrong-counted env password m c db a wrong.0.0 wrong.0.1 (omega arith) in
      run-counted gs m (failed_once c)
        (login mfa_enabled verifies hash_token env email password db).0 a' wrong.1 (omega arith)

  pub locked_login :
      (env : Env) (password : Text) (m : Member) (c : Credential) (db : Db)
      → IsAccount email m c db
      → is_after c.locked_until env.now ≡ true
      → login mfa_enabled verifies hash_token env email password db ≡ (
        record_login locked_out email (some m.id) env.db_now db,
        err (locked_error (until c.locked_until) env.now),
      )
  unfolding login login_with
  locked_login env password m c db a locked =
      let here = account_of email db m c a in rw (login, here, locked)

  pub locked_change :
      (hash_password : Text → ℕ) (started now : ℕ) (p : Principal) (current next : Text)
      (m : Member) (c : Credential) (db : Db)
      → IsAccount email m c db
      → p.staff_id ≡ m.id
      → is_after c.locked_until started ≡ true
      → change_password mfa_enabled verifies hash_token hash_password started now p current next db
        ≡ (db, err (locked_error (until c.locked_until) started))
  unfolding change_password change_with
  locked_change hash_password started now p current next m c db a is locked =
      let here : find (credential_of p.staff_id) db.credentials ≡ some c = rw is a.credential in
      rw (change_password, here, locked)
