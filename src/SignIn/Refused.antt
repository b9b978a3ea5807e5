-- ===== src/SignIn/Refused.antt =====
-- What a login that fails says and leaves.
use backend_new.Basics.{
  ℕ, ◌≡◌, inl, inr, refl, subst, Bool, true, Option, none, some, List, All, Text, find,
  Option-cases, Bool-cases, Result, ok, err, length, arith, is_after, is_none, ap, update_where,
  All-update_each, All-always, suc,
}
use backend_new.Staff.Store.{is_active}
use backend_new.SignIn.Store.{
  Db, credential_of, locked_out, inactive, password_changed, unknown_email, LoginOutcome, Session,
  Member, Principal, Credential, Refusal, invalid_credentials, account_locked, record_login, audit,
  put_credential, put_sessions, revoke,
}
use backend_new.SignIn.Password.{
  Env, SessionDto, login, login_with, account, record_password_failure, change_password,
  change_with, other_session, password_problem, sign_in, outcome_of,
}

-- The reply does not say whether the account exists: it is one refusal for all, or the lock.
pub data IsVague : Refusal → Type 0 where
  same_for_all : IsVague invalid_credentials
  wait : (seconds : ℕ) → IsVague (account_locked seconds)

-- Only the password's counters and the log of attempts differ.
pub record IsLeftAlone (before after : Db) : Type 0 where
  pub members : after.members ≡ before.members
  pub factors : after.factors ≡ before.factors
  pub sessions : after.sessions ≡ before.sessions
  pub audits : after.audits ≡ before.audits
  pub events : length after.events ≡ suc (length before.events)

record_password_failure-kept :
    (id now : ℕ) (db : Db)
    → ((record_password_failure id now db).0.members ≡ db.members)
      × ((record_password_failure id now db).0.factors ≡ db.factors)
      × ((record_password_failure id now db).0.sessions ≡ db.sessions)
      × ((record_password_failure id now db).0.audits ≡ db.audits)
      × ((record_password_failure id now db).0.events ≡ db.events)
unfolding record_password_failure put_credential
record_password_failure-kept id now db = elim (Bool-cases (record_password_failure id now db).1) [
  | inl h ↦ ground arith
  | inr h ↦ ground arith
]

noted :
    (o : LoginOutcome) (email : Text) (id : Option ℕ) (at : ℕ) (before db : Db)
    → (db.members ≡ before.members)
      × (db.factors ≡ before.factors)
      × (db.sessions ≡ before.sessions)
      × (db.audits ≡ before.audits)
      × (db.events ≡ before.events)
    → IsLeftAlone before (record_login o email id at db)
unfolding record_login
noted o email id at before db (m, f, s, a, e) = record {
  members = m;
  factors = f;
  sessions = s;
  audits = a;
  events = ap (λ l. suc (length l)) e;
}

same_kept :
    (db : Db)
    → (db.members ≡ db.members)
      × (db.factors ≡ db.factors)
      × (db.sessions ≡ db.sessions)
      × (db.audits ≡ db.audits)
      × (db.events ≡ db.events)
same_kept db = (refl, refl, refl, refl, refl)

refused :
    (A : Type 0) (a e : Refusal)
    → ◌≡◌ {A = Result Refusal A} (err a) (err e)
    → IsVague a
    → IsVague e
refused A a e h v = let same : a ≡ e = cc in subst IsVague same v

-- An open session of the caller's is the one that called.
abbrev pub IsOnly : Principal → Session → Type 0
IsOnly p s = (s.staff_id ≡ p.staff_id) → (is_none s.revoked ≡ true) → s.id ≡ p.session_id

module _ (mfa_enabled : Bool) (verifies : Text → ℕ → Bool) (hash_token : ℕ → ℕ) where
  login_with-Outcome :
      (env : Env) (email password : Text) (m : Member) (c : Credential) (db : Db)
      → (e : Refusal)
      → (login_with mfa_enabled verifies hash_token env email password m c db).1 ≡ err e
      → IsVague e
        × IsLeftAlone db (login_with mfa_enabled verifies hash_token env email password m c db).0
  unfolding login_with sign_in
  login_with-Outcome env email password m c db e h =
      elim (Bool-cases (is_after c.locked_until env.now)) [
        | inl locked ↦
            rw (locked, login_with)
              (
                refused SessionDto _ e (rw (locked, login_with) at h) (wait _),
                noted locked_out email (some m.id) env.db_now db db (same_kept db),
              )
        | inr unlocked ↦ elim (Bool-cases (verifies password c.password_hash)) [
          | inr wrong ↦
              rw (unlocked, login_with, wrong)
                (
                  refused SessionDto _ e (rw (unlocked, login_with, wrong) at h) same_for_all,
                  noted (outcome_of (record_password_failure m.id env.now db).1) email (some m.id)
                      env.db_now db (record_password_failure m.id env.now db).0
                      (record_password_failure-kept m.id env.now db),
                )
          | inl right ↦ elim (Bool-cases (is_active m.status)) [
            | inr gone ↦
                rw (unlocked, login_with, right, gone)
                  (
                    refused SessionDto _ e (rw (unlocked, login_with, right, gone) at h)
                        same_for_all,
                    noted inactive email (some m.id) env.db_now db db (same_kept db),
                  )
            | inl here ↦
                absurd (let bad = rw (unlocked, login_with, right, here, sign_in) at h in cc)
          ]
        ]
      ]

  -- A login that fails says only that the credentials are wrong, or that the account is locked and for
  -- how long; it opens no session, changes no member, factor or audit row, and logs one attempt.
  pub login_error :
      (env : Env) (email password : Text) (db : Db) (e : Refusal)
      → (login mfa_enabled verifies hash_token env email password db).1 ≡ err e
      → IsVague e × IsLeftAlone db (login mfa_enabled verifies hash_token env email password db).0
  unfolding login
  login_error env email password db e h = elim (Option-cases (account email db)) [
    | inl missing ↦
        rw (login, missing)
          (
            refused SessionDto _ e (rw (login, missing) at h) same_for_all,
            noted unknown_email email none env.db_now db db (same_kept db),
          )
    | inr ((m, c), here) ↦
        rw (login, here) (login_with-Outcome env email password m c db e (rw (login, here) at h))
  ]

  module _ (hash_password : Text → ℕ) where
    ended :
        (now : ℕ) (p : Principal) (sessions : List Session)
        → All (IsOnly p) (
            update_where
              (other_session mfa_enabled verifies hash_token hash_password p)
              (revoke now password_changed)
              sessions)
    ended now p sessions =
        All-update_each (other_session mfa_enabled verifies hash_token hash_password p)
          (λ s. Unit {0}) (IsOnly p) (revoke now password_changed) sessions
          (λ s other x mine still. absurd (cc)) (λ s other x mine still. ground arith)
          (All-always (λ s. true) (λ s. Unit {0}) sessions (λ s. tt))

    changed :
        (started now : ℕ) (p : Principal) (current chosen : Text) (c : Credential) (db : Db)
        → (change_with mfa_enabled verifies hash_token hash_password started now p current chosen c
            db).1
          ≡ ok tt
        → All
            (IsOnly p)
            (change_with mfa_enabled verifies hash_token hash_password started now p current chosen
              c db).0.sessions
    unfolding change_with put_sessions put_credential audit
    changed started now p current chosen c db h =
        elim (Bool-cases (is_after c.locked_until started)) [
          | inl locked ↦ absurd (let bad = rw (locked, change_with) at h in cc)
          | inr unlocked ↦ elim (Bool-cases (verifies current c.password_hash)) [
            | inr wrong ↦ absurd (let bad = rw (unlocked, change_with, wrong) at h in cc)
            | inl right ↦ elim (Bool-cases (password_problem chosen p.email)) [
              | inl weak ↦ absurd (let bad = rw (unlocked, change_with, right, weak) at h in cc)
              | inr strong ↦ elim (Bool-cases (verifies chosen c.password_hash)) [
                | inl same ↦
                    absurd (let bad = rw (unlocked, change_with, right, strong, same) at h in cc)
                | inr new ↦ rw (unlocked, change_with, right, strong, new) (ended now p db.sessions)
              ]
            ]
          ]
        ]

    -- A password change that succeeds ends every other session of the caller.
    pub change_password-IsOnly :
        (started now : ℕ) (p : Principal) (current chosen : Text) (db : Db)
        → (change_password mfa_enabled verifies hash_token hash_password started now p current
            chosen db).1
          ≡ ok tt
        → All
            (IsOnly p)
            (change_password mfa_enabled verifies hash_token hash_password started now p current
              chosen db).0.sessions
    unfolding change_password
    change_password-IsOnly started now p current chosen db h =
        elim (Option-cases (find (credential_of p.staff_id) db.credentials)) [
          | inl missing ↦ absurd (let bad = rw (missing, change_password) at h in cc)
          | inr (c, here) ↦
              rw (here, change_password)
                (changed started now p current chosen c db (rw (here, change_password) at h))
        ]
