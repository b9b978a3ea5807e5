-- ===== src/SignIn/Password.antt =====
-- The password step of src/services/staff-auth.service.ts: `login` and `changePassword`.
use backend_new.Basics.{
  ℕ, ◌+◌, Bool, true, false, not, ◌&&◌, ◌||◌, Option, none, some, List, [], ◌∷◌, ltb, leb, map,
  ◌==◌, Text, find, any, length, is_none, is_after, if◌then◌else◌, Result, ok, err,
}
use backend_new.Staff.Store.{is_active}
use backend_new.SignIn.Store.{
  Member, Credential, Factor, Session, password_lockout, password_changed, LoginOutcome,
  unknown_email, locked_out, bad_password, inactive, success, signed_in, password_was_changed, Db,
  Refusal, invalid_credentials, no_password, wrong_current, weak_password, same_password, MfaState,
  verified, verify_required, setup_required, Principal, has_email, credential_of, confirmed_of,
  session_id, revoke, pending_ttl_ms, session_ttl_ms, lockout_ms, max_failed_passwords,
  locked_error, record_login, audit, put_credential, put_sessions, touch_login,
}

-- `toLowerCase`, of ASCII letters; texts are counted in code points.
abbrev pub lower : ℕ → ℕ
lower c = if leb 65 c && leb c 90 then c + 32 else c

-- `email.split("@")[0]`
abbrev pub local_part : Text → Text
local_part [] = []
local_part (c ∷ cs) = if c == 64 then [] else c ∷ local_part cs

abbrev pub starts_with : Text → Text → Bool
starts_with [] text = true
starts_with (p ∷ ps) [] = false
starts_with (p ∷ ps) (c ∷ cs) = (p == c) && starts_with ps cs

-- `text.includes(part)`
abbrev pub contains : Text → Text → Bool
contains part [] = starts_with part []
contains part (c ∷ cs) = starts_with part (c ∷ cs) || contains part cs

-- `passwordProblem`
unfoldable pub password_problem : Text → Text → Bool
password_problem password email =
    ltb (length password) 12
    || (ltb 256 (length password) || contains (map lower (local_part email)) (map lower password))

-- The clocks of the process and of the database, and what is fresh: a token and a session's key.
pub record Env : Type 0 where
  pub now : ℕ
  pub db_now : ℕ
  pub token : ℕ
  pub session : ℕ

pub record SessionDto : Type 0 where
  pub access_token : ℕ
  pub expires_at : ℕ
  pub mfa : MfaState

abbrev pub until : Option ℕ → ℕ
until none = 0
until (some t) = t

abbrev pub failed_once : Credential → Credential
failed_once c = record c { failed_attempts = c.failed_attempts + 1 }

abbrev pub locked_now : ℕ → Credential → Credential
locked_now now c = record c { failed_attempts = 0; locked_until = some (now + lockout_ms) }

-- The count after one more wrong password.
abbrev pub failures : Option Credential → ℕ
failures none = 0
failures (some c) = c.failed_attempts

unfoldable pub record_password_failure : ℕ → ℕ → Db → Db × Bool
record_password_failure id now db =
    let counted = put_credential id failed_once db in
    if ltb (failures (find (credential_of id) counted.credentials)) max_failed_passwords
    then (counted, false)
    else (put_credential id (locked_now now) counted, true)

abbrev pub is_verified : MfaState → Bool
is_verified verified = true
is_verified _ = false

abbrev pub outcome_of : Bool → LoginOutcome
outcome_of true = locked_out
outcome_of false = bad_password

-- The account behind an email.
abbrev pub account : Text → Db → Option (Member × Credential)
account email db = elim (find (has_email email) db.members) [
  | none ↦ none
  | some m ↦ elim (find (credential_of m.id) db.credentials) [ none ↦ none | some c ↦ some (m, c) ]
]

-- `verifies` is the check of a password against a hash, `hash_password` and `hash_token` the hashes.
module _ (mfa_enabled : Bool) (verifies : Text → ℕ → Bool) (hash_token : ℕ → ℕ) where
  unfoldable pub mfa_state : Member → List Factor → MfaState
  mfa_state m factors =
      if not mfa_enabled || not m.mfa_required
      then verified
      else if any (confirmed_of m.id) factors
      then verify_required
      else setup_required

  unfoldable pub new_session : Env → Member → MfaState → Session
  new_session env m mfa = record {
    id = env.session;
    staff_id = m.id;
    token_hash = hash_token env.token;
    expires_at = env.now + (if is_verified mfa then session_ttl_ms else pending_ttl_ms);
    last_seen_at = env.db_now;
    mfa_verified_at = if is_verified mfa then some env.now else none;
    mfa_failed_attempts = 0;
    revoked = none;
  }

  abbrev pub cleared : Credential → Credential
  cleared c = record c { failed_attempts = 0; locked_until = none }

  abbrev pub greet : Env → Member → MfaState → Db → Db
  greet env m verified db =
      audit m.id signed_in
        (record_login success m.email (some m.id) env.db_now (touch_login m.id env.now db))
  greet env m _ db = record_login success m.email (some m.id) env.db_now db

  unfoldable pub sign_in : Env → Member → Db → Db × Result Refusal SessionDto
  sign_in env m db =
      let mfa = mfa_state m db.factors in
      let opened = put_credential m.id cleared db in
      (
        greet env m mfa (record opened { sessions = new_session env m mfa ∷ opened.sessions }),
        ok (record {
          access_token = env.token;
          expires_at = env.now + (if is_verified mfa then session_ttl_ms else pending_ttl_ms);
          mfa = mfa;
        }),
      )

  unfoldable pub login_with :
      Env → Text → Text → Member → Credential → Db → Db × Result Refusal SessionDto
  login_with env email password m c db =
      if is_after c.locked_until env.now
      then (
        record_login locked_out email (some m.id) env.db_now db,
        err (locked_error (until c.locked_until) env.now),
      )
      else if not (verifies password c.password_hash)
      then (
        record_login (outcome_of (record_password_failure m.id env.now db).1) email (some m.id)
            env.db_now (record_password_failure m.id env.now db).0,
        err invalid_credentials,
      )
      else if not (is_active m.status)
      then (record_login inactive email (some m.id) env.db_now db, err invalid_credentials)
      else sign_in env m db

  unfoldable pub login : Env → Text → Text → Db → Db × Result Refusal SessionDto
  login env email password db = elim (account email db) [
    | none ↦ (record_login unknown_email email none env.db_now db, err invalid_credentials)
    | some (m, c) ↦ login_with env email password m c db
  ]

  module _ (hash_password : Text → ℕ) where
    abbrev pub with_new_password : ℕ → Credential → Credential
    with_new_password hash c = record c {
      password_hash = hash;
      must_change = false;
      failed_attempts = 0;
      locked_until = none;
    }

    -- The member's other sessions.
    abbrev pub other_session : Principal → Session → Bool
    other_session p s =
        (s.staff_id == p.staff_id) && (is_none s.revoked && not (s.id == p.session_id))

    abbrev pub end_guessing : Principal → ℕ → Bool → Db → Db
    end_guessing p now true db =
        put_sessions (session_id p.session_id) (revoke now password_lockout) db
    end_guessing p now false db = db

    unfoldable pub change_with :
        ℕ → ℕ → Principal → Text → Text → Credential → Db → Db × Result Refusal (Unit {0})
    change_with started now p current next c db =
        if is_after c.locked_until started
        then (db, err (locked_error (until c.locked_until) started))
        else if not (verifies current c.password_hash)
        then (
          end_guessing p started (record_password_failure p.staff_id started db).1
              (record_password_failure p.staff_id started db).0,
          err wrong_current,
        )
        else if password_problem next p.email
        then (db, err weak_password)
        else if verifies next c.password_hash
        then (db, err same_password)
        else (
          audit p.staff_id password_was_changed (
              put_sessions (other_session p) (revoke now password_changed)
                (put_credential p.staff_id (with_new_password (hash_password next)) db)),
          ok tt,
        )

    unfoldable pub change_password :
        ℕ → ℕ → Principal → Text → Text → Db → Db × Result Refusal (Unit {0})
    change_password started now p current next db =
        elim (find (credential_of p.staff_id) db.credentials) [
          | none ↦ (db, err no_password)
          | some c ↦ change_with started now p current next c db
        ]
