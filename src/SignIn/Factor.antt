-- ===== src/SignIn/Factor.antt =====
-- The second step of src/services/staff-auth.service.ts: `beginMfaSetup` and `verifyMfa`.
use backend_new.Basics.{
  ℕ, ◌+◌, ◌-◌, Bool, true, false, not, ◌&&◌, ◌||◌, Option, none, some, List, ◌∷◌, ltb, leb, ◌==◌,
  Text, find, any, keep, count, is_none, same_option, update_where, if◌then◌else◌, Result, ok, err,
}
use backend_new.SignIn.Totp.{verify_totp}
use backend_new.SignIn.Store.{
  Factor, Session, LoginOutcome, LoginEvent, mfa_refused, mfa_success, mfa_failed, mfa_enrolled,
  signed_in, locked_mfa_failures, Db, Refusal, invalid_code, already_enrolled, not_set_up,
  not_configured, Principal, is_setup, is_confirmed, session_id, revoke, session_ttl_ms, lockout_ms,
  max_failed_mfa, max_failed_mfa_per_account, locked_error, record_login, audit, put_credential,
  put_sessions, touch_login,
}
use backend_new.SignIn.Password.{locked_now}

-- A factor of the member that is not confirmed.
abbrev pub unconfirmed_of : ℕ → Factor → Bool
unconfirmed_of id f = (f.staff_id == id) && not (is_confirmed f)

-- `secret` and `fresh_id` are a new secret and a new key; `configured` says that the key that
-- secrets are sealed with is set.
unfoldable pub begin_mfa_setup :
    (configured : Bool)
    → Principal
    → (fresh_id : ℕ) (secret : List ℕ) → Db
    → Db × Result Refusal (List ℕ)
begin_mfa_setup configured p fresh_id secret db =
    if not (is_setup p.mfa)
    then (db, err already_enrolled)
    else if not configured
    then (db, err not_configured)
    else (
      record db {
        factors =
            record {
              id = fresh_id;
              staff_id = p.staff_id;
              secret = secret;
              confirmed_at = none;
              last_used_step = none;
            }
            ∷ keep (λ f. not (unconfirmed_of p.staff_id f)) db.factors;
      },
      ok secret,
    )

-- During enrolment the pending factor is checked, afterwards the confirmed one.
abbrev pub checked_factor : Principal → Factor → Bool
checked_factor p f =
    (f.staff_id == p.staff_id) && (if is_setup p.mfa then not (is_confirmed f) else is_confirmed f)

abbrev pub is_mfa_refused : LoginOutcome → Bool
is_mfa_refused mfa_refused = true
is_mfa_refused _ = false

abbrev pub recent_failure : ℕ → ℕ → LoginEvent → Bool
recent_failure id now e =
    same_option e.staff_id (some id)
    && (is_mfa_refused e.outcome && ltb (now - lockout_ms) e.created_at)

abbrev pub waits_for_mfa : ℕ → Session → Bool
waits_for_mfa id s = (s.staff_id == id) && (is_none s.revoked && is_none s.mfa_verified_at)

unfoldable pub lock_for_mfa_failures : Principal → ℕ → Db → Db
lock_for_mfa_failures p now db = audit p.staff_id locked_mfa_failures (
    put_sessions (waits_for_mfa p.staff_id) (revoke now mfa_failed)
      (put_credential p.staff_id (locked_now now) db))

-- Sessions that may spend an attempt.
abbrev pub may_try : ℕ → Session → Bool
may_try id s = session_id id s && (is_none s.revoked && ltb s.mfa_failed_attempts max_failed_mfa)

abbrev pub tried : Session → Session
tried s = record s { mfa_failed_attempts = s.mfa_failed_attempts + 1 }

abbrev pub is_spent : ℕ → Session → Bool
is_spent id s = session_id id s && leb max_failed_mfa s.mfa_failed_attempts

abbrev pub is_less : Option ℕ → ℕ → Bool
is_less none step = false
is_less (some last) step = ltb last step

-- The factor can still move to this step.
abbrev pub may_claim : ℕ → ℕ → Factor → Bool
may_claim id step f = (f.id == id) && (is_none f.last_used_step || is_less f.last_used_step step)

abbrev pub claim : ℕ → ℕ → Factor → Factor
claim step now f = record f {
  last_used_step = some step;
  confirmed_at = if is_none f.confirmed_at then some now else f.confirmed_at;
}

abbrev pub upgrade : ℕ → Session → Session
upgrade now s = record s {
  mfa_verified_at = some now;
  expires_at = now + session_ttl_ms;
  last_seen_at = now;
  mfa_failed_attempts = 0;
}

abbrev pub enrol : Principal → Factor → Db → Db
enrol p f db = if is_confirmed f then db else audit p.staff_id mfa_enrolled db

module _ (hmac : List ℕ → ℕ → List ℕ) where
  -- A code that is wrong, or that another request used first.
  unfoldable pub refuse_code : ℕ → ℕ → Principal → Db → Db × Result Refusal (Unit {0})
  refuse_code now db_now p db = (
    record_login mfa_refused p.email (some p.staff_id) db_now
        (put_sessions (is_spent p.session_id) (revoke now mfa_failed) db),
    err invalid_code,
  )

  unfoldable pub accept_code : ℕ → ℕ → Principal → Factor → ℕ → Db → Db × Result Refusal (Unit {0})
  accept_code now db_now p f step db = (
    audit p.staff_id signed_in (
        enrol p f (
          record_login mfa_success p.email (some p.staff_id) db_now (
            touch_login p.staff_id now (
              put_sessions (session_id p.session_id) (upgrade now) (record db {
                factors = update_where (may_claim f.id step) (claim step now) db.factors;
              }))))),
    ok tt,
  )

  -- The step that a code claims on the factor.
  unfoldable pub claimed : ℕ → Text → Factor → Db → Option ℕ
  claimed now code f db = elim (verify_totp hmac f.secret code now f.last_used_step) [
    | none ↦ none
    | some step ↦ if any (may_claim f.id step) db.factors then some step else none
  ]

  -- Behind the caps: the attempt is spent before the code is checked.
  unfoldable pub check_factor :
      ℕ → ℕ → Principal → Text → Factor → Db → Db × Result Refusal (Unit {0})
  check_factor now db_now p code f db =
      if not (any (may_try p.session_id) db.sessions)
      then (put_sessions (session_id p.session_id) (revoke now mfa_failed) db, err invalid_code)
      else let spent = put_sessions (may_try p.session_id) tried db in
        elim (claimed now code f spent) [
          | none ↦ refuse_code now db_now p spent
          | some step ↦ accept_code now db_now p f step spent
        ]

  unfoldable pub verify_mfa : ℕ → ℕ → Principal → Text → Db → Db × Result Refusal (Unit {0})
  verify_mfa now db_now p code db = elim (find (checked_factor p) db.factors) [
    | none ↦ (db, err not_set_up)
    | some f ↦
        if leb max_failed_mfa_per_account (count (recent_failure p.staff_id now) db.events)
        then (lock_for_mfa_failures p now db, err (locked_error (now + lockout_ms) now))
        else check_factor now db_now p code f db
  ]
