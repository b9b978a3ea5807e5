-- ===== src/SignIn/Tests.antt =====
-- Staff sign-in at concrete inputs.
use backend_new.Basics.{
  ℕ, ◌≡◌, ◌<◌, ◌↔◌, refl, Bool, true, false, none, some, List, [], ◌∷◌, All, Text, text_eq, find,
  arith, ◌==◌, ◌+◌, ok, err,
}
use backend_new.Staff.Store.{active}
use backend_new.SignIn.Totp.{totp_at, first_match, verify_totp, is_code, time_step}
use backend_new.SignIn.Store.{
  Member, Credential, Factor, Session, Db, Principal, verify_required, lockout_ms, record_login,
  audit, put_sessions, touch_login, invalid_credentials,
}
use backend_new.SignIn.Password.{
  Env, login, login_with, change_password, change_with, password_problem,
}
use backend_new.SignIn.Session.{authenticate, resolve, logout, principal}
use backend_new.SignIn.Factor.{checked_factor, verify_mfa, check_factor, claimed, accept_code}
use backend_new.SignIn.Steps.{World, begin}
use backend_new.SignIn.Codes.{IsTaken, verify_totp_iff}
use backend_new.SignIn.Wrong.{IsAccount, logins}
use backend_new.SignIn.Lockout.{IsLocked, at_once, try_login, wrong_passwords-IsLocked}
use backend_new.SignIn.Once.{no_replay}
use backend_new.SignIn.Tokens.{IsLive, authenticate_iff, logout-authenticate}
use backend_new.SignIn.Refused.{IsVague, IsLeftAlone, login_error, IsOnly, change_password-IsOnly}

-- A digest whose code is the step, in six digits.
abbrev hmac : List ℕ → ℕ → List ℕ
hmac secret step = 0 ∷ 0 ∷ 0 ∷ step ∷ 0 ∷ []

-- The code 000003.
abbrev three : Text
three = 48 ∷ 48 ∷ 48 ∷ 48 ∷ 48 ∷ 51 ∷ []

-- The code 000005.
abbrev five : Text
five = 48 ∷ 48 ∷ 48 ∷ 48 ∷ 48 ∷ 53 ∷ []

taken : verify_totp hmac [] three 90000 (some 2) ≡ some 3
unfolding verify_totp first_match totp_at is_code time_step text_eq
taken = refl

replayed : verify_totp hmac [] three 90000 (some 3) ≡ none
unfolding verify_totp first_match totp_at is_code time_step text_eq
replayed = refl

verify_totp_iff_example :
    (verify_totp hmac [] three 90000 (some 2) ≡ some 3) ↔ IsTaken hmac [] three 90000 (some 2) 3
verify_totp_iff_example = verify_totp_iff hmac [] three 90000 (some 2) 3

abbrev member : Member
member = record {
  id = 1;
  email = 97 ∷ 64 ∷ [];
  status = active;
  mfa_required = true;
  last_login_at = none;
}

abbrev credential : Credential
credential = record {
  staff_id = 1;
  password_hash = 7;
  must_change = false;
  failed_attempts = 3;
  locked_until = none;
}

abbrev factor : Factor
factor = record {
  id = 4;
  staff_id = 1;
  secret = [];
  confirmed_at = some 1;
  last_used_step = some 2;
}

abbrev session : Session
session = record {
  id = 9;
  staff_id = 1;
  token_hash = 11;
  expires_at = 600000;
  last_seen_at = 80000;
  mfa_verified_at = none;
  mfa_failed_attempts = 0;
  revoked = none;
}

abbrev start : Db
start = record {
  members = member ∷ [];
  credentials = credential ∷ [];
  factors = factor ∷ [];
  sessions = session ∷ [];
  events = [];
  audits = [];
}

abbrev caller : Principal
caller = record {
  staff_id = 1;
  session_id = 9;
  email = 97 ∷ 64 ∷ [];
  permissions = [];
  mfa = verify_required;
  must_change_password = false;
}

-- The password is one letter long, and its hash is that letter.
abbrev verifies : Text → ℕ → Bool
verifies [] hash = false
verifies (c ∷ cs) hash = c == hash

abbrev hash_token : ℕ → ℕ
hash_token token = token + 1

abbrev env : Env
env = record { now = 90000; db_now = 90000; token = 30; session = 31 }

account : IsAccount (97 ∷ 64 ∷ []) member credential start
unfolding text_eq
account = record { member = refl; credential = refl }

-- The lock of this row ran out long ago.
abbrev stale : Credential
stale = record credential { locked_until = some 80000 }

abbrev relocked : Db
relocked = record start { credentials = stale ∷ [] }

stale_account : IsAccount (97 ∷ 64 ∷ []) member stale relocked
unfolding text_eq
stale_account = record { member = refl; credential = refl }

wrong_passwords-IsLocked_example :
    IsLocked true verifies hash_token
      (97 ∷ 64 ∷ [])
      member
      (90000 + lockout_ms)
      (login true verifies hash_token env
        (97 ∷ 64 ∷ [])
        (7 ∷ [])
        (login true verifies hash_token env
          (97 ∷ 64 ∷ [])
          (5 ∷ [])
          (logins true verifies hash_token (97 ∷ 64 ∷ []) ((env, 6 ∷ []) ∷ []) relocked)).0).0
wrong_passwords-IsLocked_example =
    wrong_passwords-IsLocked true verifies hash_token (97 ∷ 64 ∷ []) ((env, 6 ∷ []) ∷ []) env
      (5 ∷ []) member stale relocked stale_account ((refl, refl), tt) (refl, refl) refl
      (try_login at_once env (7 ∷ []) (omega arith))

abbrev world : World
world = record {
  mfa_enabled = true;
  configured = true;
  verifies = verifies;
  hash_token = hash_token;
  hash_password = λ t. 3;
  hmac = hmac;
  granted = λ id. 2 ∷ [];
  is_permission = λ k. k == 2;
}

first : (verify_mfa hmac 90000 90000 caller three start).1 ≡ ok tt
unfolding verify_mfa check_factor claimed accept_code verify_totp first_match totp_at is_code
    time_step text_eq record_login audit put_sessions touch_login
first = refl

abbrev later : Db
later = (verify_mfa hmac 90000 90000 caller three start).0

abbrev used : Factor
used = record { id = 4; staff_id = 1; secret = []; confirmed_at = some 1; last_used_step = some 3 }

second : (verify_mfa hmac 150000 150000 caller five later).1 ≡ ok tt
unfolding verify_mfa check_factor claimed accept_code verify_totp first_match totp_at is_code
    time_step text_eq record_login audit put_sessions touch_login
second = refl

stored : find (checked_factor caller) later.factors ≡ some used
unfolding verify_mfa check_factor claimed accept_code verify_totp first_match totp_at is_code
    time_step text_eq record_login audit put_sessions touch_login
stored = refl

no_replay_example :
    (n : ℕ) × (m : ℕ) × (verify_totp hmac [] three 90000 (some 2) ≡ some n)
    × (verify_totp hmac [] five 150000 (some 3) ≡ some m)
    × (n < m)
no_replay_example =
    no_replay world 90000 90000 caller three factor start (refl, tt) refl first begin 150000 150000
      caller five used stored second refl

abbrev granted : ℕ → List ℕ
granted id = 2 ∷ []

abbrev is_two : ℕ → Bool
is_two k = k == 2

known :
    (authenticate hash_token granted is_two 90000 10 start).1
    ≡ some (record {
      staff_id = 1;
      session_id = 9;
      email = 97 ∷ 64 ∷ [];
      permissions = 2 ∷ [];
      mfa = verify_required;
      must_change_password = false;
    })
unfolding authenticate resolve
known = refl

authenticate_iff_example :
    ((authenticate hash_token granted is_two 90000 10 start).1 ≡ some caller) ↔ (
      (s : Session) × (m : Member) × IsLive hash_token granted is_two 90000 10 start s m
      × (principal hash_token granted is_two s m start ≡ caller))
authenticate_iff_example = authenticate_iff hash_token granted is_two 90000 10 start caller

logout-authenticate_example :
    (authenticate hash_token granted is_two 90002 10 (
      logout 90001
        (record {
          staff_id = 1;
          session_id = 9;
          email = 97 ∷ 64 ∷ [];
          permissions = 2 ∷ [];
          mfa = verify_required;
          must_change_password = false;
        })
        (authenticate hash_token granted is_two 90000 10 start).0)).1
    ≡ none
logout-authenticate_example =
    logout-authenticate hash_token granted is_two 90000 90001 90002 10 start
      (record {
        staff_id = 1;
        session_id = 9;
        email = 97 ∷ 64 ∷ [];
        permissions = 2 ∷ [];
        mfa = verify_required;
        must_change_password = false;
      })
      known

turned_away :
    (login true verifies hash_token env (97 ∷ 64 ∷ []) (5 ∷ []) start).1 ≡ err invalid_credentials
unfolding login login_with text_eq
turned_away = refl

login_error_example :
    IsVague invalid_credentials
    × IsLeftAlone start (login true verifies hash_token env (97 ∷ 64 ∷ []) (5 ∷ []) start).0
login_error_example =
    login_error true verifies hash_token env (97 ∷ 64 ∷ []) (5 ∷ []) start invalid_credentials
      turned_away

-- Thirteen letters.
abbrev chosen : Text
chosen = 8 ∷ 8 ∷ 8 ∷ 8 ∷ 8 ∷ 8 ∷ 8 ∷ 8 ∷ 8 ∷ 8 ∷ 8 ∷ 8 ∷ 8 ∷ []

changed :
    (change_password true verifies hash_token (λ t. 3) 90000 90001 caller (7 ∷ []) chosen start).1
    ≡ ok tt
unfolding change_password change_with password_problem
changed = refl

change_password-IsOnly_example :
    All
      (IsOnly caller)
      (change_password true verifies hash_token
        (λ t. 3)
        90000
        90001
        caller
        (7 ∷ [])
        chosen
        start).0.sessions
change_password-IsOnly_example =
    change_password-IsOnly true verifies hash_token (λ t. 3) 90000 90001 caller (7 ∷ []) chosen
      start changed
