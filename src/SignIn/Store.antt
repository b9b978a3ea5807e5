-- ===== src/SignIn/Store.antt =====
-- The tables of staff sign-in (prisma/schema.prisma), and what sign-in refuses with.
use backend_new.Basics.{
  ℕ, ◌+◌, ◌-◌, ◌/◌, Bool, true, false, not, ◌&&◌, Option, some, List, ◌∷◌, ◌==◌, Text, text_eq,
  update_where, is_none,
}
use backend_new.Staff.Store.{Status}

pub record Member : Type 0 where
  pub id : ℕ
  pub email : Text
  pub status : Status
  pub mfa_required : Bool
  pub last_login_at : Option ℕ

pub record Credential : Type 0 where
  pub staff_id : ℕ
  pub password_hash : ℕ
  pub must_change : Bool
  pub failed_attempts : ℕ
  pub locked_until : Option ℕ

-- New factors come first, so the newest is found first.
pub record Factor : Type 0 where
  pub id : ℕ
  pub staff_id : ℕ
  pub secret : List ℕ
  pub confirmed_at : Option ℕ
  pub last_used_step : Option ℕ

pub data RevokedReason : Type 0 where
  idle_timeout mfa_failed password_lockout password_changed logged_out : RevokedReason

pub record Session : Type 0 where
  pub id : ℕ
  pub staff_id : ℕ
  pub token_hash : ℕ
  pub expires_at : ℕ
  pub last_seen_at : ℕ
  pub mfa_verified_at : Option ℕ
  pub mfa_failed_attempts : ℕ
  pub revoked : Option (ℕ × RevokedReason)

pub data LoginOutcome : Type 0 where
  unknown_email locked_out bad_password inactive success mfa_refused mfa_success : LoginOutcome

pub record LoginEvent : Type 0 where
  pub outcome : LoginOutcome
  pub email : Text
  pub staff_id : Option ℕ
  pub created_at : ℕ

pub data Action : Type 0 where
  signed_in locked_mfa_failures mfa_enrolled password_was_changed signed_out : Action

pub record Audit : Type 0 where
  pub staff_id : ℕ
  pub action : Action

pub record Db : Type 0 where
  pub members : List Member
  pub credentials : List Credential
  pub factors : List Factor
  pub sessions : List Session
  pub events : List LoginEvent
  pub audits : List Audit

pub data Refusal : Type 0 where
  invalid_credentials invalid_code : Refusal
  account_locked : (retry_after_seconds : ℕ) → Refusal
  already_enrolled not_set_up no_password wrong_current : Refusal
  weak_password same_password not_configured : Refusal

pub data MfaState : Type 0 where
  verified verify_required setup_required : MfaState

abbrev pub is_setup : MfaState → Bool
is_setup setup_required = true
is_setup _ = false

-- Who calls: what `authenticate` made of the token.
pub record Principal : Type 0 where
  pub staff_id : ℕ
  pub session_id : ℕ
  pub email : Text
  pub permissions : List ℕ
  pub mfa : MfaState
  pub must_change_password : Bool

abbrev pub has_email : Text → Member → Bool
has_email email m = text_eq m.email email

abbrev pub has_id : ℕ → Member → Bool
has_id id m = m.id == id

abbrev pub credential_of : ℕ → Credential → Bool
credential_of id c = c.staff_id == id

abbrev pub is_confirmed : Factor → Bool
is_confirmed f = not (is_none f.confirmed_at)

-- A confirmed factor of the member.
abbrev pub confirmed_of : ℕ → Factor → Bool
confirmed_of id f = (f.staff_id == id) && is_confirmed f

abbrev pub session_id : ℕ → Session → Bool
session_id id s = s.id == id

abbrev pub revoke : ℕ → RevokedReason → Session → Session
revoke now reason s = record s { revoked = some (now, reason) }

abbrev pub minute_ms : ℕ
minute_ms = 60000

abbrev pub pending_ttl_ms : ℕ
pending_ttl_ms = 600000

abbrev pub session_ttl_ms : ℕ
session_ttl_ms = 43200000

abbrev pub idle_timeout_ms : ℕ
idle_timeout_ms = 1800000

abbrev pub lockout_ms : ℕ
lockout_ms = 900000

abbrev pub max_failed_passwords : ℕ
max_failed_passwords = 5

abbrev pub max_failed_mfa : ℕ
max_failed_mfa = 5

abbrev pub max_failed_mfa_per_account : ℕ
max_failed_mfa_per_account = 10

-- `lockedError`
abbrev pub locked_error : ℕ → ℕ → Refusal
locked_error until now = account_locked ((until - now + 999) / 1000)

unfoldable pub record_login : LoginOutcome → Text → Option ℕ → ℕ → Db → Db
record_login outcome email staff_id at db = record db {
  events =
      record { outcome = outcome; email = email; staff_id = staff_id; created_at = at } ∷ db.events;
}

unfoldable pub audit : ℕ → Action → Db → Db
audit id what db = record db { audits = record { staff_id = id; action = what } ∷ db.audits }

unfoldable pub put_credential : ℕ → (Credential → Credential) → Db → Db
put_credential id f db = record db {
  credentials = update_where (credential_of id) f db.credentials;
}

unfoldable pub put_sessions : (Session → Bool) → (Session → Session) → Db → Db
put_sessions p f db = record db { sessions = update_where p f db.sessions }

unfoldable pub touch_login : ℕ → ℕ → Db → Db
touch_login id now db = record db {
  members = update_where (has_id id) (λ m. record m { last_login_at = some now }) db.members;
}
