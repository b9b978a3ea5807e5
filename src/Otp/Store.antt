-- ===== src/Otp/Store.antt =====
-- The table of challenges and what the service reads of it. New rows come first, so the search for
-- the newest row (`orderBy: { createdAt: "desc" }`) is a search from the front.
use backend_new.Basics.{
  ℕ, ◌+◌, ◌-◌, ◌/◌, Bool, true, false, ◌&&◌, ◌||◌, Option, List, [], ◌∷◌, ◌==◌, ltb, leb,
  if◌then◌else◌, Text, text_eq, same_text, find, update_where,
}

pub data Purpose : Type 0 where
  login phone_verification transaction_approval : Purpose

pub data OtpStatus : Type 0 where
  pending verified expired failed cancelled : OtpStatus

-- Times are milliseconds since the epoch; hashes are numbers.
pub record Challenge : Type 0 where
  pub id : ℕ
  pub phone : Text
  pub purpose : Purpose
  pub context : Option Text
  pub status : OtpStatus
  pub provider_request_id : Option ℕ
  pub code_hash : Option ℕ
  pub attempts : ℕ
  pub send_count : ℕ
  pub expires_at : ℕ
  pub last_sent_at : ℕ
  pub verified_at : Option ℕ
  pub locked_until : Option ℕ
  pub token_hash : Option ℕ
  pub token_expires_at : Option ℕ
  pub consumed_at : Option ℕ
  pub created_at : ℕ

pub record User : Type 0 where
  pub phone : Text
  pub deleted : Bool
  pub phone_verified_at : Option ℕ

pub data Action : Type 0 where
  otp_sent otp_resent otp_verified : Action
  otp_verify_failed : (attempts : ℕ) → Action

pub record Audit : Type 0 where
  pub action : Action
  pub entity_id : ℕ

pub record Db : Type 0 where
  pub challenges : List Challenge
  pub users : List User
  pub audits : List Audit

-- `POLICY`; `envInt` lets only positive values pass.
pub record Policy : Type 0 where
  pub otp_length : ℕ
  pub ttl_minutes : ℕ
  pub max_attempts : ℕ
  pub resend_cooldown_seconds : ℕ
  pub max_sends_per_hour : ℕ
  pub max_sends_per_day : ℕ
  pub lockout_minutes : ℕ
  pub token_ttl_minutes : ℕ

-- Each `throw`, with what it tells the caller.
pub data Refusal : Type 0 where
  locked : (retry_after_seconds : ℕ) → Refusal
  send_budget : (limit : ℕ) → Refusal
  busy : Refusal
  cooldown : (retry_after_seconds : ℕ) → Refusal
  not_delivered : (retryable : Bool) → Refusal
  provider_rate_limited invalid_number provider_refused : Refusal
  never_requested already_verified no_longer_valid code_expired : Refusal
  attempts_exhausted : (retry_after_seconds : ℕ) → Refusal
  incorrect : (attempts_remaining : ℕ) → Refusal
  provider_expired provider_used provider_not_found provider_failed : Refusal
  lost_race token_refused vanished : Refusal

pub http_status : Refusal → ℕ
http_status (locked _) = 429
http_status (send_budget _) = 429
http_status (cooldown _) = 429
http_status provider_rate_limited = 429
http_status (attempts_exhausted _) = 429
http_status busy = 409
http_status already_verified = 409
http_status provider_used = 409
http_status lost_race = 409
http_status (not_delivered true) = 502
http_status (not_delivered false) = 503
http_status provider_refused = 502
http_status provider_failed = 502
http_status vanished = 500
http_status _ = 400

abbrev pub same_purpose : Purpose → Purpose → Bool
same_purpose login login = true
same_purpose phone_verification phone_verification = true
same_purpose transaction_approval transaction_approval = true
same_purpose _ _ = false

-- `purposeClass(purpose)` includes `q`
abbrev pub in_class : Purpose → Purpose → Bool
in_class transaction_approval q = same_purpose q transaction_approval
in_class _ q = same_purpose q login || same_purpose q phone_verification

abbrev pub is_pending : OtpStatus → Bool
is_pending pending = true
is_pending _ = false

abbrev pub is_verified : OtpStatus → Bool
is_verified verified = true
is_verified _ = false

abbrev pub minute_ms : ℕ
minute_ms = 60000

-- `secondsUntil`: the ceiling, and at least one.
abbrev pub seconds_until : ℕ → ℕ → ℕ
seconds_until when now =
    let ceiling = (when - now + 999) / 1000 in if ltb ceiling 1 then 1 else ceiling

-- The rows of a number and a class of purposes.
abbrev pub of_class : Text → Purpose → Challenge → Bool
of_class phone purpose c = text_eq c.phone phone && in_class purpose c.purpose

unfoldable pub latest_of_class : Text → Purpose → Db → Option Challenge
latest_of_class phone purpose db = find (of_class phone purpose) db.challenges

-- The rows that a code is verified against.
abbrev pub asked_for : Text → Purpose → Option Text → Challenge → Bool
asked_for phone purpose context c =
    text_eq c.phone phone && (same_purpose c.purpose purpose && same_text c.context context)

-- `aggregate({ _sum: { sendCount } })` over the rows created since a time.
unfoldable pub sends : Text → Purpose → ℕ → List Challenge → ℕ
sends phone purpose since [] = 0
sends phone purpose since (c ∷ cs) =
    (if of_class phone purpose c && leb since c.created_at then c.send_count else 0)
    + sends phone purpose since cs

abbrev pub has_id : ℕ → Challenge → Bool
has_id id c = c.id == id

unfoldable pub put : ℕ → (Challenge → Challenge) → Db → Db
put id f db = record db { challenges = update_where (has_id id) f db.challenges }

unfoldable pub insert : Challenge → Db → Db
insert c db = record db { challenges = c ∷ db.challenges }

unfoldable pub write_audit : Action → ℕ → Db → Db
write_audit what id db = record db { audits = record { action = what; entity_id = id } ∷ db.audits }
