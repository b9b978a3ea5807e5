-- ===== src/Otp/Request.antt =====
-- `requestOtp`: lockout, send budget, the one active challenge, and the delivery of a code.
use backend_new.Basics.{
  ℕ, ◌+◌, ◌*◌, ◌-◌, Bool, not, ◌&&◌, ◌||◌, Option, none, some, ltb, leb, is_none, is_after,
  if◌then◌else◌, Text, same_text, is_truthy, Result, ok, err,
}
use backend_new.Otp.Store.{
  Purpose, transaction_approval, pending, expired, Challenge, Db, Policy, Refusal, locked,
  send_budget, busy, cooldown, not_delivered, provider_rate_limited, invalid_number,
  provider_refused, otp_sent, otp_resent, same_purpose, is_pending, minute_ms, seconds_until,
  latest_of_class, sends, put, insert, write_audit,
}

-- The provider's answer to a send or resend (src/integrations/msg91.client.ts is called, not modelled).
pub data SendReply : Type 0 where
  accepted : (request_id : Option ℕ) → SendReply
  rate_limited invalid rejected : SendReply
  unreachable : (retryable : Bool) → SendReply

-- The channel that is configured: the constant development code, an email with a fresh code and
-- whether it could be sent, or the SMS provider.
pub data Channel : Type 0 where
  dev : (code : Text) → Channel
  email : (code : Text) → (failed : Option Bool) → Channel
  sms : SendReply → Channel

pub record Request : Type 0 where
  pub phone : Text
  pub purpose : Purpose
  pub context : Option Text

-- `now` is `new Date()`; `db_now` and `fresh_id` are what the database gives a new row.
pub record Env : Type 0 where
  pub now : ℕ
  pub db_now : ℕ
  pub fresh_id : ℕ
  pub channel : Channel

pub record RequestDto : Type 0 where
  pub expires_at : ℕ
  pub retry_after_seconds : ℕ
  pub attempts_remaining : ℕ

abbrev pub hour_ms : ℕ
hour_ms = 3600000

abbrev pub day_ms : ℕ
day_ms = 86400000

abbrev is_transaction : Purpose → Bool
is_transaction p = same_purpose p transaction_approval

-- The latest row, if it can still be answered.
abbrev pub active_of : ℕ → Option Challenge → Option Challenge
active_of now none = none
active_of now (some c) = if is_pending c.status && ltb now c.expires_at then some c else none

abbrev pub expire_pending : Challenge → Challenge
expire_pending c = if is_pending c.status then record c { status = expired } else c

-- Retired by `updateMany`, whose conditions hold of the row that was read.
unfoldable pub retire : ℕ → Db → Db
retire id db = put id expire_pending db

-- A transaction challenge without a context, or for another transaction, gives way.
abbrev pub gives_way : Request → Challenge → Bool
gives_way i c =
    is_transaction c.purpose
    && is_transaction i.purpose
    && is_truthy i.context
    && (is_none c.context || not (same_text c.context i.context))

unfoldable pub supersede : Request → Option Challenge → Db → Db × Option Challenge
supersede i none db = (db, none)
supersede i (some c) db = if gives_way i c then (retire c.id db, none) else (db, some c)

abbrev refused_send : SendReply → Refusal
refused_send (accepted _) = provider_refused
refused_send rate_limited = provider_rate_limited
refused_send invalid = invalid_number
refused_send rejected = provider_refused
refused_send (unreachable retryable) = not_delivered retryable

-- When the lockout of a row ends, if it has one.
abbrev pub locked_of : Option Challenge → Option ℕ
locked_of none = none
locked_of (some c) = c.locked_until

abbrev pub until : Option ℕ → ℕ
until none = 0
until (some t) = t

module _ (policy : Policy) (hash_code : ℕ → Text → ℕ) where
  -- One more send on the active row.
  unfoldable pub touched : ℕ → Option ℕ → Option ℕ → Challenge → Challenge
  touched now code_hash request_id c = record c {
    send_count = c.send_count + 1;
    last_sent_at = now;
    code_hash = elim code_hash [ none ↦ c.code_hash | some h ↦ some h ];
    provider_request_id = elim request_id [ none ↦ c.provider_request_id | some r ↦ some r ];
  }

  abbrev resent_dto : Challenge → RequestDto
  resent_dto c = record {
    expires_at = c.expires_at;
    retry_after_seconds = policy.resend_cooldown_seconds;
    attempts_remaining = policy.max_attempts - c.attempts;
  }

  -- The resend on each channel.
  unfoldable pub resend : Channel → ℕ → Challenge → Db → Db × Result Refusal RequestDto
  resend (dev code) now c db = (
    write_audit otp_resent c.id (put c.id (touched now (some (hash_code c.id code)) none) db),
    ok (resent_dto c),
  )
  resend (email code none) now c db = (
    write_audit otp_resent c.id (put c.id (touched now (some (hash_code c.id code)) none) db),
    ok (resent_dto c),
  )
  resend (email code (some retryable)) now c db =
      (put c.id (touched now (some (hash_code c.id code)) none) db, err (not_delivered retryable))
  resend (sms (accepted request)) now c db =
      (write_audit otp_resent c.id (put c.id (touched now none request) db), ok (resent_dto c))
  resend (sms other) now c db = (db, err (refused_send other))

  unfoldable pub new_challenge : Env → Request → Option ℕ → Option ℕ → Challenge
  new_challenge env i code_hash request_id = record {
    id = env.fresh_id;
    phone = i.phone;
    purpose = i.purpose;
    context = i.context;
    status = pending;
    provider_request_id = request_id;
    code_hash = code_hash;
    attempts = 0;
    send_count = 1;
    expires_at = env.now + policy.ttl_minutes * minute_ms;
    last_sent_at = env.now;
    verified_at = none;
    locked_until = none;
    token_hash = none;
    token_expires_at = none;
    consumed_at = none;
    created_at = env.db_now;
  }

  abbrev sent_dto : Env → RequestDto
  sent_dto env = record {
    expires_at = env.now + policy.ttl_minutes * minute_ms;
    retry_after_seconds = policy.resend_cooldown_seconds;
    attempts_remaining = policy.max_attempts;
  }

  -- The first send on each channel; a code that could not be mailed leaves a retired row.
  unfoldable pub create : Channel → Env → Request → Db → Db × Result Refusal RequestDto
  create (dev code) env i db = (
    write_audit otp_sent env.fresh_id
        (insert (new_challenge env i (some (hash_code env.fresh_id code)) none) db),
    ok (sent_dto env),
  )
  create (email code none) env i db = (
    write_audit otp_sent env.fresh_id
        (insert (new_challenge env i (some (hash_code env.fresh_id code)) none) db),
    ok (sent_dto env),
  )
  create (email code (some retryable)) env i db = (
    insert (expire_pending (new_challenge env i (some (hash_code env.fresh_id code)) none)) db,
    err (not_delivered retryable),
  )
  create (sms (accepted request)) env i db = (
    write_audit otp_sent env.fresh_id (insert (new_challenge env i none request) db),
    ok (sent_dto env),
  )
  create (sms other) env i db = (db, err (refused_send other))

  -- Behind the lockout and the budget: `active` is the row that `supersede` left.
  unfoldable pub deliver : Env → Request → Option Challenge → Db → Db × Result Refusal RequestDto
  deliver env i none db = create env.channel env i db
  deliver env i (some c) db =
      if not (same_purpose c.purpose i.purpose) || not (same_text c.context i.context)
      then (db, err busy)
      else let next = c.last_sent_at + policy.resend_cooldown_seconds * 1000 in
        if ltb env.now next
        then (db, err (cooldown (seconds_until next env.now)))
        else resend env.channel env.now c db

  -- The first window that is used up.
  unfoldable pub over_budget : Env → Request → Db → Option Refusal
  over_budget env i db =
      if leb policy.max_sends_per_hour (sends i.phone i.purpose (env.now - hour_ms) db.challenges)
      then some (send_budget policy.max_sends_per_hour)
      else if leb policy.max_sends_per_day
          (sends i.phone i.purpose (env.now - day_ms) db.challenges)
      then some (send_budget policy.max_sends_per_day)
      else none

  unfoldable pub request_otp : Env → Request → Db → Db × Result Refusal RequestDto
  request_otp env i db =
      let latest = latest_of_class i.phone i.purpose db in
      if is_after (locked_of latest) env.now
      then (db, err (locked (seconds_until (until (locked_of latest)) env.now)))
      else elim (over_budget env i db) [
        | some e ↦ (db, err e)
        | none ↦
            let (db', active) = supersede i (active_of env.now latest) db in
            deliver env i active db'
      ]
