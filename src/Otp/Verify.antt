-- ===== src/Otp/Verify.antt =====
-- `verifyOtp`, in the order of its writes, and `consumeVerificationToken`.
use backend_new.Basics.{
  ℕ, ◌+◌, ◌*◌, ◌-◌, Bool, true, false, not, ◌&&◌, ◌||◌, Option, none, some, map, ◌==◌, ltb, leb,
  any, is_none, is_after, if◌then◌else◌, Text, text_eq, same_text, same_option, is_truthy, Result,
  ok, err, find, update_where,
}
use backend_new.Otp.Store.{
  Purpose, transaction_approval, verified, expired, failed, Challenge, User, Db, Policy, Refusal,
  locked, never_requested, already_verified, no_longer_valid, code_expired, attempts_exhausted,
  incorrect, provider_expired, provider_used, provider_not_found, provider_failed, not_delivered,
  lost_race, token_refused, vanished, otp_verified, otp_verify_failed, same_purpose, is_pending,
  is_verified, minute_ms, seconds_until, asked_for, has_id, put, write_audit,
}

-- `VerifyFailureReason` of src/integrations/msg91.client.ts, whose calls are not modelled.
pub data Reason : Type 0 where
  mismatch timed_out used not_found other : Reason

pub data Verdict : Type 0 where
  accepted : Verdict
  refused : Reason → Verdict
  unreachable : (retryable : Bool) → Verdict

pub record Answer : Type 0 where
  pub phone : Text
  pub purpose : Purpose
  pub context : Option Text
  pub otp : Text

-- `now` is read first, `commit_now` inside the transaction; `token` is the random token, `provider`
-- what the SMS provider would answer.
pub record Env : Type 0 where
  pub now : ℕ
  pub commit_now : ℕ
  pub token : ℕ
  pub provider : Verdict

pub record VerifyDto : Type 0 where
  pub token : ℕ
  pub token_expires_at : ℕ

abbrev failure : Reason → ℕ → Refusal
failure mismatch remaining = incorrect remaining
failure timed_out remaining = provider_expired
failure used remaining = provider_used
failure not_found remaining = provider_not_found
failure other remaining = provider_failed

-- The row that a code is checked against, if it may be answered at all.
abbrev pub refusal_of : ℕ → Challenge → Option Refusal
refusal_of now c =
    if is_after c.locked_until now
    then some (locked (seconds_until (elim c.locked_until [ none ↦ 0 | some t ↦ t ]) now))
    else if is_verified c.status
    then some already_verified
    else if not (is_pending c.status)
    then some no_longer_valid
    else if leb c.expires_at now
    then some code_expired
    else none

unfoldable pub expire : Challenge → Challenge
expire c = record c { status = expired }

unfoldable pub spend : Challenge → Challenge
spend c = record c { attempts = c.attempts + 1 }

unfoldable pub lock : ℕ → Challenge → Challenge
lock until c = record c { status = failed; locked_until = some until }

pub record Consumed : Type 0 where
  pub phone : Text
  pub purpose : Purpose

module _ (policy : Policy) (hash_code : ℕ → Text → ℕ) (hash_token : ℕ → ℕ) where
  abbrev pub lockout_end : ℕ → ℕ
  lockout_end now = now + policy.lockout_minutes * minute_ms

  -- Which side holds the code decides which side checks it.
  unfoldable pub check_code : Env → Text → Challenge → Verdict
  check_code env otp c = elim c.code_hash [
    | none ↦ env.provider
    | some h ↦ if hash_code c.id otp == h then accepted else refused mismatch
  ]

  unfoldable pub grant : Env → Challenge → Challenge
  grant env c = record c {
    status = verified;
    verified_at = some env.now;
    token_hash = some (hash_token env.token);
    token_expires_at = some (env.now + policy.token_ttl_minutes * minute_ms);
  }

  -- The predicate of the conditional update.
  abbrev pub may_grant : ℕ → ℕ → Challenge → Bool
  may_grant id commit_now c =
      has_id id c
      && (is_pending c.status
          && (leb c.attempts policy.max_attempts && ltb commit_now c.expires_at))

  unfoldable pub verify_phone : Text → ℕ → User → User
  verify_phone phone now u =
      if text_eq u.phone phone && not u.deleted
      then record u { phone_verified_at = some now }
      else u

  -- The transaction that marks the row verified and the accounts of the number.
  unfoldable pub commit : Env → Answer → ℕ → Db → Db × Result Refusal VerifyDto
  commit env a id db =
      if any (may_grant id env.commit_now) db.challenges
      then (
        write_audit otp_verified id (record db {
          challenges = update_where (may_grant id env.commit_now) (grant env) db.challenges;
          users = map (verify_phone a.phone env.now) db.users;
        }),
        ok (record {
          token = env.token;
          token_expires_at = env.now + policy.token_ttl_minutes * minute_ms;
        }),
      )
      else (db, err lost_race)

  -- A wrong code: the last attempt locks.
  unfoldable pub wrong : Env → Reason → ℕ → ℕ → Db → Db × Result Refusal VerifyDto
  wrong env reason attempts id db =
      let remaining = policy.max_attempts - attempts in
      let db' = if remaining == 0 then put id (lock (lockout_end env.now)) db else db in
      (write_audit (otp_verify_failed attempts) id db', err (failure reason remaining))

  -- Behind the guards: the attempt is spent before the code is checked.
  unfoldable pub answer_challenge : Env → Answer → Challenge → Db → Db × Result Refusal VerifyDto
  answer_challenge env a c db =
      let spent = put c.id spend db in
      let attempts = c.attempts + 1 in
      if ltb policy.max_attempts attempts
      then (
        put c.id (lock (lockout_end env.now)) spent,
        err (attempts_exhausted (seconds_until (lockout_end env.now) env.now)),
      )
      else elim (check_code env a.otp c) [
        | accepted ↦ commit env a c.id spent
        | refused reason ↦ wrong env reason attempts c.id spent
        | unreachable retryable ↦ (spent, err (not_delivered retryable))
      ]

  abbrev pub is_expiry : Refusal → Bool
  is_expiry code_expired = true
  is_expiry _ = false

  unfoldable pub verify_otp : Env → Answer → Db → Db × Result Refusal VerifyDto
  verify_otp env a db = elim (find (asked_for a.phone a.purpose a.context) db.challenges) [
    | none ↦ (db, err never_requested)
    | some c ↦ elim (refusal_of env.now c) [
      | some e ↦ (if is_expiry e then put c.id expire db else db, err e)
      | none ↦ answer_challenge env a c db
    ]
  ]

  -- The rows that `updateMany` spends: an empty context is no context.
  abbrev pub may_spend : ℕ → ℕ → Option Text → Challenge → Bool
  may_spend token now context c =
      same_option c.token_hash (some (hash_token token))
      && (is_verified c.status
          && (is_none c.consumed_at
              && (is_after c.token_expires_at now
                  && (not (is_truthy context)
                      || same_text c.context context
                        && same_purpose c.purpose transaction_approval))))

  unfoldable pub consume : ℕ → Challenge → Challenge
  consume now c = record c { consumed_at = some now }

  abbrev pub with_token : ℕ → Challenge → Bool
  with_token token c = same_option c.token_hash (some (hash_token token))

  unfoldable pub consume_verification_token :
      ℕ → ℕ → Option Text → Db → Db × Result Refusal Consumed
  consume_verification_token now token context db =
      let db' = record db {
        challenges = update_where (may_spend token now context) (consume now) db.challenges;
      } in
      if any (may_spend token now context) db.challenges
      then elim (find (with_token token) db'.challenges) [
        | none ↦ (db', err vanished)
        | some c ↦ (db', ok (record { phone = c.phone; purpose = c.purpose }))
      ]
      else (db', err token_refused)
