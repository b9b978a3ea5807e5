-- ===== src/Otp/Accepts.antt =====
-- When `verifyOtp` issues a token.
use backend_new.Basics.{ℕ, ◌<◌, ◌≡◌, true, false, none, some, arith, Text, ok, find, is_after}
use backend_new.Otp.Store.{Challenge, Db, Policy, is_pending, asked_for}
use backend_new.Otp.Verify.{
  Answer, Env, VerifyDto, accepted, verify_otp, answer_challenge, wrong, commit, check_code,
}

-- What the row that was answered was like.
pub record IsAnswerable (policy : Policy) (now : ℕ) (c : Challenge) : Type 0 where
  pub is_open : is_pending c.status ≡ true
  pub unlocked : is_after c.locked_until now ≡ false
  pub alive : now < c.expires_at
  pub attempts_left : c.attempts < policy.max_attempts

module _ (policy : Policy) (hash_code : ℕ → Text → ℕ) (hash_token : ℕ → ℕ) where
  verify_otp-accepted :
      (env : Env) (a : Answer) (db db' : Db) (dto : VerifyDto)
      → verify_otp policy hash_code hash_token env a db ≡ (db', ok dto)
      → (c : Challenge) × (find (asked_for a.phone a.purpose a.context) db.challenges ≡ some c)
        × IsAnswerable policy env.now c
        × (check_code policy hash_code hash_token env a.otp c ≡ accepted)
  unfolding verify_otp answer_challenge wrong commit
  verify_otp-accepted env a db db' dto e = ground arith

  code_of_check :
      (env : Env) (otp : Text) (c : Challenge)
      → check_code policy hash_code hash_token env otp c ≡ accepted
      → ((h : ℕ) → c.code_hash ≡ some h → hash_code c.id otp ≡ h)
        × (c.code_hash ≡ none → env.provider ≡ accepted)
  unfolding check_code
  code_of_check env otp c e = (λ h q. ground arith, λ q. ground arith)

-- A token is issued only against the newest challenge of the number, purpose and context, while it
-- was pending, unlocked, unexpired and had an attempt left; and only for a code whose hash is the
-- stored one or, where no hash is stored, that the provider accepted.
pub verify_otp-IsAnswerable :
    (policy : Policy) (hash_code : ℕ → Text → ℕ) (hash_token : ℕ → ℕ) (env : Env) (a : Answer)
    (db db' : Db) (dto : VerifyDto)
    → verify_otp policy hash_code hash_token env a db ≡ (db', ok dto)
    → (c : Challenge) × (find (asked_for a.phone a.purpose a.context) db.challenges ≡ some c)
      × IsAnswerable policy env.now c
      × ((h : ℕ) → c.code_hash ≡ some h → hash_code c.id a.otp ≡ h)
      × (c.code_hash ≡ none → env.provider ≡ accepted)
verify_otp-IsAnswerable policy hash_code hash_token env a db db' dto e =
    let (c, found, fit, right) =
      verify_otp-accepted policy hash_code hash_token env a db db' dto e in
    let (stored, asked) = code_of_check policy hash_code hash_token env a.otp c right in
    (c, found, fit, stored, asked)
