-- ===== src/Otp/Tests.antt =====
-- Runs of the OTP service, and the theorems applied to them. The hashes are concrete functions.
use backend_new.Basics.{
  ℕ, ◌+◌, ◌-◌, ◌*◌, ◌≡◌, ◌++◌, List, ◌≤◌, refl, true, none, some, [], ◌∷◌, ok, err, Text, All,
  text_eq, find, arith, is_after, is_truthy,
}
use backend_new.Otp.Store.{
  Policy, Db, Challenge, transaction_approval, verified, pending, locked, token_refused,
  latest_of_class, sends, put, insert, write_audit, asked_for,
}
use backend_new.Otp.Request
use backend_new.Otp.Request.{
  Request, RequestDto, dev, request_otp, over_budget, supersede, retire, deliver, resend, create,
  touched, new_challenge, hour_ms, day_ms,
}
use backend_new.Otp.Verify
use backend_new.Otp.Verify.{
  Answer, VerifyDto, Consumed, accepted, verify_otp, answer_challenge, wrong, commit, check_code,
  grant, lock, spend, expire, verify_phone, consume, consume_verification_token, may_spend,
  with_token,
}
use backend_new.Otp.Lockout.{lockout_holds}
use backend_new.Otp.Accepts.{IsAnswerable, verify_otp-IsAnswerable}
use backend_new.Otp.Tokens.{consume_once, consume-IsBound}
use backend_new.Otp.Budget.{sent_since, request_otp-budget}
use backend_new.Otp.Attempts.{IsBounded}
use backend_new.Otp.History.{
  Reach, start, later, requests, answers, spends, no_rows, Reach-IsBounded,
}

service : Unit {0}
unfolding latest_of_class sends put insert write_audit request_otp over_budget supersede retire
    deliver resend create touched new_challenge verify_otp answer_challenge wrong commit check_code
    grant lock spend expire verify_phone consume consume_verification_token text_eq
service = tt

abbrev policy : Policy
policy = record {
  otp_length = 6;
  ttl_minutes = 10;
  max_attempts = 2;
  resend_cooldown_seconds = 60;
  max_sends_per_hour = 5;
  max_sends_per_day = 10;
  lockout_minutes = 30;
  token_ttl_minutes = 15;
}

abbrev hash_code : ℕ → Text → ℕ
hash_code id [] = id
hash_code id (c ∷ cs) = c + 1000 * id

abbrev hash_token : ℕ → ℕ
hash_token t = t + 1

abbrev number : Text
number = 57 ∷ 56 ∷ []

abbrev sell : Request
sell = record { phone = number; purpose = transaction_approval; context = some (83 ∷ []) }

abbrev at_noon : Request.Env
at_noon = record { now = 43200000; db_now = 43200000; fresh_id = 1; channel = dev (49 ∷ []) }

abbrev asked : Db
asked = (request_otp policy hash_code at_noon sell no_rows).0

abbrev guess : Text → Answer
guess code = record {
  phone = number;
  purpose = transaction_approval;
  context = some (83 ∷ []);
  otp = code;
}

abbrev soon : Verify.Env
soon = record {
  now = 43260000;
  commit_now = 43260000;
  token = 77;
  provider = Verify.refused Verify.other;
}

abbrev missed_once : Db
missed_once = (verify_otp policy hash_code hash_token soon (guess (50 ∷ [])) asked).0

abbrev missed_twice : Db
missed_twice = (verify_otp policy hash_code hash_token soon (guess (51 ∷ [])) missed_once).0

abbrev proved : Db
proved = (verify_otp policy hash_code hash_token soon (guess (49 ∷ [])) missed_once).0

abbrev used : Db
used =
    (consume_verification_token policy hash_code hash_token 43300000 77 (some (83 ∷ [])) proved).0

run : Reach policy hash_code hash_token no_rows used
unfolding service
run =
    later
      (later
        (later (later start (requests at_noon sell refl refl))
          (answers soon (guess (50 ∷ [])) refl))
        (answers soon (guess (49 ∷ [])) refl))
      (spends 43300000 77 (some (83 ∷ [])) refl)

Reach-IsBounded_example : All (IsBounded policy) used.challenges
Reach-IsBounded_example = Reach-IsBounded policy hash_code hash_token used run

abbrev row : ℕ → Challenge
row attempts = record {
  id = 1;
  phone = number;
  purpose = transaction_approval;
  context = some (83 ∷ []);
  status = pending;
  provider_request_id = none;
  code_hash = some 1049;
  attempts = attempts;
  send_count = 1;
  expires_at = 43800000;
  last_sent_at = 43200000;
  verified_at = none;
  locked_until = none;
  token_hash = none;
  token_expires_at = none;
  consumed_at = none;
  created_at = 43200000;
}

abbrev other_sale : Request
other_sale = record sell { context = some (84 ∷ []) }

lockout_holds_example :
    let later : Request.Env = record at_noon { now = 44000000 } in
    (retry : ℕ) × (request_otp policy hash_code later other_sale missed_twice
      ≡ (missed_twice, err (locked retry)))
unfolding service
lockout_holds_example =
    lockout_holds policy hash_code hash_token soon (guess (51 ∷ [])) missed_once missed_twice
      (row 1) (record at_noon { now = 44000000 }) other_sale refl refl refl (omega arith)

verify_otp-IsAnswerable_example :
    (c : Challenge) × (find
        (asked_for number transaction_approval (some (83 ∷ [])))
        missed_once.challenges
      ≡ some c)
    × IsAnswerable policy soon.now c
    × ((h : ℕ) → c.code_hash ≡ some h → hash_code c.id (49 ∷ []) ≡ h)
    × (c.code_hash ≡ none → soon.provider ≡ accepted)
unfolding service
verify_otp-IsAnswerable_example =
    verify_otp-IsAnswerable policy hash_code hash_token soon (guess (49 ∷ [])) missed_once proved
      (record { token = 77; token_expires_at = 44160000 }) refl

consume_once_example :
    (consume_verification_token policy hash_code hash_token 43400000 77 none used).1
    ≡ err token_refused
unfolding service
consume_once_example =
    consume_once policy hash_code hash_token 43300000 43400000 77 (some (83 ∷ [])) none proved used
      (record { phone = number; purpose = transaction_approval }) (omega arith) refl

consume-IsBound_example :
    (front : List Challenge) × (c : Challenge) × (back : List Challenge) × (proved.challenges
      ≡ front ++ c ∷ back)
    × (used.challenges ≡ front ++ record c { consumed_at = some 43300000 } ∷ back)
    × (number ≡ c.phone)
    × (transaction_approval ≡ c.purpose)
    × (c.token_hash ≡ some 78)
    × (c.status ≡ verified)
    × (c.consumed_at ≡ none)
    × (is_after c.token_expires_at 43300000 ≡ true)
    × (is_truthy (some (83 ∷ [])) ≡ true
        → (c.context ≡ some (83 ∷ [])) × (c.purpose ≡ transaction_approval))
unfolding service
consume-IsBound_example =
    consume-IsBound policy hash_code hash_token 43300000 77 (some (83 ∷ [])) proved used
      (record { phone = number; purpose = transaction_approval }) (omega arith) refl

request_otp-budget_example :
    (sent_since sell (at_noon.now - hour_ms) asked ≤ 5)
    × (sent_since sell (at_noon.now - day_ms) asked ≤ 10)
unfolding service
request_otp-budget_example =
    request_otp-budget policy hash_code at_noon sell no_rows asked
      (ok (record { expires_at = 43800000; retry_after_seconds = 60; attempts_remaining = 2 }))
      (λ id. omega arith) refl (omega arith) (omega arith)
