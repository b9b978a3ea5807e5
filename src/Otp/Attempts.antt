-- ===== src/Otp/Attempts.antt =====
-- How often a challenge can be answered, over every history of requests, answers and uses.
use backend_new.Basics.{
  ℕ, ◌+◌, ◌*◌, ◌≤◌, ◌<◌, ◌≡◌, ◌≢◌, ◌⊎◌, sym, ◌∙◌, refl, Bool, true, Option, none, some, ==_refl,
  arith, Text, All, find, update_where, inl, inr, count-update_where, All-update_found,
  All-update_when, All-update_where, update_where-twice, All-find,
}
use mathlib.Core.Path.{subst}
use backend_new.Otp.Store.{
  Challenge, Db, Policy, pending, verified, failed, is_pending, has_id, put, insert, write_audit,
  asked_for,
}
use backend_new.Otp.Request
use backend_new.Otp.Request.{
  Request, RequestDto, request_otp, over_budget, supersede, retire, deliver, resend, create,
  touched, new_challenge, expire_pending, gives_way, Channel, dev, email, sms, accepted, active_of,
}
use backend_new.Otp.Verify
use backend_new.Otp.Verify.{
  Answer, VerifyDto, Consumed, verify_otp, answer_challenge, wrong, commit, grant, lock, spend,
  expire, consume, may_grant, may_spend, consume_verification_token, refusal_of, is_expiry,
}
use backend_new.Otp.Budget.{UniqueIds}
use backend_new.Otp.Rows.{Rows, put-UniqueIds}

-- An attempt is counted before the code is checked; a pending row is one whose attempts are not
-- used up; a failed row is locked; a row that was verified was so within its attempts, and holds a
-- token; only such a row is ever spent.
pub record IsBounded (policy : Policy) (c : Challenge) : Type 0 where
  pub attempts : c.attempts ≤ policy.max_attempts + 1
  pub of_pending : c.status ≡ pending → c.attempts ≤ policy.max_attempts
  pub of_failed : c.status ≡ failed → c.locked_until ≢ none
  pub of_verified : c.status ≡ verified → (c.attempts ≤ policy.max_attempts) × (c.token_hash ≢ none)
  pub of_consumed : c.consumed_at ≢ none → c.status ≡ verified

module _ (policy : Policy) (hash_code : ℕ → Text → ℕ) (hash_token : ℕ → ℕ) where
  abbrev P : Challenge → Type 0
  P = IsBounded policy

  expire_pending-P : (c : Challenge) → P c → P (expire_pending c)
  expire_pending-P c h = ground arith

  touched-P :
      (now : ℕ) (h r : Option ℕ) (c : Challenge) → P c → P (touched policy hash_code now h r c)
  unfolding touched
  touched-P now h r c b = ground arith

  new-P :
      (env : Request.Env) (i : Request) (h r : Option ℕ)
      → P (new_challenge policy hash_code env i h r)
  unfolding new_challenge
  new-P env i h r = ground arith

  grant-P :
      (env : Verify.Env) (id : ℕ) (c : Challenge)
      → may_grant policy hash_code hash_token id env.commit_now c ≡ true
      → P c
      → P (grant policy hash_code hash_token env c)
  unfolding grant
  grant-P env id c may b = ground arith

  lock-P : (until : ℕ) (c : Challenge) → c.consumed_at ≡ none → P c → P (lock until c)
  unfolding lock
  lock-P until c fresh b = ground arith

  expire-P : (c : Challenge) → is_pending c.status ≡ true → P c → P (expire c)
  unfolding expire
  expire-P c open_now b = ground arith

  spend-P :
      (c : Challenge)
      → is_pending c.status ≡ true
      → c.attempts < policy.max_attempts
      → P c
      → P (spend c)
  unfolding spend
  spend-P c open_now left b = ground arith

  spend_lock-P :
      (until : ℕ) (c : Challenge) → is_pending c.status ≡ true → P c → P (lock until (spend c))
  unfolding spend lock
  spend_lock-P until c open_now b = ground arith

  pub consume-P :
      (token now : ℕ) (context : Option Text) (c : Challenge)
      → may_spend policy hash_code hash_token token now context c ≡ true
      → P c
      → P (consume policy hash_code hash_token now c)
  unfolding consume
  consume-P token now context c may b = ground arith

  -- The rows that an answer leaves behind.
  answer_challenge-rows :
      (env : Verify.Env) (a : Answer) (c : Challenge) (db : Db)
      → let spent = put c.id spend db in
        let after = (answer_challenge policy hash_code hash_token env a c db).0.challenges in
        (after ≡ (put c.id (lock (env.now + policy.lockout_minutes * 60000)) spent).challenges)
        ⊎ ((c.attempts < policy.max_attempts)
            × ((after ≡ spent.challenges)
                ⊎ (after
                    ≡ update_where
                        (may_grant policy hash_code hash_token c.id env.commit_now)
                        (grant policy hash_code hash_token env)
                        spent.challenges)))
  unfolding answer_challenge wrong commit write_audit
  answer_challenge-rows env a c db = ground arith

  verify_otp-rows :
      (db : Db) (env : Verify.Env) (a : Answer)
      → let after = (verify_otp policy hash_code hash_token env a db).0.challenges in
        (after ≡ db.challenges)
        ⊎ ((c : Challenge) × (find (asked_for a.phone a.purpose a.context) db.challenges ≡ some c)
            × (is_pending c.status ≡ true)
            × ((after ≡ (put c.id expire db).challenges)
                ⊎ (after ≡ (answer_challenge policy hash_code hash_token env a c db).0.challenges)))
  unfolding verify_otp
  verify_otp-rows db env a = ground arith

  module _ (db : Db) (unique : UniqueIds db) (all : All P db.challenges) where
    module _ (p : Challenge → Bool) (c : Challenge) (found : find p db.challenges ≡ some c) where
      put-P : (f : Challenge → Challenge) → P (f c) → All P (put c.id f db).challenges
      unfolding put
      put-P f h =
          All-update_found (has_id c.id) P f p db.challenges c (unique c.id) found (==_refl c.id) h
            all

      answer_challenge-P :
          (env : Verify.Env) (a : Answer)
          → is_pending c.status ≡ true
          → All P (answer_challenge policy hash_code hash_token env a c db).0.challenges
      unfolding put spend
      answer_challenge-P env a open_now =
          let bounded = All-find p P db.challenges c all found in
          let until = env.now + policy.lockout_minutes * 60000 in
          elim (answer_challenge-rows env a c db) [
            | inl locked ↦
                subst (All P)
                  (sym (
                    locked
                    ∙ update_where-twice (has_id c.id) (lock until) spend db.challenges
                        (λ x. refl)))
                  (put-P (λ x. lock until (spend x)) (spend_lock-P until c open_now bounded))
            | inr (left, rest) ↦
                let spent = put-P spend (spend-P c open_now left bounded) in
                elim rest [
                  | inl only ↦ subst (All P) (sym only) spent
                  | inr granted ↦ subst (All P) (sym granted) (
                      All-update_when (may_grant policy hash_code hash_token c.id env.commit_now) P
                        (grant policy hash_code hash_token env) (put c.id spend db).challenges
                        (grant-P env c.id) spent)
                ]
          ]

    pub verify_otp-P :
        (env : Verify.Env) (a : Answer)
        → All P (verify_otp policy hash_code hash_token env a db).0.challenges
    verify_otp-P env a = elim (verify_otp-rows db env a) [
      | inl same ↦ subst (All P) (sym same) all
      | inr (c, found, open_now, rest) ↦
          let asked = asked_for a.phone a.purpose a.context in
          elim rest [
            | inl expired_row ↦ subst (All P) (sym expired_row) (
                put-P asked c found expire
                  (expire-P c open_now (All-find asked P db.challenges c all found)))
            | inr answered ↦
                subst (All P) (sym answered) (answer_challenge-P asked c found env a open_now)
          ]
    ]

  put_any-P :
      (db : Db) (id : ℕ) (f : Challenge → Challenge)
      → ((c : Challenge) → P c → P (f c))
      → All P db.challenges
      → All P (put id f db).challenges
  unfolding put
  put_any-P db id f k all = All-update_where (has_id id) P f db.challenges k all

  resend-P :
      (by : Channel) (now : ℕ) (c : Challenge) (db : Db)
      → All P db.challenges
      → All P (resend policy hash_code by now c db).0.challenges
  unfolding resend write_audit
  resend-P (dev code) now c db all = put_any-P db c.id _ (touched-P now _ none) all
  resend-P (email code none) now c db all = put_any-P db c.id _ (touched-P now _ none) all
  resend-P (email code (some retry)) now c db all = put_any-P db c.id _ (touched-P now _ none) all
  resend-P (sms (accepted r)) now c db all = put_any-P db c.id _ (touched-P now none r) all
  resend-P (sms other) now c db all = all

  create-P :
      (by : Channel) (env : Request.Env) (i : Request) (db : Db)
      → All P db.challenges
      → All P (create policy hash_code by env i db).0.challenges
  unfolding create write_audit insert
  create-P (dev code) env i db all = (new-P env i _ none, all)
  create-P (email code none) env i db all = (new-P env i _ none, all)
  create-P (email code (some retry)) env i db all = (expire_pending-P _ (new-P env i _ none), all)
  create-P (sms (accepted r)) env i db all = (new-P env i none r, all)
  create-P (sms other) env i db all = all

  pub bounded_rows : Rows policy hash_code (λ db. All P db.challenges)
  unfolding retire
  bounded_rows = record {
    retired = λ id db all. put_any-P db id expire_pending expire_pending-P all;
    resent = resend-P;
    sent = λ by env i db fresh all. create-P by env i db all;
  }

  answer_challenge-UniqueIds :
      (env : Verify.Env) (a : Answer) (c : Challenge) (db : Db)
      → UniqueIds db
      → UniqueIds (answer_challenge policy hash_code hash_token env a c db).0
  unfolding put spend lock grant
  answer_challenge-UniqueIds env a c db u j =
      let spent = put-UniqueIds c.id spend db (λ x. refl) u in
      elim (answer_challenge-rows env a c db) [
        | inl locked ↦
            rw locked (put-UniqueIds c.id (lock _) (put c.id spend db) (λ x. refl) spent j)
        | inr (left, rest) ↦ elim rest [
          | inl only ↦ rw only (spent j)
          | inr granted ↦
              rw
                (
                  granted,
                  count-update_where (has_id j)
                      (may_grant policy hash_code hash_token c.id env.commit_now)
                      (grant policy hash_code hash_token env) (put c.id spend db).challenges
                      (λ x. refl),
                )
                (spent j)
        ]
      ]

  pub verify_otp-UniqueIds :
      (env : Verify.Env) (a : Answer) (db : Db)
      → UniqueIds db
      → UniqueIds (verify_otp policy hash_code hash_token env a db).0
  unfolding expire
  verify_otp-UniqueIds env a db u j = elim (verify_otp-rows db env a) [
    | inl same ↦ rw same (u j)
    | inr (c, found, open_now, rest) ↦ elim rest [
      | inl gone ↦ rw gone (put-UniqueIds c.id expire db (λ x. refl) u j)
      | inr answered ↦ rw answered (answer_challenge-UniqueIds env a c db u j)
    ]
  ]
