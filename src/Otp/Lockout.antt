-- ===== src/Otp/Lockout.antt =====
-- What a wrong last attempt does to later requests.
use backend_new.Basics.{
  ℕ, ◌+◌, ◌*◌, ◌<◌, ◌≡◌, refl, true, some, ==_refl, is_after, arith, Text, err, find,
  find-update_where,
}
use backend_new.Otp.Store.{
  Purpose, Challenge, Db, Policy, incorrect, locked, latest_of_class, of_class, has_id, put,
  write_audit, asked_for, minute_ms, seconds_until,
}
use backend_new.Otp.Request.{Request, request_otp, until}
use backend_new.Otp.Request
use backend_new.Otp.Verify.{
  Answer, Env, verify_otp, answer_challenge, wrong, commit, spend, lock, lockout_end, check_code,
}

module _ (policy : Policy) (hash_code : ℕ → Text → ℕ) (hash_token : ℕ → ℕ) where
  -- The writes of the attempt that locks.
  locking_writes :
      (env : Env) (a : Answer) (db db' : Db) (c : Challenge)
      → find (asked_for a.phone a.purpose a.context) db.challenges ≡ some c
      → verify_otp policy hash_code hash_token env a db ≡ (db', err (incorrect 0))
      → db'.challenges
        ≡ (put c.id
            (lock (lockout_end policy hash_code hash_token env.now))
            (put c.id spend db)).challenges
  unfolding verify_otp answer_challenge wrong commit write_audit check_code
  locking_writes env a db db' c found e = ground arith

  -- Neither write changes what a search by number and class sees.
  locked-latest :
      (phone : Text) (p : Purpose) (db : Db) (c : Challenge) (until : ℕ)
      → latest_of_class phone p db ≡ some c
      → latest_of_class phone p (put c.id (lock until) (put c.id spend db))
        ≡ some (lock until (spend c))
  unfolding latest_of_class put lock spend
  locked-latest phone p db c until found =
      find-update_where (of_class phone p) (has_id c.id) (lock until) _ (spend c) (==_refl c.id)
        (λ x. refl)
        (find-update_where (of_class phone p) (has_id c.id) spend db.challenges c (==_refl c.id)
          (λ x. refl) found)

  request_otp-locked :
      (env : Request.Env) (i : Request) (db : Db) (c : Challenge)
      → latest_of_class i.phone i.purpose db ≡ some c
      → is_after c.locked_until env.now ≡ true
      → (retry : ℕ) × (request_otp policy hash_code env i db ≡ (db, err (locked retry)))
  unfolding request_otp
  request_otp-locked env i db c found h =
      (seconds_until (until c.locked_until) env.now, rw (found, h))

-- A wrong code that uses the last attempt of the newest challenge of its class locks the whole
-- class: until the lockout ends, every request for that number and for a purpose of the class is
-- refused as locked and writes nothing, whatever its purpose and context are.
pub lockout_holds :
    (policy : Policy) (hash_code : ℕ → Text → ℕ) (hash_token : ℕ → ℕ) (env : Env) (a : Answer)
    (db db' : Db) (c : Challenge) (later : Request.Env) (i : Request)
    → find (asked_for a.phone a.purpose a.context) db.challenges ≡ some c
    → latest_of_class i.phone i.purpose db ≡ some c
    → verify_otp policy hash_code hash_token env a db ≡ (db', err (incorrect 0))
    → later.now < env.now + policy.lockout_minutes * minute_ms
    → (retry : ℕ) × (request_otp policy hash_code later i db' ≡ (db', err (locked retry)))
lockout_holds policy hash_code hash_token env a db db' c later i found newest e soon =
    let end = lockout_end policy hash_code hash_token env.now in
    let writes = locking_writes policy hash_code hash_token env a db db' c found e in
    let row = locked-latest policy hash_code hash_token i.phone i.purpose db c end newest in
    request_otp-locked policy hash_code hash_token later i db' (lock end (spend c))
      (unfold latest_of_class in rw writes row) (unfold lock in ground arith)
