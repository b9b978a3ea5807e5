-- ===== src/Otp/History.antt =====
-- Histories of requests, answers and uses of tokens, over the whole table.
use backend_new.Basics.{
  ℕ, ◌≡◌, refl, sym, false, Option, [], any, All, All-update_when, count-update_where, Text, arith,
  update_where,
}
use mathlib.Core.Path.{subst}
use backend_new.Otp.Store.{Db, Policy, has_id}
use backend_new.Otp.Request
use backend_new.Otp.Request.{Request, request_otp}
use backend_new.Otp.Verify
use backend_new.Otp.Verify.{Answer, verify_otp, consume_verification_token, may_spend, consume}
use backend_new.Otp.Budget.{UniqueIds}
use backend_new.Otp.Rows.{request_otp-Q, unique_rows}
use backend_new.Otp.Attempts.{
  IsBounded, bounded_rows, verify_otp-P, verify_otp-UniqueIds, consume-P,
}

abbrev pub no_rows : Db
no_rows = record { challenges = []; users = []; audits = [] }

module _ (policy : Policy) (hash_code : ℕ → Text → ℕ) (hash_token : ℕ → ℕ) where
  -- One call, whatever it answers. The database gives a new row an id that no row has.
  pub data Step : Db → Db → Type 0 where
    requests :
        {db db' : Db} (env : Request.Env) (i : Request)
        → any (has_id env.fresh_id) db.challenges ≡ false
        → (request_otp policy hash_code env i db).0 ≡ db'
        → Step db db'
    answers :
        {db db' : Db} (env : Verify.Env) (a : Answer)
        → (verify_otp policy hash_code hash_token env a db).0 ≡ db'
        → Step db db'
    spends :
        {db db' : Db} (now token : ℕ) (context : Option Text)
        → (consume_verification_token policy hash_code hash_token now token context db).0 ≡ db'
        → Step db db'

  pub data Reach (db : Db) : Db → Type 0 where
    start : Reach db db
    later : {mid db' : Db} → Reach db mid → Step mid db' → Reach db db'

  record Inv (db : Db) : Type 0 where
    unique : UniqueIds db
    bounded : All (IsBounded policy) db.challenges

  consume-rows :
      (now token : ℕ) (context : Option Text) (db : Db)
      → (consume_verification_token policy hash_code hash_token now token context db).0.challenges
        ≡ update_where
            (may_spend policy hash_code hash_token token now context)
            (consume policy hash_code hash_token now)
            db.challenges
  unfolding consume_verification_token
  consume-rows now token context db = ground arith

  Step-Inv : {db db' : Db} → Step db db' → Inv db → Inv db'
  unfolding consume
  Step-Inv {db} (requests env i fresh e) v = subst Inv e (record {
    unique =
        request_otp-Q policy hash_code UniqueIds (unique_rows policy hash_code) env i db fresh
          v.unique;
    bounded =
        request_otp-Q policy hash_code _ (bounded_rows policy hash_code hash_token) env i db fresh
          v.bounded;
  })
  Step-Inv {db} (answers env a e) v = subst Inv e (record {
    unique = verify_otp-UniqueIds policy hash_code hash_token env a db v.unique;
    bounded = verify_otp-P policy hash_code hash_token db v.unique v.bounded env a;
  })
  Step-Inv {db} (spends now token context e) v = subst Inv e (record {
    unique = λ id.
        rw
          (
            consume-rows now token context db,
            count-update_where (has_id id) (may_spend policy hash_code hash_token token now context)
                (consume policy hash_code hash_token now) db.challenges (λ x. refl),
          )
          (v.unique id);
    bounded = subst (All (IsBounded policy)) (sym (consume-rows now token context db)) (
        All-update_when (may_spend policy hash_code hash_token token now context) (IsBounded policy)
          (consume policy hash_code hash_token now) db.challenges
          (consume-P policy hash_code hash_token token now context) v.bounded);
  })

  Reach-Inv : {db : Db} → Reach no_rows db → Inv db
  Reach-Inv start = record { unique = λ id. omega arith; bounded = tt }
  Reach-Inv (later r s) = Step-Inv s (Reach-Inv r)

-- After any history of requests, answers and uses of tokens, in any order and with any outcome, no
-- challenge has counted more than one attempt beyond the cap; a pending one has not counted more
-- than the cap; a failed one is locked; a verified one was verified within the cap and holds a
-- token; and a token was spent only on a verified one.
pub Reach-IsBounded :
    (policy : Policy) (hash_code : ℕ → Text → ℕ) (hash_token : ℕ → ℕ) (db : Db)
    → Reach policy hash_code hash_token no_rows db
    → All (IsBounded policy) db.challenges
Reach-IsBounded policy hash_code hash_token db r = (Reach-Inv policy hash_code hash_token r).bounded
