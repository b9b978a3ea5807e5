-- ===== src/Otp/Rows.antt =====
-- The rule by which a property of the table is kept by `requestOtp`, and the unique ids.
use backend_new.Basics.{
  ℕ, ◌≡◌, ◌⊎◌, refl, sym, ◌∙◌, false, Option, none, some, arith, Text, inl, inr, any,
  count-update_where, any-update_where, any-eq_false, Bool-cases,
}
use mathlib.Core.Path.{subst}
use backend_new.Otp.Store.{Challenge, Db, Policy, latest_of_class, has_id, put, insert, write_audit}
use backend_new.Otp.Request.{
  Env, Request, request_otp, supersede, retire, deliver, resend, create, touched, new_challenge,
  expire_pending, Channel, dev, email, sms, accepted, active_of, gives_way,
}
use backend_new.Otp.Budget.{UniqueIds}

module _ (policy : Policy) (hash_code : ℕ → Text → ℕ) where
  supersede-rows :
      (i : Request) (a : Option Challenge) (db : Db)
      → ((supersede i a db).0 ≡ db)
        ⊎ ((c : Challenge) × (a ≡ some c) × ((supersede i a db).0 ≡ retire c.id db))
  unfolding supersede
  supersede-rows i a db = ground arith

  deliver-rows :
      (env : Env) (i : Request) (a : Option Challenge) (db : Db)
      → ((deliver policy hash_code env i a db).0 ≡ db)
        ⊎ (((deliver policy hash_code env i a db).0
              ≡ (create policy hash_code env.channel env i db).0)
            ⊎ ((c : Challenge) × (a ≡ some c)
                × ((deliver policy hash_code env i a db).0
                    ≡ (resend policy hash_code env.channel env.now c db).0)))
  unfolding deliver
  deliver-rows env i a db = ground arith

  request_otp-rows :
      (env : Env) (i : Request) (db : Db)
      → let active = active_of env.now (latest_of_class i.phone i.purpose db) in
        let mid = supersede i active db in
        let after = (request_otp policy hash_code env i db).0 in
        (after ≡ db) ⊎ (after ≡ (deliver policy hash_code env i mid.1 mid.0).0)
  unfolding request_otp
  request_otp-rows env i db = ground arith

-- A property of the table that every single write of the service keeps. `fresh` is what is known of
-- the id of a new row.
pub record Rows (policy : Policy) (hash_code : ℕ → Text → ℕ) (Q : Db → Type 0) : Type 0 where
  pub retired : (id : ℕ) (db : Db) → Q db → Q (retire id db)
  pub resent :
      (by : Channel) (now : ℕ) (c : Challenge) (db : Db)
      → Q db
      → Q (resend policy hash_code by now c db).0
  pub sent :
      (by : Channel) (env : Env) (i : Request) (db : Db)
      → any (has_id env.fresh_id) db.challenges ≡ false
      → Q db
      → Q (create policy hash_code by env i db).0

module _ (policy : Policy) (hash_code : ℕ → Text → ℕ) (Q : Db → Type 0)
    (k : Rows policy hash_code Q) where
  supersede-Q : (i : Request) (a : Option Challenge) (db : Db) → Q db → Q (supersede i a db).0
  supersede-Q i a db q = elim (supersede-rows policy hash_code i a db) [
    | inl same ↦ subst Q (sym same) q
    | inr (c, _, retired) ↦ subst Q (sym retired) (k.retired c.id db q)
  ]

  deliver-Q :
      (env : Env) (i : Request) (a : Option Challenge) (db : Db)
      → any (has_id env.fresh_id) db.challenges ≡ false
      → Q db
      → Q (deliver policy hash_code env i a db).0
  deliver-Q env i a db fresh q = elim (deliver-rows policy hash_code env i a db) [
    | inl same ↦ subst Q (sym same) q
    | inr rest ↦ elim rest [
      | inl created ↦ subst Q (sym created) (k.sent env.channel env i db fresh q)
      | inr (c, _, again) ↦ subst Q (sym again) (k.resent env.channel env.now c db q)
    ]
  ]

supersede-fresh :
    (id : ℕ) (i : Request) (a : Option Challenge) (db : Db)
    → any (has_id id) (supersede i a db).0.challenges ≡ any (has_id id) db.challenges
unfolding supersede retire put
supersede-fresh id i none db = refl
supersede-fresh id i (some c) db = elim (Bool-cases (gives_way i c)) [
  | inl gives ↦
      rw gives (
        any-update_where (has_id id) (has_id c.id) expire_pending db.challenges (λ x. ground arith))
  | inr stays ↦ rw stays
]

-- A request keeps what its single writes keep, if the id of a new row is fresh.
pub request_otp-Q :
    (policy : Policy) (hash_code : ℕ → Text → ℕ) (Q : Db → Type 0)
    → Rows policy hash_code Q
    → (env : Env) (i : Request) (db : Db) → any (has_id env.fresh_id) db.challenges ≡ false
    → Q db
    → Q (request_otp policy hash_code env i db).0
request_otp-Q policy hash_code Q k env i db fresh q =
    let active = active_of env.now (latest_of_class i.phone i.purpose db) in
    elim (request_otp-rows policy hash_code env i db) [
      | inl same ↦ subst Q (sym same) q
      | inr delivered ↦ subst Q (sym delivered) (
          deliver-Q policy hash_code Q k env i (supersede i active db).1 (supersede i active db).0
            (supersede-fresh env.fresh_id i active db ∙ fresh)
            (supersede-Q policy hash_code Q k i active db q))
    ]

pub put-UniqueIds :
    (id : ℕ) (f : Challenge → Challenge) (db : Db)
    → ((c : Challenge) → (f c).id ≡ c.id)
    → UniqueIds db
    → UniqueIds (put id f db)
unfolding put
put-UniqueIds id f db same unique j =
    rw (count-update_where (has_id j) (has_id id) f db.challenges (λ c. rw (same c))) (unique j)

insert-UniqueIds :
    (c : Challenge) (db : Db)
    → any (has_id c.id) db.challenges ≡ false
    → UniqueIds db
    → UniqueIds (insert c db)
unfolding insert
insert-UniqueIds c db fresh unique j =
    ground (arith, any-eq_false (has_id c.id) db.challenges fresh, unique j)

module _ (policy : Policy) (hash_code : ℕ → Text → ℕ) where
  resend-UniqueIds :
      (by : Channel) (now : ℕ) (c : Challenge) (db : Db)
      → UniqueIds db
      → UniqueIds (resend policy hash_code by now c db).0
  unfolding resend write_audit touched
  resend-UniqueIds (dev code) now c db u = put-UniqueIds c.id _ db (λ x. refl) u
  resend-UniqueIds (email code none) now c db u = put-UniqueIds c.id _ db (λ x. refl) u
  resend-UniqueIds (email code (some retry)) now c db u = put-UniqueIds c.id _ db (λ x. refl) u
  resend-UniqueIds (sms (accepted r)) now c db u = put-UniqueIds c.id _ db (λ x. refl) u
  resend-UniqueIds (sms other) now c db u = u

  create-UniqueIds :
      (by : Channel) (env : Env) (i : Request) (db : Db)
      → any (has_id env.fresh_id) db.challenges ≡ false
      → UniqueIds db
      → UniqueIds (create policy hash_code by env i db).0
  unfolding create write_audit new_challenge
  create-UniqueIds (dev code) env i db fresh u = insert-UniqueIds _ db fresh u
  create-UniqueIds (email code none) env i db fresh u = insert-UniqueIds _ db fresh u
  create-UniqueIds (email code (some retry)) env i db fresh u = insert-UniqueIds _ db fresh u
  create-UniqueIds (sms (accepted r)) env i db fresh u = insert-UniqueIds _ db fresh u
  create-UniqueIds (sms other) env i db fresh u = u

  pub unique_rows : Rows policy hash_code UniqueIds
  unfolding retire
  unique_rows = record {
    retired = λ id db u. put-UniqueIds id expire_pending db (λ c. ground arith) u;
    resent = resend-UniqueIds;
    sent = create-UniqueIds;
  }
