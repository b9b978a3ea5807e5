-- ===== src/Otp/Budget.antt =====
-- The send budget (`assertSendBudget`) against what `requestOtp` adds to it.
use backend_new.Basics.{
  ℕ, ◌+◌, ◌-◌, ◌≤◌, ◌≡◌, refl, Bool, Option, none, some, List, [], ◌∷◌, arith, Text, Result, count,
  update_where, Bool-cases, inl, inr, count-update_where,
}
use backend_new.Otp.Store.{
  latest_of_class, Challenge, Db, Policy, Refusal, Purpose, has_id, of_class, sends, put, insert,
  write_audit,
}
use backend_new.Otp.Request.{
  Channel, dev, email, sms, accepted, Env, Request, RequestDto, request_otp, over_budget, supersede,
  retire, deliver, resend, create, touched, expire_pending, new_challenge, active_of, hour_ms,
  day_ms, gives_way,
}

-- `id` is the primary key.
abbrev pub UniqueIds : Db → Type 0
UniqueIds db = (id : ℕ) → count (has_id id) db.challenges ≤ 1

module _ (phone : Text) (p : Purpose) (since : ℕ) where
  total : Db → ℕ
  total db = sends phone p since db.challenges

  -- A write that leaves number, purpose, time and count of sends alone.
  sends-update_where :
      (q : Challenge → Bool) (f : Challenge → Challenge) (cs : List Challenge)
      → ((c : Challenge)
          → (of_class phone p (f c) ≡ of_class phone p c)
            × ((f c).created_at ≡ c.created_at)
            × ((f c).send_count ≡ c.send_count))
      → sends phone p since (update_where q f cs) ≡ sends phone p since cs
  unfolding sends
  sends-update_where q f [] same = refl
  sends-update_where q f (c ∷ cs) same = ground (arith, same c, sends-update_where q f cs same)

  -- One more send on the row of one id.
  sends-touch :
      (id : ℕ) (f : Challenge → Challenge) (cs : List Challenge)
      → ((c : Challenge)
          → (of_class phone p (f c) ≡ of_class phone p c)
            × ((f c).created_at ≡ c.created_at)
            × ((f c).send_count ≡ c.send_count + 1))
      → sends phone p since (update_where (has_id id) f cs)
        ≤ sends phone p since cs + count (has_id id) cs
  unfolding sends
  sends-touch id f [] more = omega arith
  sends-touch id f (c ∷ cs) more = ground (arith, more c, sends-touch id f cs more)

  module _ (policy : Policy) (hash_code : ℕ → Text → ℕ) where
    touched-sends :
        (now : ℕ) (h r : Option ℕ) (c : Challenge) (db : Db)
        → UniqueIds db
        → sends phone p since (put c.id (touched policy hash_code now h r) db).challenges
          ≤ total db + 1
    unfolding total put touched
    touched-sends now h r c db unique = omega (
      arith,
      unique c.id,
      sends-touch c.id (touched policy hash_code now h r) db.challenges (λ x. (refl, refl, refl)),
    )

    resend-sends :
        (by : Channel) (now : ℕ) (c : Challenge) (db : Db)
        → UniqueIds db
        → total (resend policy hash_code by now c db).0 ≤ total db + 1
    unfolding resend total write_audit
    resend-sends (dev code) now c db unique = touched-sends now _ none c db unique
    resend-sends (email code none) now c db unique = touched-sends now _ none c db unique
    resend-sends (email code (some retry)) now c db unique = touched-sends now _ none c db unique
    resend-sends (sms (accepted r)) now c db unique = touched-sends now none r c db unique
    resend-sends (sms other) now c db unique = omega arith

    create-sends :
        (by : Channel) (env : Env) (i : Request) (db : Db)
        → total (create policy hash_code by env i db).0 ≤ total db + 1
    unfolding create total insert new_challenge write_audit sends
    create-sends by env i db = ground arith

    deliver-sends :
        (env : Env) (i : Request) (a : Option Challenge) (db : Db)
        → UniqueIds db
        → total (deliver policy hash_code env i a db).0 ≤ total db + 1
    unfolding deliver
    deliver-sends env i none db unique = create-sends env.channel env i db
    deliver-sends env i (some c) db unique =
        ground (arith, resend-sends env.channel env.now c db unique)

  supersede-sends :
      (i : Request) (a : Option Challenge) (db : Db) → total (supersede i a db).0 ≡ total db
  unfolding supersede retire put total
  supersede-sends i none db = refl
  supersede-sends i (some c) db = elim (Bool-cases (gives_way i c)) [
    | inl gives ↦
        rw gives (sends-update_where (has_id c.id) expire_pending db.challenges (λ x. ground arith))
    | inr stays ↦ rw stays
  ]

pub supersede-UniqueIds :
    (i : Request) (a : Option Challenge) (db : Db) → UniqueIds db → UniqueIds (supersede i a db).0
unfolding supersede retire put
supersede-UniqueIds i none db unique = unique
supersede-UniqueIds i (some c) db unique = elim (Bool-cases (gives_way i c)) [
  | inl gives ↦ rw gives (λ id.
      rw
        (count-update_where (has_id id) (has_id c.id) expire_pending db.challenges
          (λ x. ground arith))
        (unique id))
  | inr stays ↦ rw stays unique
]

deliver_total :
    (i : Request) (since : ℕ) (policy : Policy) (hash_code : ℕ → Text → ℕ) (env : Env)
    (a : Option Challenge) (db : Db)
    → UniqueIds db
    → sends i.phone i.purpose since
        (deliver policy hash_code env i (supersede i a db).1 (supersede i a db).0).0.challenges
      ≤ sends i.phone i.purpose since db.challenges + 1
unfolding total
deliver_total i since policy hash_code env a db unique = omega (
  arith,
  deliver-sends i.phone i.purpose since policy hash_code env i (supersede i a db).1
      (supersede i a db).0 (supersede-UniqueIds i a db unique),
  supersede-sends i.phone i.purpose since i a db,
)

-- What the rows of a number and a class of purposes, created since a time, have been sent.
abbrev pub sent_since : Request → ℕ → Db → ℕ
sent_since i since db = sends i.phone i.purpose since db.challenges

-- However a request ends, it keeps both budgets of its number and class: where the sends of the
-- last hour and of the last day were within their caps, they still are.
pub request_otp-budget :
    (policy : Policy) (hash_code : ℕ → Text → ℕ) (env : Env) (i : Request) (db db' : Db)
    (r : Result Refusal RequestDto)
    → UniqueIds db
    → request_otp policy hash_code env i db ≡ (db', r)
    → sent_since i (env.now - hour_ms) db ≤ policy.max_sends_per_hour
    → sent_since i (env.now - day_ms) db ≤ policy.max_sends_per_day
    → (sent_since i (env.now - hour_ms) db' ≤ policy.max_sends_per_hour)
      × (sent_since i (env.now - day_ms) db' ≤ policy.max_sends_per_day)
unfolding request_otp over_budget
request_otp-budget policy hash_code env i db db' r unique e hour day =
    let active = active_of env.now (latest_of_class i.phone i.purpose db) in
    let spent = λ (since : ℕ). deliver_total i since policy hash_code env active db unique in
    ground (arith, spent (env.now - hour_ms), spent (env.now - day_ms))
