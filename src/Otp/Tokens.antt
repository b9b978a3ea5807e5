-- ===== src/Otp/Tokens.antt =====
-- Spending a verification token.
use backend_new.Basics.{
  ℕ, ◌≤◌, ◌≡◌, ◌++◌, ◌∙◌, ap, refl, Bool, true, false, Option, none, some, List, [], ◌∷◌, arith,
  Text, same_text_iff, same_option_iff, is_truthy, is_after, any, count, find, ok, err,
  update_where, Bool-cases, inl, inr,
}
use backend_new.Otp.Store.{Challenge, Db, Policy, verified, transaction_approval, token_refused}
use backend_new.Otp.Verify.{consume_verification_token, may_spend, consume, with_token, Consumed}

module _ (policy : Policy) (hash_code : ℕ → Text → ℕ) (hash_token : ℕ → ℕ) (token : ℕ) where
  -- The rows that hold the token.
  abbrev pub holders : Db → ℕ
  holders db = count (with_token policy hash_code hash_token token) db.challenges

  abbrev spends : ℕ → Option Text → Challenge → Bool
  spends now context = may_spend policy hash_code hash_token token now context

  no_holder :
      (now now' : ℕ) (context context' : Option Text) (cs : List Challenge)
      → count (with_token policy hash_code hash_token token) cs ≡ 0
      → any
          (spends now' context')
          (update_where (spends now context) (consume policy hash_code hash_token now) cs)
        ≡ false
  unfolding consume
  no_holder now now' context context' [] zero = refl
  no_holder now now' context context' (c ∷ cs) zero =
      elim (Bool-cases (with_token policy hash_code hash_token token c)) [
        | inl holds ↦ absurd (let bad = rw holds at zero in omega arith)
        | inr other ↦ rw (other, other) (no_holder now now' context context' cs (rw other at zero))
      ]

  not_spent :
      (now : ℕ) (context : Option Text) (cs : List Challenge)
      → count (with_token policy hash_code hash_token token) cs ≡ 0
      → any (spends now context) cs ≡ false
  not_spent now context [] zero = refl
  not_spent now context (c ∷ cs) zero =
      elim (Bool-cases (with_token policy hash_code hash_token token c)) [
        | inl holds ↦ absurd (let bad = rw holds at zero in omega arith)
        | inr other ↦ rw other (not_spent now context cs (rw other at zero))
      ]

  consumed_once :
      (now now' : ℕ) (context context' : Option Text) (c : Challenge)
      → spends now context c ≡ true
      → spends now' context' (consume policy hash_code hash_token now c) ≡ false
  unfolding consume
  consumed_once now now' context context' c h = ground arith

  -- With one holder, once it is spent no row can be spent again.
  none_left :
      (now now' : ℕ) (context context' : Option Text) (cs : List Challenge)
      → count (with_token policy hash_code hash_token token) cs ≤ 1
      → any (spends now context) cs ≡ true
      → any
          (spends now' context')
          (update_where (spends now context) (consume policy hash_code hash_token now) cs)
        ≡ false
  unfolding consume
  none_left now now' context context' [] few hit = absurd (cc)
  none_left now now' context context' (c ∷ cs) few hit =
      elim (Bool-cases (with_token policy hash_code hash_token token c)) [
        | inl holds ↦
            let rest : count (with_token policy hash_code hash_token token) cs ≡ 0 =
              let few' = rw holds at few in omega arith in
            elim (Bool-cases (spends now context c)) [
              | inl spent ↦
                  rw (spent, consumed_once now now' context context' c spent)
                    (no_holder now now' context context' cs rest)
              | inr kept ↦
                  absurd (
                    let bad = rw kept at hit in
                    let none_there = not_spent now context cs rest in cc)
            ]
        | inr other ↦
            rw (other, other)
              (none_left now now' context context' cs (rw other at few) (rw other at hit))
      ]

consume_db :
    (policy : Policy) (hash_code : ℕ → Text → ℕ) (hash_token : ℕ → ℕ) (now token : ℕ)
    (context : Option Text) (db db' : Db) (r : Consumed)
    → consume_verification_token policy hash_code hash_token now token context db ≡ (db', ok r)
    → (any (may_spend policy hash_code hash_token token now context) db.challenges ≡ true)
      × (db'.challenges
          ≡ update_where
              (may_spend policy hash_code hash_token token now context)
              (consume policy hash_code hash_token now)
              db.challenges)
unfolding consume_verification_token
consume_db policy hash_code hash_token now token context db db' r e = ground arith

-- A token that one row at most holds is spent once: after a use that succeeded, every later use of
-- it is refused, at any time and for any context.
pub consume_once :
    (policy : Policy) (hash_code : ℕ → Text → ℕ) (hash_token : ℕ → ℕ) (now now' token : ℕ)
    (context context' : Option Text) (db db' : Db) (r : Consumed)
    → count (with_token policy hash_code hash_token token) db.challenges ≤ 1
    → consume_verification_token policy hash_code hash_token now token context db ≡ (db', ok r)
    → (consume_verification_token policy hash_code hash_token now' token context' db').1
      ≡ err token_refused
unfolding consume_verification_token
consume_once policy hash_code hash_token now now' token context context' db db' r few e =
    let (hit, after) = consume_db policy hash_code hash_token now token context db db' r e in
    let refused =
      none_left policy hash_code hash_token token now now' context context' db.challenges few hit in
    rw (after, refused)

module _ (policy : Policy) (hash_code : ℕ → Text → ℕ) (hash_token : ℕ → ℕ) (token now : ℕ)
    (context : Option Text) where
  abbrev uses : Challenge → Bool
  uses = may_spend policy hash_code hash_token token now context

  unmoved :
      (cs : List Challenge)
      → count (with_token policy hash_code hash_token token) cs ≡ 0
      → update_where uses (consume policy hash_code hash_token now) cs ≡ cs
  unmoved [] zero = refl
  unmoved (c ∷ cs) zero = elim (Bool-cases (with_token policy hash_code hash_token token c)) [
    | inl holds ↦ absurd (let bad = rw holds at zero in omega arith)
    | inr other ↦ rw other (ap (λ rest. c ∷ rest) (unmoved cs (rw other at zero)))
  ]

  -- The one row that a use changes, and where it stands.
  pub record IsSplit (cs after : List Challenge) : Type 0 where
    pub front : List Challenge
    pub row : Challenge
    pub back : List Challenge
    pub before : cs ≡ front ++ row ∷ back
    pub marked : after ≡ front ++ record row { consumed_at = some now } ∷ back
    pub passed : uses row ≡ true
    pub read :
        find (with_token policy hash_code hash_token token) after
        ≡ some (record row { consumed_at = some now })

  update_where-IsSplit :
      (cs : List Challenge)
      → count (with_token policy hash_code hash_token token) cs ≤ 1
      → any uses cs ≡ true
      → IsSplit cs (update_where uses (consume policy hash_code hash_token now) cs)
  unfolding consume
  update_where-IsSplit [] few hit = absurd (cc)
  update_where-IsSplit (c ∷ cs) few hit =
      elim (Bool-cases (with_token policy hash_code hash_token token c)) [
        | inl holds ↦
            let rest : count (with_token policy hash_code hash_token token) cs ≡ 0 =
              let few' = rw holds at few in omega arith in
            elim (Bool-cases (uses c)) [
              | inl spent ↦ record {
                front = [];
                row = c;
                back = cs;
                before = refl;
                marked =
                    rw spent
                      (ap (λ us. record c { consumed_at = some now } ∷ us) (unmoved cs rest));
                passed = spent;
                read = rw (spent, holds);
              }
              | inr kept ↦ absurd (
                  let bad = rw kept at hit in
                  let none_there =
                    not_spent policy hash_code hash_token token now context cs rest in
                  cc)
            ]
        | inr other ↦
            let s = update_where-IsSplit cs (rw other at few) (rw other at hit) in
            let marked = s.marked in
            let read = s.read in
            record {
              front = c ∷ s.front;
              row = s.row;
              back = s.back;
              before = ap (λ us. c ∷ us) s.before;
              marked = rw other (ap (λ us. c ∷ us) marked);
              passed = s.passed;
              read = rw (other, other) read;
            }
      ]

  answer_of :
      (db db' : Db) (r : Consumed) (c : Challenge)
      → any uses db.challenges ≡ true
      → find
          (with_token policy hash_code hash_token token)
          (update_where uses (consume policy hash_code hash_token now) db.challenges)
        ≡ some c
      → consume_verification_token policy hash_code hash_token now token context db ≡ (db', ok r)
      → (r.phone ≡ c.phone) × (r.purpose ≡ c.purpose)
  unfolding consume_verification_token
  answer_of db db' r c hit found e = let got = rw (hit, found) at e in ground arith

-- A use of a token that one row at most holds, when it succeeds, spends one row and leaves all the
-- others and their order: that row held the token, was verified, unspent and in time, and, where the
-- caller names a context, was a transaction's challenge for this very context; it is then marked as
-- spent at that moment, and the answer is its phone and its purpose.
pub consume-IsBound :
    (policy : Policy) (hash_code : ℕ → Text → ℕ) (hash_token : ℕ → ℕ) (now token : ℕ)
    (context : Option Text) (db db' : Db) (r : Consumed)
    → count (with_token policy hash_code hash_token token) db.challenges ≤ 1
    → consume_verification_token policy hash_code hash_token now token context db ≡ (db', ok r)
    → (front : List Challenge) × (c : Challenge) × (back : List Challenge) × (db.challenges
        ≡ front ++ c ∷ back)
      × (db'.challenges ≡ front ++ record c { consumed_at = some now } ∷ back)
      × (r.phone ≡ c.phone)
      × (r.purpose ≡ c.purpose)
      × (c.token_hash ≡ some (hash_token token))
      × (c.status ≡ verified)
      × (c.consumed_at ≡ none)
      × (is_after c.token_expires_at now ≡ true)
      × (is_truthy context ≡ true → (c.context ≡ context) × (c.purpose ≡ transaction_approval))
consume-IsBound policy hash_code hash_token now token context db db' r few e =
    let (hit, after) = consume_db policy hash_code hash_token now token context db db' r e in
    let s =
      update_where-IsSplit policy hash_code hash_token token now context db.challenges few hit in
    let (phone, purpose) =
      answer_of policy hash_code hash_token token now context db db' r
        (record s.row { consumed_at = some now }) hit s.read e in
    let passed = s.passed in
    (
      s.front,
      s.row,
      s.back,
      s.before,
      after ∙ s.marked,
      phone,
      purpose,
      ground (arith, same_option_iff s.row.token_hash (some (hash_token token))),
      ground arith,
      ground arith,
      ground arith,
      λ named. (ground (arith, same_text_iff s.row.context context), ground arith),
    )
