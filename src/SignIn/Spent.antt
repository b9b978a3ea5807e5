-- ===== src/SignIn/Spent.antt =====
-- A step that a code claims is spent, and stays so.
use backend_new.Basics.{
  ℕ, ◌≡◌, ◌⊎◌, ◌≢◌, ◌≤◌, refl, sym, ap, ◌∙◌, subst, Bool, true, false, not, ◌||◌, Option, none,
  some, List, ◌∷◌, All, Text, any, any-update_where, find, keep, count, leb, update_where,
  All-update_when, All-kept, any-keep, All-weaker, All-update_each, any-weaker, ==_iff, ◌==◌,
  is_none, arith, Option-cases, Bool-cases, inl, inr, ok, some-injective,
}
use backend_new.SignIn.Totp.{verify_totp}
use backend_new.SignIn.Store.{
  Factor, Db, Principal, is_confirmed, record_login, audit, put_credential, put_sessions,
  touch_login, is_setup, max_failed_mfa_per_account,
}
use backend_new.SignIn.Factor.{
  begin_mfa_setup, unconfirmed_of, may_try, checked_factor, may_claim, claim, is_less, verify_mfa,
  check_factor, claimed, refuse_code, accept_code, tried, lock_for_mfa_failures, recent_failure,
}
use backend_new.SignIn.Steps.{World}
use backend_new.SignIn.Replay.{IsUsed, IsSpent, IsBound, kept, claim-IsUsed}

module _ (w : World) where
  -- The second step refuses and leaves the factors, or claims a step of the factor that it checks.
  pub record Accepts (now db_now : ℕ) (p : Principal) (code : Text) (db : Db) : Type 0 where
    pub factor : Factor
    pub step : ℕ
    pub found : find (checked_factor p) db.factors ≡ some factor
    pub claims : claimed w.hmac now code factor db ≡ some step
    pub answers : (verify_mfa w.hmac now db_now p code db).1 ≡ ok tt
    pub written :
        (verify_mfa w.hmac now db_now p code db).0.factors
        ≡ update_where (may_claim factor.id step) (claim step now) db.factors

  abbrev pub Refuses : ℕ → ℕ → Principal → Text → Db → Type 0
  Refuses now db_now p code db =
      ((verify_mfa w.hmac now db_now p code db).0.factors ≡ db.factors)
      × ((verify_mfa w.hmac now db_now p code db).1 ≢ ok tt)

  enrolled :
      (now db_now : ℕ) (p : Principal) (f : Factor) (step : ℕ) (db : Db)
      → (accept_code w.hmac now db_now p f step db).0.factors
        ≡ update_where (may_claim f.id step) (claim step now) db.factors
  unfolding accept_code record_login audit put_sessions touch_login
  enrolled now db_now p f step db = elim (Bool-cases (is_none f.confirmed_at)) [
    | inl fresh ↦ rw (fresh, audit)
    | inr old ↦ rw (old)
  ]

  checked :
      (now db_now : ℕ) (p : Principal) (code : Text) (f : Factor) (db : Db)
      → (((check_factor w.hmac now db_now p code f db).0.factors ≡ db.factors)
          × ((check_factor w.hmac now db_now p code f db).1 ≢ ok tt))
        ⊎ ((step : ℕ) × (claimed w.hmac now code f db ≡ some step)
            × ((check_factor w.hmac now db_now p code f db).1 ≡ ok tt)
            × ((check_factor w.hmac now db_now p code f db).0.factors
                ≡ update_where (may_claim f.id step) (claim step now) db.factors))
  unfolding check_factor refuse_code accept_code put_sessions record_login claimed
  checked now db_now p code f db = elim (Bool-cases (any (may_try p.session_id) db.sessions)) [
    | inr out ↦ inl (rw (out, check_factor), λ e. let bad = rw (out, check_factor) at e in cc)
    | inl in_time ↦ elim (Option-cases (claimed w.hmac now code f db)) [
      | inl wrong ↦ inl (
        rw (in_time, check_factor, wrong),
        λ e. let bad = rw (in_time, check_factor, wrong) at e in cc,
      )
      | inr (step, right) ↦ inr (
        step,
        right,
        rw (in_time, check_factor, right),
        rw (in_time, check_factor, right)
            (enrolled now db_now p f step (put_sessions (may_try p.session_id) tried db)),
      )
    ]
  ]

  abbrev is_capped : Principal → ℕ → Db → Bool
  is_capped p now db =
      leb max_failed_mfa_per_account (count (recent_failure p.staff_id now) db.events)

  pub verify_mfa-cases :
      (now db_now : ℕ) (p : Principal) (code : Text) (db : Db)
      → Refuses now db_now p code db ⊎ Accepts now db_now p code db
  unfolding verify_mfa lock_for_mfa_failures audit put_sessions put_credential
  verify_mfa-cases now db_now p code db = elim (Option-cases (find (checked_factor p) db.factors)) [
    | inl missing ↦
        inl (rw (missing, verify_mfa), λ e. let bad = rw (missing, verify_mfa) at e in cc)
    | inr (f, here) ↦ elim (Bool-cases (is_capped p now db)) [
      | inl capped ↦
          inl
            (rw (here, verify_mfa, capped), λ e. let bad = rw (here, verify_mfa, capped) at e in cc)
      | inr free ↦ elim (checked now db_now p code f db) [
        | inl (same, refused) ↦
            inl (rw (here, verify_mfa, free) same, λ e. refused (rw (here, verify_mfa, free) at e))
        | inr (step, right, answers, written) ↦ inr (record {
          answers = rw (here, verify_mfa, free) answers;
          factor = f;
          step = step;
          found = here;
          claims = right;
          written = rw (here, verify_mfa, free) written;
        })
      ]
    ]
  ]

  made :
      (k id step now : ℕ) (f : Factor)
      → may_claim id step f ≡ true
      → IsUsed k step (claim step now f)
  made k id step now f may = record {
    confirmed = λ mine. ground arith;
    used = λ mine. (step, refl, ground arith);
  }

  missed_last :
      (o : Option ℕ) (step : ℕ) (c : Bool)
      → (is_none o || is_less o step) ≡ false
      → (is_none o || c) ≡ true
      → (c ≡ true) × ((l : ℕ) × (o ≡ some l) × (step ≤ l))
  missed_last none step c may bound = absurd (cc)
  missed_last (some l) step c may bound = (ground arith, (l, refl, ground arith))

  held : (k step : ℕ) (f : Factor) → may_claim k step f ≡ false → IsBound f → IsUsed k step f
  held k step f may bound = record {
    confirmed = λ mine.
        (missed_last f.last_used_step step (is_confirmed f) (ground (arith, ==_iff f.id k))
          bound).0;
    used = λ mine.
        (missed_last f.last_used_step step (is_confirmed f) (ground (arith, ==_iff f.id k))
          bound).1;
  }

  pub claimed-eq_some :
      (now : ℕ) (code : Text) (f : Factor) (db : Db) (step : ℕ)
      → claimed w.hmac now code f db ≡ some step
      → (verify_totp w.hmac f.secret code now f.last_used_step ≡ some step)
        × (any (may_claim f.id step) db.factors ≡ true)
  unfolding claimed
  claimed-eq_some now code f db step e =
      elim (Option-cases (verify_totp w.hmac f.secret code now f.last_used_step)) [
        | inl wrong ↦ absurd (let bad = rw (wrong, claimed) at e in cc)
        | inr (n, right) ↦ elim (Bool-cases (any (may_claim f.id n) db.factors)) [
          | inl free ↦
              let same = some-injective n step (rw (right, claimed, free) at e) in
              (
                right ∙ ap some same,
                subst (λ k. any (may_claim f.id k) db.factors ≡ true) same free,
              )
          | inr taken ↦ absurd (let bad = rw (right, claimed, taken) at e in cc)
        ]
      ]

  -- A code that is accepted spends its step.
  pub accepted-IsSpent :
      (now db_now : ℕ) (p : Principal) (code : Text) (db : Db) (a : Accepts now db_now p code db)
      → All IsBound db.factors
      → IsSpent a.factor.id a.step (verify_mfa w.hmac now db_now p code db).0
  accepted-IsSpent now db_now p code db a bound =
      let k = a.factor.id in
      let n = a.step in
      let wrote = a.written in
      let (right, free) = claimed-eq_some now code a.factor db n a.claims in
      record {
        there =
            ap (any (λ f. f.id == k)) wrote
            ∙ any-update_where (λ f. f.id == k) (may_claim k n) (claim n now) db.factors (λ x. refl)
            ∙ any-weaker (may_claim k n) (λ f. f.id == k) db.factors (λ f h. ground arith) free;
        spent = subst (All (IsUsed k n)) (sym wrote) (
            All-update_each (may_claim k n) IsBound (IsUsed k n) (claim n now) db.factors
              (λ f may b. made k k n now f may) (held k n) bound);
      }

  -- It stays spent.
  pub verify_mfa-IsSpent :
      (k n now db_now : ℕ) (p : Principal) (code : Text) (db : Db)
      → IsSpent k n db
      → IsSpent k n (verify_mfa w.hmac now db_now p code db).0
  verify_mfa-IsSpent k n now db_now p code db h = elim (verify_mfa-cases now db_now p code db) [
    | inl (same, out) ↦ kept w k n db _ same h
    | inr a ↦ record {
      there =
          ap (any (λ f. f.id == k)) a.written
          ∙ any-update_where (λ f. f.id == k) (may_claim a.factor.id a.step) (claim a.step now)
              db.factors (λ x. refl)
          ∙ h.there;
      spent = subst (All (IsUsed k n)) (sym a.written) (
          All-update_when (may_claim a.factor.id a.step) (IsUsed k n) (claim a.step now) db.factors
            (claim-IsUsed w k n a.factor.id a.step now) h.spent);
    }
  ]

  safe :
      (k n id : ℕ) (f : Factor)
      → IsUsed k n f
      → (f.id == k) ≡ true
      → not (unconfirmed_of id f) ≡ true
  safe k n id f u mine = let c = u.confirmed (ground arith) in ground arith

  apart :
      (k fresh : ℕ) (fs : List Factor)
      → any (λ f. f.id == fresh) fs ≡ false
      → any (λ f. f.id == k) fs ≡ true
      → (fresh == k) ≡ false
  apart k fresh fs new old = elim (Bool-cases (fresh == k)) [
    | inr other ↦ other
    | inl same ↦
        let is = (==_iff fresh k).0 same in
        let hit = subst (λ j. any (λ f. f.id == j) fs ≡ false) is new in absurd (cc)
  ]

  replaced :
      (k n : ℕ) (p : Principal) (fresh : ℕ) (secret : List ℕ) (db : Db)
      → any (λ f. f.id == fresh) db.factors ≡ false
      → IsSpent k n db
      → IsSpent k n (record db {
        factors =
            record {
              id = fresh;
              staff_id = p.staff_id;
              secret = secret;
              confirmed_at = none;
              last_used_step = none;
            }
            ∷ keep (λ f. not (unconfirmed_of p.staff_id f)) db.factors;
      })
  replaced k n p fresh secret db new h =
      let other = apart k fresh db.factors new h.there in
      let bound =
        All-weaker (λ f. true) (IsUsed k n)
          (λ f. (f.id == k) ≡ true → not (unconfirmed_of p.staff_id f) ≡ true) db.factors
          (λ f u mine. safe k n p.staff_id f u mine) h.spent in
      record {
        there = rw other (
            any-keep (λ f. not (unconfirmed_of p.staff_id f)) (λ f. f.id == k) db.factors bound
              h.there);
        spent = (
          record {
            confirmed = λ mine. absurd (ground arith);
            used = λ mine. absurd (ground arith);
          },
          All-kept (λ f. not (unconfirmed_of p.staff_id f)) (IsUsed k n) db.factors h.spent,
        );
      }

  pub begin_mfa_setup-IsSpent :
      (k n : ℕ) (p : Principal) (fresh : ℕ) (secret : List ℕ) (db : Db)
      → any (λ f. f.id == fresh) db.factors ≡ false
      → IsSpent k n db
      → IsSpent k n (begin_mfa_setup w.configured p fresh secret db).0
  unfolding begin_mfa_setup
  begin_mfa_setup-IsSpent k n p fresh secret db new h = elim (Bool-cases (is_setup p.mfa)) [
    | inr done ↦ rw (done, begin_mfa_setup) h
    | inl pending ↦ elim (Bool-cases w.configured) [
      | inr unset ↦ rw (pending, begin_mfa_setup, unset) h
      | inl sealed ↦ rw (pending, begin_mfa_setup, sealed) (replaced k n p fresh secret db new h)
    ]
  ]
