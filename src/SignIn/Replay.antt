-- ===== src/SignIn/Replay.antt =====
-- What each operation does to the factors, and to the steps that are spent.
use backend_new.Basics.{
  ℕ, ◌≡◌, ◌≤◌, refl, sym, ap, ◌∙◌, subst, true, ◌||◌, Option, none, some, All, Text, any, ◌==◌,
  is_none, arith, Option-cases, inl, inr, some-injective,
}
use backend_new.SignIn.Store.{
  Factor, Db, Principal, is_confirmed, record_login, audit, put_credential, put_sessions,
  touch_login, Credential, Member,
}
use backend_new.SignIn.Password.{
  Env, login, account, login_with, sign_in, record_password_failure, change_password, change_with,
}
use backend_new.SignIn.Session.{authenticate}
use backend_new.SignIn.Factor.{may_claim, claim, is_less}
use backend_new.SignIn.Steps.{World}

-- The factor of this key is confirmed, and used up to this step at least.
pub record IsUsed (k n : ℕ) (f : Factor) : Type 0 where
  pub confirmed : f.id ≡ k → is_confirmed f ≡ true
  pub used : f.id ≡ k → (l : ℕ) × (f.last_used_step ≡ some l) × (n ≤ l)

pub record IsSpent (k n : ℕ) (db : Db) : Type 0 where
  pub there : any (λ f. f.id == k) db.factors ≡ true
  pub spent : All (IsUsed k n) db.factors

-- A factor that was used was confirmed by that use.
abbrev pub IsBound : Factor → Type 0
IsBound f = (is_none f.last_used_step || is_confirmed f) ≡ true

-- Only enrolment and the second step write factors.
record_password_failure-factors :
    (id now : ℕ) (db : Db) → (record_password_failure id now db).0.factors ≡ db.factors
unfolding record_password_failure put_credential
record_password_failure-factors id now db = ground arith

module _ (w : World) where
  login_with-factors :
      (env : Env) (email password : Text) (m : Member) (c : Credential) (db : Db)
      → (login_with w.mfa_enabled w.verifies w.hash_token env email password m c db).0.factors
        ≡ db.factors
  unfolding login_with sign_in record_login audit put_credential touch_login
  login_with-factors env email password m c db =
      ground (arith, record_password_failure-factors m.id env.now db)

  pub login-factors :
      (env : Env) (email password : Text) (db : Db)
      → (login w.mfa_enabled w.verifies w.hash_token env email password db).0.factors ≡ db.factors
  unfolding login login_with sign_in record_login audit put_credential touch_login
  login-factors env email password db = elim (Option-cases (account email db)) [
    | inl missing ↦ rw (login, missing)
    | inr ((m, c), here) ↦ rw (login, here) (login_with-factors env email password m c db)
  ]

  pub change_password-factors :
      (started now : ℕ) (p : Principal) (current chosen : Text) (db : Db)
      → (change_password w.mfa_enabled w.verifies w.hash_token w.hash_password started now p current
          chosen db).0.factors
        ≡ db.factors
  unfolding change_password change_with audit put_sessions put_credential
  change_password-factors started now p current chosen db =
      ground (arith, record_password_failure-factors p.staff_id started db)

  pub authenticate-factors :
      (now token : ℕ) (db : Db)
      → (authenticate w.hash_token w.granted w.is_permission now token db).0.factors ≡ db.factors
  unfolding authenticate put_sessions
  authenticate-factors now token db = ground arith

  claimed_later :
      (o : Option ℕ) (l step n : ℕ)
      → o ≡ some l
      → n ≤ l
      → (is_none o || is_less o step) ≡ true
      → n ≤ step
  claimed_later none l step n e enough may = absurd (cc)
  claimed_later (some m) l step n e enough may = let is = some-injective m l e in ground arith

  -- Writes of other rows keep what is spent.
  pub kept : (k n : ℕ) (db db' : Db) → db'.factors ≡ db.factors → IsSpent k n db → IsSpent k n db'
  kept k n db db' same h = record {
    there = ap (any (λ f. f.id == k)) same ∙ h.there;
    spent = subst (All (IsUsed k n)) (sym same) h.spent;
  }

  pub claim-IsUsed :
      (k n id step now : ℕ) (f : Factor)
      → may_claim id step f ≡ true
      → IsUsed k n f
      → IsUsed k n (claim step now f)
  claim-IsUsed k n id step now f may u = record {
    confirmed = λ mine. let old = u.confirmed mine in ground arith;
    used = λ mine.
        let (l, is, enough) = u.used mine in
        (step, refl, claimed_later f.last_used_step l step n is enough (ground arith));
  }
