-- ===== src/SignIn/Once.antt =====
-- No code of an authenticator is accepted twice.
use backend_new.Basics.{
  ℕ, ◌≡◌, ◌<◌, refl, sym, ap, ◌∙◌, subst, inl, inr, some, find, ok, some-injective, All, Text,
  arith, All-find,
}
use backend_new.SignIn.Totp.{verify_totp}
use backend_new.SignIn.Codes.{verify_totp_iff}
use backend_new.SignIn.Store.{Db, Factor, Principal, audit, put_sessions}
use backend_new.SignIn.Session.{logout}
use backend_new.SignIn.Factor.{verify_mfa, checked_factor}
use backend_new.SignIn.Steps.{
  World, Step, log_in, look_up, set_up, verify, change, log_out, Reach, begin, next,
}
use backend_new.SignIn.Replay.{
  IsSpent, IsUsed, IsBound, login-factors, change_password-factors, authenticate-factors, kept,
}
use backend_new.SignIn.Spent.{
  Accepts, verify_mfa-cases, claimed-eq_some, accepted-IsSpent, verify_mfa-IsSpent,
  begin_mfa_setup-IsSpent,
}

Step-IsSpent :
    (w : World) (k n : ℕ) {db db' : Db} → Step w db db' → IsSpent k n db → IsSpent k n db'
unfolding logout audit put_sessions
Step-IsSpent w k n {db} (log_in env email password new) h =
    kept w k n db _ (login-factors w env email password db) h
Step-IsSpent w k n {db} (look_up now token) h =
    kept w k n db _ (authenticate-factors w now token db) h
Step-IsSpent w k n {db} (set_up p fresh secret new) h =
    begin_mfa_setup-IsSpent w k n p fresh secret db new h
Step-IsSpent w k n {db} (verify now db_now p code) h =
    verify_mfa-IsSpent w k n now db_now p code db h
Step-IsSpent w k n {db} (change started now p current chosen) h =
    kept w k n db _ (change_password-factors w started now p current chosen db) h
Step-IsSpent w k n {db} (log_out now p) h = kept w k n db _ refl h

Reach-IsSpent :
    (w : World) (k n : ℕ) {start db : Db} → Reach w start db → IsSpent k n start → IsSpent k n db
Reach-IsSpent w k n begin h = h
Reach-IsSpent w k n (next before step) h = Step-IsSpent w k n step (Reach-IsSpent w k n before h)

module _ (w : World) where
  -- The steps of two codes that were accepted, the second one later.
  later_step :
      (now db_now : ℕ) (p : Principal) (code : Text) (db : Db)
      → All IsBound db.factors
      → (first : Accepts w now db_now p code db) {db' : Db}
      → Reach w (verify_mfa w.hmac now db_now p code db).0 db'
      → (now' db_now' : ℕ) (p' : Principal) (code' : Text)
      → (second : Accepts w now' db_now' p' code' db') → second.factor.id ≡ first.factor.id
      → first.step < second.step
  later_step now db_now p code db bound first {db'} reach now' db_now' p' code' second same =
      let h =
        Reach-IsSpent w first.factor.id first.step reach
          (accepted-IsSpent w now db_now p code db first bound) in
      let used =
        All-find (checked_factor p') (IsUsed first.factor.id first.step) db'.factors second.factor
          h.spent second.found in
      let (l, is, enough) = used.used same in
      let (right, free) =
        claimed-eq_some w now' code' second.factor db' second.step second.claims in
      let taken =
        (verify_totp_iff w.hmac second.factor.secret code' now' second.factor.last_used_step
            second.step).0
          right in
      let before = taken.unused l is in omega arith

  -- What an answer without an error is of.
  answered :
      (now db_now : ℕ) (p : Principal) (code : Text) (db : Db)
      → (verify_mfa w.hmac now db_now p code db).1 ≡ ok tt
      → Accepts w now db_now p code db
  answered now db_now p code db e = elim (verify_mfa-cases w now db_now p code db) [
    | inl (same, out) ↦ absurd (out e)
    | inr a ↦ a
  ]

  -- The step that the code of an answer is for.
  step_of :
      (now db_now : ℕ) (p : Principal) (code : Text) (db : Db) (f : Factor)
      → (a : Accepts w now db_now p code db) → find (checked_factor p) db.factors ≡ some f
      → (a.factor ≡ f) × (verify_totp w.hmac f.secret code now f.last_used_step ≡ some a.step)
  step_of now db_now p code db f a found =
      let (right, free) = claimed-eq_some w now code a.factor db a.step a.claims in
      let is = some-injective a.factor f (sym a.found ∙ found) in
      (
        is,
        subst (λ g. verify_totp w.hmac g.secret code now g.last_used_step ≡ some a.step) is right,
      )

-- When the second step accepts a code for a factor, and later on, after the operations of sign-in in
-- any order, accepts a code for the factor with the same id, then the step that the second code is for
-- is later than that of the first: no code is accepted twice, nor any of an earlier step. The factors
-- that were used before the first code are confirmed.
pub no_replay :
    (w : World) (now db_now : ℕ) (p : Principal) (code : Text) (f : Factor) (db : Db)
    → All IsBound db.factors
    → find (checked_factor p) db.factors ≡ some f
    → (verify_mfa w.hmac now db_now p code db).1 ≡ ok tt
    → {db' : Db} → Reach w (verify_mfa w.hmac now db_now p code db).0 db'
    → (now' db_now' : ℕ) (p' : Principal) (code' : Text) (g : Factor)
    → find (checked_factor p') db'.factors ≡ some g
    → (verify_mfa w.hmac now' db_now' p' code' db').1 ≡ ok tt
    → g.id ≡ f.id
    → (n : ℕ) × (m : ℕ) × (verify_totp w.hmac f.secret code now f.last_used_step ≡ some n)
      × (verify_totp w.hmac g.secret code' now' g.last_used_step ≡ some m)
      × (n < m)
no_replay w now db_now p code f db bound found e {db'} reach now' db_now' p' code' g found' e'
      same =
    let a = answered w now db_now p code db e in
    let b = answered w now' db_now' p' code' db' e' in
    let (is, right) = step_of w now db_now p code db f a found in
    let (is', right') = step_of w now' db_now' p' code' db' g b found' in
    (
      a.step,
      b.step,
      right,
      right',
      later_step w now db_now p code db bound a reach now' db_now' p' code' b
          (ap (λ x. x.id) is' ∙ same ∙ sym (ap (λ x. x.id) is)),
    )
