-- ===== src/SignIn/Steps.antt =====
-- The operations of staff sign-in as steps.
use backend_new.Basics.{ℕ, ◌≡◌, Bool, false, List, Text, any, ◌==◌}
use backend_new.SignIn.Store.{Db, Principal}
use backend_new.SignIn.Password.{Env, login, change_password}
use backend_new.SignIn.Session.{authenticate, logout}
use backend_new.SignIn.Factor.{begin_mfa_setup, verify_mfa}

-- The configuration, the functions of outside libraries, and the tables of roles.
pub record World : Type 0 where
  pub mfa_enabled : Bool
  pub configured : Bool
  pub verifies : Text → ℕ → Bool
  pub hash_token : ℕ → ℕ
  pub hash_password : Text → ℕ
  pub hmac : List ℕ → ℕ → List ℕ
  pub granted : ℕ → List ℕ
  pub is_permission : ℕ → Bool

-- A new session has a token hash, and a new factor a key, that no row has: both are unique columns.
pub data Step (w : World) (db : Db) : Db → Type 0 where
  log_in :
      (env : Env) (email password : Text)
      → any (λ s. s.token_hash == w.hash_token env.token) db.sessions ≡ false
      → Step w db (login w.mfa_enabled w.verifies w.hash_token env email password db).0
  look_up :
      (now token : ℕ)
      → Step w db (authenticate w.hash_token w.granted w.is_permission now token db).0
  set_up :
      (p : Principal) (fresh_id : ℕ) (secret : List ℕ)
      → any (λ f. f.id == fresh_id) db.factors ≡ false
      → Step w db (begin_mfa_setup w.configured p fresh_id secret db).0
  verify :
      (now db_now : ℕ) (p : Principal) (code : Text)
      → Step w db (verify_mfa w.hmac now db_now p code db).0
  change :
      (started now : ℕ) (p : Principal) (current next : Text)
      → Step w db
          (change_password w.mfa_enabled w.verifies w.hash_token w.hash_password started now p
            current next db).0
  log_out : (now : ℕ) (p : Principal) → Step w db (logout now p db)

pub data Reach (w : World) (start : Db) : Db → Type 0 where
  begin : Reach w start start
  next : {db db' : Db} → Reach w start db → Step w db db' → Reach w start db'
