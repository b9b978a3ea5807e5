-- ===== src/SignIn/Session.antt =====
-- Resolving a token and ending a session: `authenticate` and `logout` of
-- src/services/staff-auth.service.ts.
use backend_new.Basics.{
  ℕ, ◌-◌, Bool, false, not, ◌&&◌, ◌||◌, Option, none, some, List, [], ◌∷◌, ltb, leb, ◌==◌, find,
  any, keep, is_none, if◌then◌else◌,
}
use backend_new.Staff.Store.{is_active}
use backend_new.SignIn.Store.{
  Member, Credential, Factor, Session, idle_timeout, logged_out, signed_out, Db, MfaState, verified,
  verify_required, setup_required, Principal, has_id, credential_of, confirmed_of, session_id,
  revoke, minute_ms, idle_timeout_ms, audit, put_sessions,
}

-- The first of each, as in `[...new Set(keys)]`.
abbrev pub dedupe : List ℕ → List ℕ
dedupe [] = []
dedupe (k ∷ ks) = k ∷ keep (λ x. not (x == k)) (dedupe ks)

abbrev pub must_change_of : Option Credential → Bool
must_change_of none = false
must_change_of (some c) = c.must_change

abbrev pub see : ℕ → Session → Session
see now s = record s { last_seen_at = now }

-- `granted` are the permissions of a member's roles, read at each request; `is_permission` the list
-- of src/types/staff.types.ts.
module _ (hash_token : ℕ → ℕ) (granted : ℕ → List ℕ) (is_permission : ℕ → Bool) where
  abbrev pub has_token : ℕ → Session → Bool
  has_token token s = s.token_hash == hash_token token

  abbrev pub mfa_of : Session → List Factor → MfaState
  mfa_of s factors =
      if not (is_none s.mfa_verified_at)
      then verified
      else if any (confirmed_of s.staff_id) factors
      then verify_required
      else setup_required

  abbrev pub principal : Session → Member → Db → Principal
  principal s m db = record {
    staff_id = m.id;
    session_id = s.id;
    email = m.email;
    permissions = dedupe (keep is_permission (granted m.id));
    mfa = mfa_of s db.factors;
    must_change_password = must_change_of (find (credential_of m.id) db.credentials);
  }

  abbrev pub is_idle : ℕ → Session → Bool
  is_idle now s = not (is_none s.mfa_verified_at) && ltb idle_timeout_ms (now - s.last_seen_at)

  abbrev pub touch : ℕ → Session → Db → Db
  touch now s db =
      if ltb minute_ms (now - s.last_seen_at)
      then put_sessions (session_id s.id) (see now) db
      else db

  -- The session and its member, if the token may be used at all.
  unfoldable pub resolve : ℕ → ℕ → Db → Option (Session × Member)
  resolve now token db = elim (find (has_token token) db.sessions) [
    | none ↦ none
    | some s ↦
        if not (is_none s.revoked) || leb s.expires_at now
        then none
        else elim (find (has_id s.staff_id) db.members) [
          | none ↦ none
          | some m ↦ if is_active m.status then some (s, m) else none
        ]
  ]

  unfoldable pub authenticate : ℕ → ℕ → Db → Db × Option Principal
  authenticate now token db = elim (resolve now token db) [
    | none ↦ (db, none)
    | some (s, m) ↦
        if is_idle now s
        then (put_sessions (session_id s.id) (revoke now idle_timeout) db, none)
        else (touch now s db, some (principal s m db))
  ]

unfoldable pub logout : ℕ → Principal → Db → Db
logout now p db =
    audit p.staff_id signed_out (put_sessions (session_id p.session_id) (revoke now logged_out) db)
