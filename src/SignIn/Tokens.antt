-- ===== src/SignIn/Tokens.antt =====
-- Which tokens name a caller, and what ends them.
use backend_new.Basics.{
  ℕ, ◌≡◌, ◌<◌, ◌↔◌, inl, inr, refl, sym, ap, ◌∙◌, subst, Bool, true, false, not, ◌||◌, leb, ltb,
  ◌-◌, ==_refl, none, some, some-injective, List, find, find-update_where, ==_iff, is_none,
  Option-cases, Bool-cases, arith,
}
use backend_new.Staff.Store.{is_active}
use backend_new.SignIn.Store.{
  Db, Session, Member, Principal, audit, put_sessions, has_id, revoke, session_id, logged_out,
  minute_ms,
}
use backend_new.SignIn.Session.{
  authenticate, resolve, logout, has_token, is_idle, principal, touch, see,
}

module _ (hash_token : ℕ → ℕ) (granted : ℕ → List ℕ) (is_permission : ℕ → Bool) where
  -- The token's session and its member may be used at this time.
  pub record IsLive (now token : ℕ) (db : Db) (s : Session) (m : Member) : Type 0 where
    pub found : find (has_token hash_token granted is_permission token) db.sessions ≡ some s
    pub unrevoked : is_none s.revoked ≡ true
    pub unexpired : now < s.expires_at
    pub owner : find (has_id s.staff_id) db.members ≡ some m
    pub active : is_active m.status ≡ true
    pub busy : is_idle hash_token granted is_permission now s ≡ false

  -- What the guards of `authenticate` ask before the idle time.
  abbrev IsUsable : ℕ → ℕ → Db → Session → Member → Type 0
  IsUsable now token db s m =
      (find (has_token hash_token granted is_permission token) db.sessions ≡ some s)
      × ((not (is_none s.revoked) || leb s.expires_at now) ≡ false)
      × (find (has_id s.staff_id) db.members ≡ some m)
      × (is_active m.status ≡ true)

  resolve_sound :
      (now token : ℕ) (db : Db) (s : Session) (m : Member)
      → resolve hash_token granted is_permission now token db ≡ some (s, m)
      → IsUsable now token db s m
  unfolding resolve
  resolve_sound now token db s m e =
      elim (Option-cases (find (has_token hash_token granted is_permission token) db.sessions)) [
        | inl missing ↦ absurd (let bad = rw (missing, resolve) at e in cc)
        | inr (r, here) ↦ elim (Bool-cases (not (is_none r.revoked) || leb r.expires_at now)) [
          | inl stale ↦ absurd (let bad = rw (here, resolve, stale) at e in cc)
          | inr good ↦ elim (Option-cases (find (has_id r.staff_id) db.members)) [
            | inl orphan ↦ absurd (let bad = rw (here, resolve, good, orphan) at e in cc)
            | inr (o, owner) ↦ elim (Bool-cases (is_active o.status)) [
              | inr left ↦ absurd (let bad = rw (here, resolve, good, owner, left) at e in cc)
              | inl active ↦
                  let is =
                    some-injective (r, o) (s, m) (rw (here, resolve, good, owner, active) at e) in
                  subst (λ x. IsUsable now token db x.0 x.1) is (here, good, owner, active)
            ]
          ]
        ]
      ]

  resolve_complete :
      (now token : ℕ) (db : Db) (s : Session) (m : Member)
      → IsUsable now token db s m
      → resolve hash_token granted is_permission now token db ≡ some (s, m)
  unfolding resolve
  resolve_complete now token db s m (here, good, owner, active) =
      rw (here, resolve, good, owner, active)

  guards : (a b : Bool) → (not a || b) ≡ false → (a ≡ true) × (b ≡ false)
  guards a b e = ground arith

  sound :
      (now token : ℕ) (db : Db) (p : Principal)
      → (authenticate hash_token granted is_permission now token db).1 ≡ some p
      → (s : Session) × (m : Member) × IsLive now token db s m
        × (principal hash_token granted is_permission s m db ≡ p)
  unfolding authenticate
  sound now token db p e =
      elim (Option-cases (resolve hash_token granted is_permission now token db)) [
        | inl refused ↦ absurd (let bad = rw (refused, authenticate) at e in cc)
        | inr ((s, m), here) ↦ elim (Bool-cases (is_idle hash_token granted is_permission now s)) [
          | inl idle ↦ absurd (let bad = rw (here, authenticate, idle) at e in cc)
          | inr busy ↦
              let (found, good, owner, active) = resolve_sound now token db s m here in
              let (unrevoked, early) = guards (is_none s.revoked) (leb s.expires_at now) good in
              (
                s,
                m,
                record {
                  found = found;
                  unrevoked = unrevoked;
                  unexpired = ground arith;
                  owner = owner;
                  active = active;
                  busy = busy;
                },
                some-injective _ p (rw (here, authenticate, busy) at e),
              )
        ]
      ]

  complete :
      (now token : ℕ) (db : Db) (s : Session) (m : Member)
      → IsLive now token db s m
      → (authenticate hash_token granted is_permission now token db).1
        ≡ some (principal hash_token granted is_permission s m db)
  unfolding authenticate
  complete now token db s m l =
      let unrevoked = l.unrevoked in
      let unexpired = l.unexpired in
      let late : leb s.expires_at now ≡ false = ground arith in
      let here =
        resolve_complete now token db s m (l.found, rw (unrevoked, late), l.owner, l.active) in
      let busy = l.busy in rw (here, authenticate, busy)

  -- A token names a caller exactly when it is the token of a session that is not revoked, has not
  -- expired and was not idle for too long, and the member of the session is still there and active;
  -- the caller is then the one of that session and member.
  pub authenticate_iff :
      (now token : ℕ) (db : Db) (p : Principal)
      → ((authenticate hash_token granted is_permission now token db).1 ≡ some p) ↔ (
          (s : Session) × (m : Member) × IsLive now token db s m
          × (principal hash_token granted is_permission s m db ≡ p))
  authenticate_iff now token db p =
      (sound now token db p, λ (s, m, live, is). complete now token db s m live ∙ ap some is)

  touched :
      (now token : ℕ) (db : Db) (s : Session)
      → find (has_token hash_token granted is_permission token) db.sessions ≡ some s
      → (s' : Session) × (find
            (has_token hash_token granted is_permission token)
            (touch hash_token granted is_permission now s db).sessions
          ≡ some s')
        × (s'.id ≡ s.id)
  unfolding put_sessions
  touched now token db s here = elim (Bool-cases (ltb minute_ms (now - s.last_seen_at))) [
    | inl seen ↦ (
      see now s,
      rw (seen, put_sessions)
          (find-update_where (has_token hash_token granted is_permission token) (session_id s.id)
            (see now) db.sessions s (==_refl s.id) (λ x. refl) here),
      refl,
    )
    | inr recent ↦ (s, rw (recent) here, refl)
  ]

  revoked_is_refused :
      (now token : ℕ) (db : Db) (s : Session)
      → find (has_token hash_token granted is_permission token) db.sessions ≡ some s
      → is_none s.revoked ≡ false
      → (authenticate hash_token granted is_permission now token db).1 ≡ none
  revoked_is_refused now token db s here gone =
      elim (Option-cases (authenticate hash_token granted is_permission now token db).1) [
        | inl refused ↦ refused
        | inr (p, let_in) ↦ absurd (
            let (r, m, live, is) = sound now token db p let_in in
            let same = some-injective s r (sym here ∙ live.found) in
            let good : is_none s.revoked ≡ true =
              subst (λ x. is_none x.revoked ≡ true) (sym same) live.unrevoked in
            cc)
      ]

  logout-found :
      (at token : ℕ) (p : Principal) (db : Db) (s : Session)
      → find (has_token hash_token granted is_permission token) db.sessions ≡ some s
      → p.session_id ≡ s.id
      → find (has_token hash_token granted is_permission token) (logout at p db).sessions
        ≡ some (revoke at logged_out s)
  unfolding logout audit put_sessions
  logout-found at token p db s here mine =
      find-update_where (has_token hash_token granted is_permission token) (session_id p.session_id)
        (revoke at logged_out) db.sessions s ((==_iff s.id p.session_id).1 (sym mine)) (λ x. refl)
        here

  let_in-found :
      (now token : ℕ) (db : Db) (p : Principal)
      → (authenticate hash_token granted is_permission now token db).1 ≡ some p
      → (s : Session) × (find
            (has_token hash_token granted is_permission token)
            (authenticate hash_token granted is_permission now token db).0.sessions
          ≡ some s)
        × (p.session_id ≡ s.id)
  unfolding authenticate
  let_in-found now token db p e =
      let (s, m, live, is) = sound now token db p e in
      let unrevoked = live.unrevoked in
      let unexpired = live.unexpired in
      let late : leb s.expires_at now ≡ false = ground arith in
      let here =
        resolve_complete now token db s m
          (live.found, rw (unrevoked, late), live.owner, live.active) in
      let busy = live.busy in
      let (s', there, same) = touched now token db s live.found in
      (s', rw (here, authenticate, busy) there, ap (λ x. x.session_id) (sym is) ∙ sym same)

  -- Who signs out is not known by that token any more, at any time.
  pub logout-authenticate :
      (now at now' token : ℕ) (db : Db) (p : Principal)
      → (authenticate hash_token granted is_permission now token db).1 ≡ some p
      → (authenticate hash_token granted is_permission now' token
          (logout at p (authenticate hash_token granted is_permission now token db).0)).1
        ≡ none
  logout-authenticate now at now' token db p e =
      let (s, here, mine) = let_in-found now token db p e in
      let db' = (authenticate hash_token granted is_permission now token db).0 in
      revoked_is_refused now' token (logout at p db') (revoke at logged_out s)
        (logout-found at token p db' s here mine) refl
