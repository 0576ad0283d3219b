-- ===== src/Auth/Session/Revoked.antt =====
-- A session that has been revoked stays so.
use pine_backend.Base.{
  ℕ, ◌-◌, ◌≡◌, refl, Bool, true, false, ◌&&◌, Option, none, some, err, arith, Option-cases,
  Bool-cases, inl, inr, ◌==◌, if◌then◌else◌, ltb, find?, find?-append, find?-update_where,
  update_where, ap, ◌∙◌, sym,
}
use pine_backend.Auth.Session.{
  Session, SessionDb, JwtConfig, find_session, find_by_token_hash, create_session,
  rotate_refresh_token, rotate_found, validate_session, validate_found, revoke_session,
  revoke_all_sessions, record_activity, update_session, revoke, is_idle_expired, to_revoke,
  revoke_found, active_found, activity_write_throttle_ms, is_excluded, session_revoked,
}

revoked_row :
    (user_id : ℕ) (exclude : Option ℕ) (s s' : Session)
    → (if to_revoke user_id exclude s then revoke s else s) ≡ s'
    → s'.user_id ≡ user_id
    → is_excluded exclude s' ≡ false
    → s'.is_revoked ≡ true
revoked_row user_id none s s' row own kept = ground (arith, row)
revoked_row user_id (some i) s s' row own kept = ground (arith, row)

module _ (config : JwtConfig) (hash : ℕ → ℕ) where
  -- One call of the service, at any time and with any arguments.
  infix 40 ◌⟶◌ ◌⟶*◌
  pub data ◌⟶◌ : SessionDb → SessionDb → Type 0 where
    login :
        {db : SessionDb} (now user_id device_id family_id token : ℕ)
        → db ⟶ (create_session config hash now user_id device_id family_id token db).1
    refresh :
        {db : SessionDb} (now old_token new_token : ℕ)
        → db ⟶ (rotate_refresh_token config hash now old_token new_token db).1
    request : {db : SessionDb} (now id : ℕ) → db ⟶ (validate_session config hash now id db).1
    logout : {db : SessionDb} (id user_id : ℕ) → db ⟶ revoke_session id user_id db
    sweep :
        {db : SessionDb} (user_id : ℕ) (exclude : Option ℕ)
        → db ⟶ (revoke_all_sessions user_id exclude db).1
    heartbeat : {db : SessionDb} (now id : ℕ) → db ⟶ record_activity now id db

  pub data ◌⟶*◌ : SessionDb → SessionDb → Type 0 where
    here : {db : SessionDb} → db ⟶* db
    next_call : {a b c : SessionDb} → a ⟶ b → b ⟶* c → a ⟶* c

  abbrev pub IsRevoked : ℕ → SessionDb → Type 0
  IsRevoked id db = (s : Session) × (find_session id db ≡ some s) × (s.is_revoked ≡ true)

  module _ (id : ℕ) where
    -- A write that does not touch ids and takes no revocation back.
    written-IsRevoked :
        (q : Session → Bool) (f : Session → Session) (db : SessionDb)
        → ((s : Session) → (f s).id ≡ s.id)
        → ((s : Session) → s.is_revoked ≡ true → (f s).is_revoked ≡ true)
        → IsRevoked id db
        → IsRevoked id (record db { sessions = update_where q f db.sessions })
    written-IsRevoked q f db same keeps (s, found, ended) =
        let after =
          find?-update_where (λ (r : Session). r.id == id) q f db.sessions
            (λ r. ap (λ i. i == id) (same r)) in
        (
          (if q s then f s else s),
          rw (after, found) refl,
          elim (Bool-cases (q s)) [ inl hit ↦ rw hit (keeps s ended) | inr miss ↦ rw miss ended ],
        )

    revoke-IsRevoked :
        (i : ℕ) (db : SessionDb) → IsRevoked id db → IsRevoked id (update_session i revoke db)
    revoke-IsRevoked i db =
        written-IsRevoked (λ (s : Session). s.id == i) revoke db (λ s. refl) (λ s h. refl)

    rotate-IsRevoked :
        (now new_token : ℕ) (o : Option Session) (db : SessionDb)
        → IsRevoked id db
        → IsRevoked id (rotate_found config hash now new_token o db).1
    rotate-IsRevoked now new_token none db p = p
    rotate-IsRevoked now new_token (some s) db p = elim (Bool-cases s.is_revoked) [
      | inl ended ↦ rw ended p
      | inr live ↦ elim (Bool-cases (ltb s.expires_at now)) [
        | inl late ↦ rw (live, late) p
        | inr early ↦ elim (Bool-cases (is_idle_expired config hash now db s)) [
          | inl idle ↦ rw (live, early, idle) (revoke-IsRevoked s.id db p)
          | inr busy ↦
              rw (live, early, busy)
                (written-IsRevoked (λ (r : Session). r.id == s.id)
                  (λ (r : Session). record r {
                    refresh_token_hash = hash new_token;
                    last_used_at = now;
                  })
                  db (λ r. refl) (λ r h. h) p)
        ]
      ]
    ]

    validate-IsRevoked :
        (now : ℕ) (o : Option Session) (db : SessionDb)
        → IsRevoked id db
        → IsRevoked id (validate_found config hash now o db).1
    validate-IsRevoked now none db p = p
    validate-IsRevoked now (some s) db p = elim (Bool-cases s.is_revoked) [
      | inl ended ↦ rw ended p
      | inr live ↦ elim (Bool-cases (ltb s.expires_at now)) [
        | inl late ↦ rw (live, late) p
        | inr early ↦ elim (Bool-cases (is_idle_expired config hash now db s)) [
          | inl idle ↦ rw (live, early, idle) (revoke-IsRevoked s.id db p)
          | inr busy ↦ rw (live, early, busy) p
        ]
      ]
    ]

    logout-IsRevoked :
        (o : Option Session) (db : SessionDb) → IsRevoked id db → IsRevoked id (revoke_found o db)
    logout-IsRevoked none db p = p
    logout-IsRevoked (some s) db p = revoke-IsRevoked s.id db p

    heartbeat-IsRevoked :
        (now : ℕ) (o : Option Session) (db : SessionDb)
        → IsRevoked id db
        → IsRevoked id (active_found now o db)
    heartbeat-IsRevoked now none db p = p
    heartbeat-IsRevoked now (some s) db p =
        elim (Bool-cases (ltb (now - s.last_activity_at) activity_write_throttle_ms)) [
          | inl early ↦ rw early p
          | inr late ↦ rw late (
              written-IsRevoked (λ (r : Session). r.id == s.id)
                (λ (r : Session). record r { last_activity_at = now }) db (λ r. refl) (λ r h. h) p)
        ]

    ⟶-IsRevoked : {db db' : SessionDb} → db ⟶ db' → IsRevoked id db → IsRevoked id db'
    unfolding create_session rotate_refresh_token validate_session revoke_session
        revoke_all_sessions record_activity
    ⟶-IsRevoked (login {db} now user_id device_id family_id token) (s, found, ended) =
        (s, rw (find?-append (λ (r : Session). r.id == id) db.sessions _, found) refl, ended)
    ⟶-IsRevoked (refresh {db} now old_token new_token) p =
        rotate-IsRevoked now new_token (find_by_token_hash (hash old_token) db) db p
    ⟶-IsRevoked (request {db} now i) p = validate-IsRevoked now (find_session i db) db p
    ⟶-IsRevoked (logout {db} i user_id) p =
        logout-IsRevoked (find? (λ (s : Session). s.id == i && s.user_id == user_id) db.sessions) db
          p
    ⟶-IsRevoked (sweep {db} user_id exclude) p =
        written-IsRevoked (to_revoke user_id exclude) revoke db (λ s. refl) (λ s h. refl) p
    ⟶-IsRevoked (heartbeat {db} now i) p = heartbeat-IsRevoked now (find_session i db) db p

    ⟶*-IsRevoked : {db db' : SessionDb} → db ⟶* db' → IsRevoked id db → IsRevoked id db'
    ⟶*-IsRevoked here p = p
    ⟶*-IsRevoked (next_call s ss) p = ⟶*-IsRevoked ss (⟶-IsRevoked s p)

  -- A session that has been revoked is refused for ever: after any sequence of logins, refreshes,
  -- requests, logouts, sweeps and heartbeats, at whatever times, its validation answers false, and a
  -- refresh whose token is the session's is refused as revoked and writes nothing.
  pub revoked_for_good :
      (id now token new_token : ℕ) (s s' : Session) (db db' : SessionDb)
      → find_session id db ≡ some s
      → s.is_revoked ≡ true
      → db ⟶* db'
      → find_session id db' ≡ some s'
      → find_by_token_hash (hash token) db' ≡ some s'
      → (validate_session config hash now id db' ≡ (false, db'))
        × (rotate_refresh_token config hash now token new_token db' ≡ (err session_revoked, db'))
  unfolding validate_session rotate_refresh_token
  revoked_for_good id now token new_token s s' db db' found ended run found' own =
      let (x, there, still) = ⟶*-IsRevoked id run (s, found, ended) in
      let same : some x ≡ some s' = sym there ∙ found' in
      let x' : x ≡ s' = cc same in
      let over : s'.is_revoked ≡ true = rw (← x') still in
      (ground (arith, found', over), ground (arith, own, over))

-- `revokeAllSessions` ends every session of the user but the excluded one: each, found afterwards
-- by its id, is revoked.
pub revoke_all_sessions_lem :
    (user_id id : ℕ) (exclude : Option ℕ) (s' : Session) (db : SessionDb)
    → find_session id (revoke_all_sessions user_id exclude db).1 ≡ some s'
    → s'.user_id ≡ user_id
    → is_excluded exclude s' ≡ false
    → s'.is_revoked ≡ true
unfolding revoke_all_sessions
revoke_all_sessions_lem user_id id exclude s' db found own kept =
    elim (Option-cases (find_session id db)) [
      | inl gone ↦
          let after =
            find?-update_where (λ (r : Session). r.id == id) (to_revoke user_id exclude) revoke
              db.sessions (λ r. refl) in
          let row : none ≡ some s' = rw (after, gone) at found in cc row
      | inr (s, old) ↦
          let after =
            find?-update_where (λ (r : Session). r.id == id) (to_revoke user_id exclude) revoke
              db.sessions (λ r. refl) in
          let row : some (if to_revoke user_id exclude s then revoke s else s) ≡ some s' =
            rw (after, old) at found in
          let here_ : (if to_revoke user_id exclude s then revoke s else s) ≡ s' = cc row in
          revoked_row user_id exclude s s' here_ own kept
    ]
