-- ===== src/Auth/Session.antt =====
-- Login sessions and their refresh tokens, src/modules/auth/services/session.service.ts. Tokens are
-- numbers, `hash` is `hashRefreshToken`, and the new token of a login or a rotation is given. The owner's role
-- counts only as staff or not. Times are in milliseconds.
pub mod Revoked
pub mod Rotation
use pine_backend.Base.{
  ℕ, suc, ◌+◌, ◌-◌, ◌*◌, Bool, true, false, not, ◌&&◌, ◌||◌, Option, none, some, List, [], ◌∷◌,
  ◌++◌, ◌==◌, ltb, if◌then◌else◌, length, find?, filter, update_where, Result, ok, err, Action,
}

pub data SessionError : Type 0 where
  session_revoked token_expired session_idle token_invalid : SessionError

pub record Session : Type 0 where
  pub id : ℕ
  pub user_id : ℕ
  pub device_id : ℕ
  pub refresh_token_hash : ℕ
  pub family_id : ℕ
  pub expires_at : ℕ
  pub is_revoked : Bool
  pub last_used_at : ℕ
  pub last_activity_at : ℕ

pub record SessionDb : Type 0 where
  pub sessions : List Session
  -- the users whose role is one of STAFF_ROLES
  pub staff : List ℕ
  pub next : ℕ

-- `config.jwt`; no idle limit is 0
pub record JwtConfig : Type 0 where
  pub refresh_ms : ℕ
  pub staff_idle_timeout_minutes : ℕ

pub record Rotated : Type 0 where
  pub session_id : ℕ
  pub user_id : ℕ
  pub device_id : ℕ
  pub new_refresh_token : ℕ

abbrev pub activity_write_throttle_ms : ℕ
activity_write_throttle_ms = 60_000

abbrev pub includes : ℕ → List ℕ → Bool
includes i [] = false
includes i (x ∷ xs) = x == i || includes i xs

abbrev pub find_session : ℕ → SessionDb → Option Session
find_session id db = find? (λ (s : Session). s.id == id) db.sessions

abbrev pub find_by_token_hash : ℕ → SessionDb → Option Session
find_by_token_hash token_hash db =
    find? (λ (s : Session). s.refresh_token_hash == token_hash) db.sessions

abbrev pub update_session : ℕ → (Session → Session) → SessionDb → SessionDb
update_session id f db = record db {
  sessions = update_where (λ (s : Session). s.id == id) f db.sessions;
}

abbrev pub revoke : Session → Session
revoke s = record s { is_revoked = true }

module _ (config : JwtConfig) (hash : ℕ → ℕ) where
  -- `createSession`
  unfoldable pub create_session : ℕ → ℕ → ℕ → ℕ → ℕ → SessionDb → ℕ × SessionDb
  create_session now user_id device_id family_id refresh_token db = (
    db.next,
    record db {
      sessions =
          db.sessions
          ++ (record {
            id = db.next;
            user_id = user_id;
            device_id = device_id;
            refresh_token_hash = hash refresh_token;
            family_id = family_id;
            expires_at = now + config.refresh_ms;
            is_revoked = false;
            last_used_at = now;
            last_activity_at = now;
          }
              ∷ []);
      next = suc db.next;
    },
  )

  abbrev pub idle_timeout_ms : Bool → ℕ
  idle_timeout_ms is_staff = if is_staff then config.staff_idle_timeout_minutes * 60_000 else 0

  abbrev pub is_idle_expired : ℕ → SessionDb → Session → Bool
  is_idle_expired now db s =
      let limit = idle_timeout_ms (includes s.user_id db.staff) in
      not (limit == 0) && ltb limit (now - s.last_activity_at)

  abbrev rotate_live : ℕ → ℕ → Session → Action SessionError SessionDb Rotated
  rotate_live now new_token s db = (
    ok (record {
      session_id = s.id;
      user_id = s.user_id;
      device_id = s.device_id;
      new_refresh_token = new_token;
    }),
    update_session s.id
        (λ (r : Session). record r { refresh_token_hash = hash new_token; last_used_at = now }) db,
  )

  abbrev pub rotate_found : ℕ → ℕ → Option Session → Action SessionError SessionDb Rotated
  rotate_found now new_token none db = (err token_invalid, db)
  rotate_found now new_token (some s) db =
      if s.is_revoked
      then (err session_revoked, db)
      else if ltb s.expires_at now
      then (err token_expired, db)
      else if is_idle_expired now db s
      then (err session_idle, update_session s.id revoke db)
      else rotate_live now new_token s db

  -- `rotateRefreshToken`
  unfoldable pub rotate_refresh_token : ℕ → ℕ → ℕ → Action SessionError SessionDb Rotated
  rotate_refresh_token now old_token new_token db =
      rotate_found now new_token (find_by_token_hash (hash old_token) db) db

  abbrev pub validate_found : ℕ → Option Session → SessionDb → Bool × SessionDb
  validate_found now none db = (false, db)
  validate_found now (some s) db =
      if s.is_revoked
      then (false, db)
      else if ltb s.expires_at now
      then (false, db)
      else if is_idle_expired now db s
      then (false, update_session s.id revoke db)
      else (true, db)

  -- `validateSession`
  unfoldable pub validate_session : ℕ → ℕ → SessionDb → Bool × SessionDb
  validate_session now id db = validate_found now (find_session id db) db

abbrev pub revoke_found : Option Session → SessionDb → SessionDb
revoke_found none db = db
revoke_found (some s) db = update_session s.id revoke db

-- `revokeSession`
unfoldable pub revoke_session : ℕ → ℕ → SessionDb → SessionDb
revoke_session session_id user_id db =
    revoke_found (find? (λ (s : Session). s.id == session_id && s.user_id == user_id) db.sessions)
      db

abbrev pub is_excluded : Option ℕ → Session → Bool
is_excluded none s = false
is_excluded (some id) s = s.id == id

-- what `revokeAllSessions` selects
abbrev pub to_revoke : ℕ → Option ℕ → Session → Bool
to_revoke user_id exclude s =
    s.user_id == user_id && not s.is_revoked && not (is_excluded exclude s)

-- `revokeAllSessions`: how many it has revoked
unfoldable pub revoke_all_sessions : ℕ → Option ℕ → SessionDb → ℕ × SessionDb
revoke_all_sessions user_id exclude db = (
  length (filter (to_revoke user_id exclude) db.sessions),
  record db { sessions = update_where (to_revoke user_id exclude) revoke db.sessions },
)

-- `listActiveSessions`, in the order of creation
abbrev pub list_active_sessions : ℕ → ℕ → SessionDb → List Session
list_active_sessions now user_id db =
    filter (λ (s : Session). s.user_id == user_id && not s.is_revoked && ltb now s.expires_at)
      db.sessions

abbrev pub active_found : ℕ → Option Session → SessionDb → SessionDb
active_found now none db = db
active_found now (some s) db =
    if ltb (now - s.last_activity_at) activity_write_throttle_ms
    then db
    else update_session s.id (λ (r : Session). record r { last_activity_at = now }) db

-- `recordActivity`
unfoldable pub record_activity : ℕ → ℕ → SessionDb → SessionDb
record_activity now id db = active_found now (find_session id db) db
