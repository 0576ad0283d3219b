-- ===== src/Auth/Session/Rotation.antt =====
-- A refresh token is good for one rotation.
use pine_backend.Base.{ℕ, ◌≡◌, ◌≢◌, true, none, List, All, ◌==◌}
use pine_backend.Auth.Session.{Session, SessionDb, JwtConfig, find_by_token_hash}
use pine_backend.Auth.Session.Revoked.{
  ◌⟶◌, login, refresh, request, logout, sweep, heartbeat, ◌⟶*◌, here, next_call,
}

-- No other session has the token's hash.
abbrev pub OneSessionPerToken : ℕ → Session → List Session → Type 0
OneSessionPerToken token_hash s =
    All (λ (r : Session). (r.refresh_token_hash == token_hash) ≡ true → r.id ≡ s.id)

module _ (config : JwtConfig) (hash : ℕ → ℕ) where
  -- The token's hash after the rotation.
  abbrev renewed : ℕ → ℕ → Session → Session
  renewed now new_token r = record r { refresh_token_hash = hash new_token; last_used_at = now }

  -- A call that issues a token issues one of another hash.
  unfoldable pub Avoids : ℕ → {db db' : SessionDb} → ◌⟶◌ config hash db db' → Type 0
  Avoids h (login now user_id device_id family_id token) = hash token ≢ h
  Avoids h (refresh now old_token new_token) = hash new_token ≢ h
  Avoids h (request now id) = Unit
  Avoids h (logout id user_id) = Unit
  Avoids h (sweep user_id exclude) = Unit
  Avoids h (heartbeat now id) = Unit

  unfoldable pub AllAvoid : ℕ → {db db' : SessionDb} → ◌⟶*◌ config hash db db' → Type 0
  unfolding Avoids
  AllAvoid h here = Unit
  AllAvoid h (next_call s ss) = Avoids h s × AllAvoid h ss

  abbrev Gone : ℕ → SessionDb → Type 0
  Gone h db = find_by_token_hash h db ≡ none
