-- ===== src/Auth/Tests.antt =====
-- Codes, PINs and sessions at concrete inputs.
use pine_backend.Base.{
  ℕ, ◌≡◌, refl, ◌≤◌, Bool, true, false, some, none, List, [], ◌∷◌, ok, err, inl, arith, ◌==◌,
  Option,
}
use pine_backend.Auth.Otp.{OtpConfig, OtpKeys, generate, verify, otp_expired}
use pine_backend.Auth.Otp.Guesses
use pine_backend.Auth.Otp.Guesses.{Guess, generate-bounded, verify_once}
use pine_backend.Auth.Pin.{Account, set_pin, validate_format, change_pin}
use pine_backend.Auth.Pin.Lockout
use pine_backend.Auth.Pin.Lockout.{Try, verify_pin-bounded, change_pin_unlimited, guess_all}
use pine_backend.Auth.Session.{
  JwtConfig, Session, SessionDb, revoke_session, create_session, validate_session,
  rotate_refresh_token, session_revoked,
}
use pine_backend.Auth.Session.Revoked.{◌⟶*◌, login, logout, here, next_call, revoked_for_good}

abbrev a_config : OtpConfig
a_config = record { ttl_seconds = 300; max_attempts = 3; cooldown_seconds = 60 }

abbrev no_keys : OtpKeys
no_keys = record { code = none; attempts = none; cooldown = none }

abbrev sent : OtpKeys
sent = record {
  code = some (record { value = 77; expires_at = some 1_300 });
  attempts = none;
  cooldown = some (record { value = tt; expires_at = some 1_060 });
}

generated : generate a_config 1_000 77 no_keys ≡ (ok 300, sent)
unfolding generate
generated = refl

-- four wrong guesses, and the right code too late
abbrev guesses : List Guess
guesses =
    record { at = 1_001; hashed_input = 1 }
    ∷ record { at = 1_002; hashed_input = 2 }
    ∷ record { at = 1_003; hashed_input = 3 }
    ∷ record { at = 1_004; hashed_input = 4 }
    ∷ record { at = 1_005; hashed_input = 77 }
    ∷ []

generate-bounded_example : Guesses.comparisons (Guesses.answers a_config guesses sent) ≤ 3
generate-bounded_example = generate-bounded a_config 1_000 77 300 no_keys sent guesses generated

abbrev used : OtpKeys
used = record sent { code = none }

accepted : verify a_config 1_010 77 sent ≡ (ok tt, used)
unfolding verify
accepted = refl

verify_once_example : verify a_config 1_011 77 used ≡ (err otp_expired, used)
verify_once_example = verify_once a_config 1_010 1_011 77 77 sent used (ok tt) accepted (inl refl)

-- A toy argon2: a PIN hashes to its first digit.
abbrev first_digit : List ℕ → ℕ
first_digit [] = 0
first_digit (c ∷ cs) = c

abbrev matches : ℕ → List ℕ → Option Bool
matches h pin = some (first_digit pin == h)

abbrev an_account : Account
an_account = record { id = 1; pin_hash = some 55; pin_failed_attempts = 0; pin_locked_until = none }

abbrev a_try : ℕ → Try
a_try at = record { at = at; pin = 56 ∷ 49 ∷ 50 ∷ 51 ∷ [] }

verify_pin-bounded_example :
    Lockout.comparisons (
      Lockout.answers first_digit matches 1
        (a_try 0 ∷ a_try 1 ∷ a_try 2 ∷ a_try 3 ∷ [])
        (an_account ∷ []))
    ≤ 3
verify_pin-bounded_example =
    verify_pin-bounded first_digit matches 0 1 55 an_account
      (a_try 0 ∷ a_try 1 ∷ a_try 2 ∷ a_try 3 ∷ []) (an_account ∷ []) refl refl refl refl
      (
        (omega arith, omega arith, refl),
        (
          (omega arith, omega arith, refl),
          ((omega arith, omega arith, refl), ((omega arith, omega arith, refl), tt)),
        ),
      )

abbrev locked_account : Account
locked_account = record an_account { pin_failed_attempts = 3; pin_locked_until = some 900_000 }

abbrev new_pin : List ℕ
new_pin = 50 ∷ 48 ∷ 50 ∷ 54 ∷ []

good_format : validate_format new_pin ≡ ok tt
unfolding validate_format
good_format = refl

abbrev wrong_guesses : List Try
wrong_guesses =
    record { at = 10; pin = 50 ∷ [] }
    ∷ record { at = 20; pin = 51 ∷ [] }
    ∷ record { at = 30; pin = 52 ∷ [] }
    ∷ record { at = 40; pin = 53 ∷ [] }
    ∷ []

change_pin_unlimited_example :
    change_pin first_digit matches 1_000 1
      (55 ∷ 49 ∷ 50 ∷ 51 ∷ [])
      new_pin
      (guess_all first_digit matches 1 new_pin wrong_guesses (locked_account ∷ []))
    ≡ (ok tt, set_pin 1 50 (locked_account ∷ []))
change_pin_unlimited_example =
    change_pin_unlimited first_digit matches 1_000 1 55 (55 ∷ 49 ∷ 50 ∷ 51 ∷ []) new_pin
      locked_account wrong_guesses (locked_account ∷ []) refl refl good_format
      (refl, (refl, (refl, (refl, tt)))) refl

abbrev jwt : JwtConfig
jwt = record { refresh_ms = 1_000_000; staff_idle_timeout_minutes = 30 }

abbrev itself : ℕ → ℕ
itself n = n

abbrev a_session : Session
a_session = record {
  id = 1;
  user_id = 1;
  device_id = 1;
  refresh_token_hash = 5;
  family_id = 1;
  expires_at = 1_000_000;
  is_revoked = false;
  last_used_at = 0;
  last_activity_at = 0;
}

abbrev sessions_db : Bool → ℕ → SessionDb
sessions_db revoked token = record {
  sessions = record a_session { is_revoked = revoked; refresh_token_hash = token } ∷ [];
  staff = [];
  next = 2;
}

revoked_for_good_example :
    (validate_session jwt itself 9 1 (revoke_session 1 1 (sessions_db true 5))
      ≡ (false, revoke_session 1 1 (sessions_db true 5)))
    × (rotate_refresh_token jwt itself 9 5 6 (revoke_session 1 1 (sessions_db true 5))
        ≡ (err session_revoked, revoke_session 1 1 (sessions_db true 5)))
unfolding revoke_session
revoked_for_good_example =
    revoked_for_good jwt itself 1 9 5 6 (record a_session { is_revoked = true })
      (record a_session { is_revoked = true }) (sessions_db true 5)
      (revoke_session 1 1 (sessions_db true 5)) refl refl (next_call (logout 1 1) here) refl refl

abbrev renewed_session : SessionDb
renewed_session = record (sessions_db false 6) {
  sessions = record a_session { refresh_token_hash = 6; last_used_at = 10 } ∷ [];
}

-- a new login with token 8
abbrev later_run :
    ◌⟶*◌ jwt itself renewed_session (create_session jwt itself 15 1 2 9 8 renewed_session).1
later_run = next_call (login 15 1 2 9 8) here
