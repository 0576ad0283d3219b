-- ===== src/Auth/Otp.antt =====
-- One-time codes, src/modules/auth/services/otp.service.ts: the three Redis keys of one purpose and
-- destination, each with its expiry. Times are in seconds; the random code and its hash are given.
pub mod Guesses
use pine_backend.Base.{
  ℕ, suc, ◌+◌, ◌-◌, Bool, true, false, not, ◌&&◌, Option, none, some, ◌==◌, ltb, if◌then◌else◌, ok,
  err, Action,
}

pub data OtpError : Type 0 where
  rate_limited otp_expired otp_max_attempts_exceeded otp_invalid : OtpError

-- `config.otp`
pub record OtpConfig : Type 0 where
  pub ttl_seconds : ℕ
  pub max_attempts : ℕ
  pub cooldown_seconds : ℕ

-- a value and the time from which the key is gone; none is a key with no expiry
pub record Timed (A : Type 0) : Type 0 where
  pub value : A
  pub expires_at : Option ℕ

pub record OtpKeys : Type 0 where
  -- `otp:`, the hash of the code
  pub code : Option (Timed ℕ)
  -- `otp-attempts:`
  pub attempts : Option (Timed ℕ)
  -- `otp-cooldown:`
  pub cooldown : Option (Timed (Unit {0}))

abbrev pub is_live : {A : Type 0} → ℕ → Timed A → Bool
is_live now t = elim t.expires_at [ none ↦ true | some at ↦ ltb now at ]

-- `GET`
abbrev pub get : {A : Type 0} → ℕ → Option (Timed A) → Option (Timed A)
get now none = none
get now (some t) = if is_live now t then some t else none

-- the time left of a key, where it has one
abbrev pub ttl : {A : Type 0} → ℕ → Option (Timed A) → ℕ
ttl now none = 0
ttl now (some t) = elim t.expires_at [ none ↦ 0 | some at ↦ at - now ]

-- `generate`
unfoldable pub generate : OtpConfig → ℕ → ℕ → Action OtpError OtpKeys ℕ
generate config now hashed_code keys =
    if ltb 0 (ttl now keys.cooldown) then (err rate_limited, keys) else (
      ok config.ttl_seconds,
      record {
        code = some (record { value = hashed_code; expires_at = some (now + config.ttl_seconds) });
        attempts = none;
        cooldown = some (record { value = tt; expires_at = some (now + config.cooldown_seconds) });
      },
    )

-- `INCR` keeps the expiry of the counter
abbrev pub incremented : ℕ → Option (Timed ℕ) → Timed ℕ
incremented now attempts = elim (get now attempts) [
  | none ↦ record { value = 1; expires_at = none }
  | some t ↦ record t { value = suc t.value }
]

-- the first attempt binds the counter to what is left of the code
abbrev pub bound : ℕ → Option (Timed ℕ) → Timed ℕ → Timed ℕ
bound now code t =
    if t.value == 1 && ltb 0 (ttl now code)
    then record t { expires_at = some (now + ttl now code) }
    else t

-- `del(otpKey, attemptsKey)`
abbrev pub consumed : OtpKeys → OtpKeys
consumed keys = record keys { code = none; attempts = none }

-- what follows the count: the limit, the comparison, and the code's end
abbrev pub judge : OtpConfig → Timed ℕ → ℕ → Timed ℕ → Action OtpError OtpKeys (Unit {0})
judge config stored hashed_input count keys =
    let counted = record keys { attempts = some count } in
    if ltb config.max_attempts count.value
    then (err otp_max_attempts_exceeded, consumed keys)
    else if not (hashed_input == stored.value)
    then (err otp_invalid, counted)
    else (ok tt, consumed keys)

abbrev pub on_stored :
    OtpConfig → Option (Timed ℕ) → ℕ → Timed ℕ → Action OtpError OtpKeys (Unit {0})
on_stored config none hashed_input count keys = (err otp_expired, keys)
on_stored config (some stored) hashed_input count keys = judge config stored hashed_input count keys

-- `verify`
unfoldable pub verify : OtpConfig → ℕ → ℕ → Action OtpError OtpKeys (Unit {0})
verify config now hashed_input keys =
    on_stored config (get now keys.code) hashed_input
      (bound now keys.code (incremented now keys.attempts)) keys
