-- ===== src/Auth/Otp/Guesses.antt =====
-- How many guesses a code allows.
use pine_backend.Base.{
  ℕ, suc, ◌+◌, ◌-◌, ◌≤◌, ◌≡◌, refl, true, false, Option, none, some, List, [], ◌∷◌, ◌⊎◌, inl, inr,
  ok, err, Result, arith, Bool-cases, ◌==◌, ltb, ap, ◌∙◌,
}
use pine_backend.Auth.Otp.{
  OtpError, otp_expired, otp_max_attempts_exceeded, otp_invalid, OtpConfig, Timed, OtpKeys,
  generate, verify, get, on_stored, judge, bound, incremented,
}

-- One call of `verify`: the time, and the hash of what was entered.
pub record Guess : Type 0 where
  pub at : ℕ
  pub hashed_input : ℕ

-- The answers that a guesser gets, in turn.
pub answers : OtpConfig → List Guess → OtpKeys → List (Result OtpError (Unit {0}))
answers config [] keys = []
answers config (g ∷ gs) keys =
    let (r, next) = verify config g.at g.hashed_input keys in r ∷ answers config gs next

-- Whether the answer says something of the code.
abbrev pub compared : Result OtpError (Unit {0}) → ℕ
compared (ok u) = 1
compared (err otp_invalid) = 1
compared (err _) = 0

abbrev pub comparisons : List (Result OtpError (Unit {0})) → ℕ
comparisons [] = 0
comparisons (r ∷ rs) = compared r + comparisons rs

-- The code is gone, or its counter stands at `n` and ends with it.
data IsSpent : ℕ → OtpKeys → Type 0 where
  gone : {n : ℕ} {keys : OtpKeys} → keys.code ≡ none → IsSpent n keys
  fresh :
      {keys : OtpKeys} (stored : Timed ℕ) (at : ℕ)
      → keys.code ≡ some stored
      → stored.expires_at ≡ some at
      → keys.attempts ≡ none
      → IsSpent 0 keys
  counted :
      {n : ℕ} {keys : OtpKeys} (stored : Timed ℕ) (at : ℕ)
      → keys.code ≡ some stored
      → stored.expires_at ≡ some at
      → keys.attempts ≡ some (record { value = suc n; expires_at = some at })
      → IsSpent (suc n) keys

module _ (config : OtpConfig) where
  -- What one call leaves of the allowance.
  abbrev Left : ℕ → Result OtpError (Unit {0}) × OtpKeys → Type 0
  Left n (r, keys) = (m : ℕ) × (compared r + n ≤ m) × (m ≤ config.max_attempts) × IsSpent m keys

  verify-gone :
      (g : Guess) (keys : OtpKeys)
      → keys.code ≡ none
      → verify config g.at g.hashed_input keys ≡ (err otp_expired, keys)
  unfolding verify
  verify-gone g keys none_there = ground (arith, none_there)

  judge-Left :
      (n input at : ℕ) (stored : Timed ℕ) (keys : OtpKeys)
      → n ≤ config.max_attempts
      → keys.code ≡ some stored
      → stored.expires_at ≡ some at
      → Left n (judge config stored input (record { value = suc n; expires_at = some at }) keys)
  judge-Left n input at stored keys few there until =
      elim (Bool-cases (ltb config.max_attempts (suc n))) [
        | inl over ↦ rw over (n, omega arith, few, gone refl)
        | inr within ↦
            let room : suc n ≤ config.max_attempts = ground (arith, within) in
            elim (Bool-cases (input == stored.value)) [
              | inl hit ↦ rw (within, hit) (suc n, omega arith, room, gone refl)
              | inr miss ↦
                  rw (within, miss) (suc n, omega arith, room, counted stored at there until refl)
            ]
      ]

  verify-live :
      (n at : ℕ) (g : Guess) (stored : Timed ℕ) (keys : OtpKeys)
      → keys.code ≡ some stored
      → stored.expires_at ≡ some at
      → ltb g.at at ≡ true
      → bound g.at keys.code (incremented g.at keys.attempts)
        ≡ record { value = suc n; expires_at = some at }
      → verify config g.at g.hashed_input keys
        ≡ judge config stored g.hashed_input (record { value = suc n; expires_at = some at }) keys
  unfolding verify
  verify-live n at g stored keys there until live count =
      let got : get g.at keys.code ≡ some stored = ground (arith, there, until, live) in
      ap
        (λ (o : Option (Timed ℕ)).
          on_stored config o g.hashed_input (bound g.at keys.code (incremented g.at keys.attempts))
            keys)
        got
      ∙ ap (λ (c : Timed ℕ). judge config stored g.hashed_input c keys) count

  verify-late :
      (at : ℕ) (g : Guess) (stored : Timed ℕ) (keys : OtpKeys)
      → keys.code ≡ some stored
      → stored.expires_at ≡ some at
      → ltb g.at at ≡ false
      → verify config g.at g.hashed_input keys ≡ (err otp_expired, keys)
  unfolding verify
  verify-late at g stored keys there until late = ground (arith, there, until, late)

  verify-Left :
      (n : ℕ) (g : Guess) (keys : OtpKeys)
      → n ≤ config.max_attempts
      → IsSpent n keys
      → Left n (verify config g.at g.hashed_input keys)
  verify-Left n g keys few (gone none_there) =
      rw (verify-gone g keys none_there) (n, omega arith, few, gone none_there)
  verify-Left _ g keys few (fresh stored at there until unused) = elim (Bool-cases (ltb g.at at)) [
    | inr late ↦
        rw (verify-late at g stored keys there until late)
          (0, omega arith, few, fresh stored at there until unused)
    | inl live ↦
        let whole : g.at + (at - g.at) ≡ at = ground (arith, live) in
        let left : ltb 0 (at - g.at) ≡ true = ground (arith, live) in
        let count : bound g.at keys.code (incremented g.at keys.attempts)
            ≡ record { value = 1; expires_at = some at } =
          rw (unused, there, until, left, whole) refl in
        rw (verify-live 0 at g stored keys there until live count)
          (judge-Left 0 g.hashed_input at stored keys few there until)
  ]
  verify-Left _ g keys few (counted {n} stored at there until used) =
      elim (Bool-cases (ltb g.at at)) [
        | inr late ↦
            rw (verify-late at g stored keys there until late)
              (suc n, omega arith, few, counted stored at there until used)
        | inl live ↦
            let count : bound g.at keys.code (incremented g.at keys.attempts)
                ≡ record { value = suc (suc n); expires_at = some at } =
              ground (arith, used, there, until, live) in
            rw (verify-live (suc n) at g stored keys there until live count)
              (judge-Left (suc n) g.hashed_input at stored keys few there until)
      ]

  answers-bounded :
      (n : ℕ) (gs : List Guess) (keys : OtpKeys)
      → n ≤ config.max_attempts
      → IsSpent n keys
      → comparisons (answers config gs keys) + n ≤ config.max_attempts
  unfolding answers
  answers-bounded n [] keys few spent = omega (arith, few)
  answers-bounded n (g ∷ gs) keys few spent =
      let (m, more, within, after) = verify-Left n g keys few spent in
      let rest = answers-bounded m gs (verify config g.at g.hashed_input keys).1 within after in
      omega (arith, more, rest)

  -- Of any sequence of guesses at a code, at whatever times, at most `maxAttempts` are compared with it:
  -- the others are answered with an error that does not depend on what was entered.
  pub generate-bounded :
      (now hashed_code seconds : ℕ) (keys keys' : OtpKeys) (gs : List Guess)
      → generate config now hashed_code keys ≡ (ok seconds, keys')
      → comparisons (answers config gs keys') ≤ config.max_attempts
  unfolding generate
  generate-bounded now hashed_code seconds keys keys' gs made =
      let stored : Timed ℕ = record {
        value = hashed_code;
        expires_at = some (now + config.ttl_seconds);
      } in
      let there : keys'.code ≡ some stored = ground (arith, made) in
      let unused : keys'.attempts ≡ none = ground (arith, made) in
      omega (
        arith,
        answers-bounded 0 gs keys' (omega arith)
            (fresh stored (now + config.ttl_seconds) there refl unused),
      )

  -- A code is accepted once: after it has been accepted, or the limit has been passed, every later
  -- entry is answered as for a code that never was, and changes nothing.
  pub verify_once :
      (now later input input' : ℕ) (keys keys' : OtpKeys) (r : Result OtpError (Unit {0}))
      → verify config now input keys ≡ (r, keys')
      → (r ≡ ok tt) ⊎ (r ≡ err otp_max_attempts_exceeded)
      → verify config later input' keys' ≡ (err otp_expired, keys')
  unfolding verify
  verify_once now later input input' keys keys' r ran closed = elim closed [
    | inl accepted ↦ ground arith
    | inr exceeded ↦ ground arith
  ]
