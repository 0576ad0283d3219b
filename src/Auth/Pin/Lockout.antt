-- ===== src/Auth/Pin/Lockout.antt =====
-- How many wrong PINs an account allows, and the way around the limit.
use pine_backend.Base.{
  ℕ, suc, ◌+◌, ◌≤◌, ◌<◌, ◌≡◌, refl, Bool, true, false, Option, none, some, List, [], ◌∷◌, ok, err,
  Result, arith, All, inl, inr, Bool-cases, if◌then◌else◌, ◌==◌, leb, find?-test,
  find?-update_where,
}
use pine_backend.Auth.Pin.{
  PinError, pin_locked, invalid_pin, current_pin_incorrect, Account, find_account,
  update_pin_attempts, pin_lockout_ms, verify_pin, check_pin, change_pin, set_pin, validate_format,
}

-- One call of `verifyPin`.
pub record Try : Type 0 where
  pub at : ℕ
  pub pin : List ℕ

-- Whether the answer says something of the PIN.
abbrev pub compared : Result PinError (Unit {0}) → ℕ
compared (ok u) = 1
compared (err invalid_pin) = 1
compared (err _) = 0

abbrev pub comparisons : List (Result PinError (Unit {0})) → ℕ
comparisons [] = 0
comparisons (r ∷ rs) = compared r + comparisons rs

module _ (argon2_hash : List ℕ → ℕ) (argon2_verify : ℕ → List ℕ → Option Bool) where
  pub answers : ℕ → List Try → List Account → List (Result PinError (Unit {0}))
  answers id [] users = []
  answers id (t ∷ ts) users =
      let (r, next) = verify_pin argon2_hash argon2_verify t.at id t.pin users in
      r ∷ answers id ts next

  -- Tries with wrong PINs within the time of one lock.
  abbrev pub AreWrong : ℕ → ℕ → List Try → Type 0
  AreWrong start h = All (λ (t : Try).
      (start ≤ t.at) × (t.at < start + pin_lockout_ms) × (argon2_verify h t.pin ≡ some false))

  module _ (start id h : ℕ) where
    -- `n` wrong PINs have been entered, or the account is locked for the rest of the time.
    data IsSpent : ℕ → List Account → Type 0 where
      unlocked :
          {n : ℕ} {users : List Account} (a : Account)
          → find_account id users ≡ some a
          → a.pin_hash ≡ some h
          → a.pin_failed_attempts ≡ n
          → a.pin_locked_until ≡ none
          → n < 3
          → IsSpent n users
      locked :
          {n : ℕ} {users : List Account} (a : Account) (until : ℕ)
          → find_account id users ≡ some a
          → a.pin_locked_until ≡ some until
          → start + pin_lockout_ms ≤ until
          → IsSpent n users

    updated :
        (failed : ℕ) (until : Option ℕ) (a : Account) (users : List Account)
        → find_account id users ≡ some a
        → find_account id (update_pin_attempts id failed until users)
          ≡ some (record a { pin_failed_attempts = failed; pin_locked_until = until })
    updated failed until a users found =
        let same : (a.id == id) ≡ true = find?-test (λ (r : Account). r.id == id) users a found in
        let after =
          find?-update_where (λ (r : Account). r.id == id) (λ (r : Account). r.id == id)
            (λ (r : Account). record r { pin_failed_attempts = failed; pin_locked_until = until })
            users (λ r. refl) in
        rw (after, found) (ground (arith, same))

    verify_pin-wrong :
        (n : ℕ) (t : Try) (a : Account) (users : List Account)
        → find_account id users ≡ some a
        → a.pin_hash ≡ some h
        → a.pin_failed_attempts ≡ n
        → a.pin_locked_until ≡ none
        → n < 3
        → argon2_verify h t.pin ≡ some false
        → verify_pin argon2_hash argon2_verify t.at id t.pin users ≡ (
          err invalid_pin,
          if leb 3 (suc n)
              then update_pin_attempts id 3 (some (t.at + pin_lockout_ms)) users
              else update_pin_attempts id (suc n) none users,
        )
    unfolding verify_pin check_pin
    verify_pin-wrong n t a users found set used open_ few wrong =
        ground (arith, found, set, used, open_, wrong)

    verify_pin-locked :
        (t : Try) (a : Account) (until : ℕ) (users : List Account)
        → find_account id users ≡ some a
        → a.pin_locked_until ≡ some until
        → t.at < until
        → verify_pin argon2_hash argon2_verify t.at id t.pin users ≡ (err pin_locked, users)
    unfolding verify_pin check_pin
    verify_pin-locked t a until users found closed early = ground (arith, found, closed)

    answers-bounded :
        (n : ℕ) (ts : List Try) (users : List Account)
        → n ≤ 3
        → IsSpent n users
        → AreWrong start h ts
        → comparisons (answers id ts users) + n ≤ 3
    unfolding answers
    answers-bounded n [] users few spent p = omega (arith, few)
    answers-bounded n (t ∷ ts) users few (locked a until found closed late)
          ((from, before, wrong), ps) =
        let rest = answers-bounded n ts users few (locked a until found closed late) ps in
        let early : t.at < until = omega (arith, late, before) in
        rw (verify_pin-locked t a until users found closed early) (omega (arith, rest))
    answers-bounded n (t ∷ ts) users few (unlocked a found set used open_ left)
          ((from, before, wrong), ps) =
        elim (Bool-cases (leb 3 (suc n))) [
          | inl last ↦
              let until = t.at + pin_lockout_ms in
              let next =
                locked {n = suc n}
                  (record a { pin_failed_attempts = 3; pin_locked_until = some until }) until
                  (updated 3 (some until) a users found) refl (omega (arith, from)) in
              let rest =
                answers-bounded (suc n) ts (update_pin_attempts id 3 (some until) users)
                  (omega (arith, left)) next ps in
              let ran = verify_pin-wrong n t a users found set used open_ left wrong in
              rw (ran, last) (omega (arith, rest))
          | inr more ↦
              let room : suc n < 3 = ground (arith, more) in
              let next =
                unlocked {n = suc n}
                  (record a { pin_failed_attempts = suc n; pin_locked_until = none })
                  (updated (suc n) none a users found) set refl refl room in
              let rest =
                answers-bounded (suc n) ts (update_pin_attempts id (suc n) none users)
                  (omega (arith, left)) next ps in
              let ran = verify_pin-wrong n t a users found set used open_ left wrong in
              rw (ran, more) (omega (arith, rest))
        ]

  -- Of any sequence of wrong PINs entered into `verifyPin` within a quarter of an hour, for an account
  -- that starts with no failed attempt and no lock, at most three are compared with the account's: the
  -- others are refused whatever was entered. argon2 does not throw on the account's hash.
  pub verify_pin-bounded :
      (start id h : ℕ) (a : Account) (ts : List Try) (users : List Account)
      → find_account id users ≡ some a
      → a.pin_hash ≡ some h
      → a.pin_failed_attempts ≡ 0
      → a.pin_locked_until ≡ none
      → AreWrong start h ts
      → comparisons (answers id ts users) ≤ 3
  verify_pin-bounded start id h a ts users found set unused open_ wrong = omega (
    arith,
    answers-bounded start id h 0 ts users (omega arith)
        (unlocked a found set unused open_ (omega arith)) wrong,
  )

  change_pin_answer :
      (now id h : ℕ) (current_pin new_pin : List ℕ) (answer : Bool) (a : Account)
      (users : List Account)
      → find_account id users ≡ some a
      → a.pin_hash ≡ some h
      → validate_format new_pin ≡ ok tt
      → argon2_verify h current_pin ≡ some answer
      → change_pin argon2_hash argon2_verify now id current_pin new_pin users ≡ (
          if answer
          then (ok tt, set_pin id (argon2_hash new_pin) users)
          else (err current_pin_incorrect, users))
  unfolding change_pin check_pin
  change_pin_answer now id h current_pin new_pin answer a users found set good said =
      ground (arith, good, found, set, said)

  -- The database after a sequence of calls of `changePin`, with one new PIN.
  pub guess_all : ℕ → List ℕ → List Try → List Account → List Account
  guess_all id new_pin [] users = users
  guess_all id new_pin (t ∷ ts) users =
      guess_all id new_pin ts (change_pin argon2_hash argon2_verify t.at id t.pin new_pin users).1

  guesses_unnoticed :
      (id h : ℕ) (new_pin : List ℕ) (a : Account) (ts : List Try) (users : List Account)
      → find_account id users ≡ some a
      → a.pin_hash ≡ some h
      → validate_format new_pin ≡ ok tt
      → All (λ (t : Try). argon2_verify h t.pin ≡ some false) ts
      → guess_all id new_pin ts users ≡ users
  unfolding guess_all
  guesses_unnoticed id h new_pin a [] users found set good wrong = refl
  guesses_unnoticed id h new_pin a (t ∷ ts) users found set good (w, ws) =
      rw (change_pin_answer t.at id h t.pin new_pin false a users found set good w)
        (guesses_unnoticed id h new_pin a ts users found set good ws)

  -- `changePin` is not limited: after any number of calls with wrong current PINs, at any times, and
  -- also where the account is locked, the right current PIN is accepted, and with a new PIN of good
  -- format it sets the new one and lifts the lock. argon2 does not throw on the account's hash.
  pub change_pin_unlimited :
      (now id h : ℕ) (current_pin new_pin : List ℕ) (a : Account) (ts : List Try)
      (users : List Account)
      → find_account id users ≡ some a
      → a.pin_hash ≡ some h
      → validate_format new_pin ≡ ok tt
      → All (λ (t : Try). argon2_verify h t.pin ≡ some false) ts
      → argon2_verify h current_pin ≡ some true
      → change_pin argon2_hash argon2_verify now id current_pin new_pin
          (guess_all id new_pin ts users)
        ≡ (ok tt, set_pin id (argon2_hash new_pin) users)
  change_pin_unlimited now id h current_pin new_pin a ts users found set good wrong right =
      rw (guesses_unnoticed id h new_pin a ts users found set good wrong)
        (change_pin_answer now id h current_pin new_pin true a users found set good right)
