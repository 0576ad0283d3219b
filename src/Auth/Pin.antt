-- ===== src/Auth/Pin.antt =====
-- Transaction PINs: src/modules/auth/services/pin.service.ts, and `createPin`, `verifyPin` and
-- `changePin` of auth.service.ts over the columns that identity.service.ts keeps, in the same folder.
-- A PIN is the list of its character codes. argon2 is given by what it hashes a PIN to and by its
-- check of a PIN against a hash, which is none where it throws. Times are in milliseconds, and the
-- token that a verified PIN earns is left out.
pub mod Lockout
use pine_backend.Base.{
  ℕ, suc, ◌+◌, ◌-◌, ◌*◌, Bool, true, false, not, ◌&&◌, ◌||◌, Option, none, some, List, [], ◌∷◌,
  ◌==◌, ltb, leb, if◌then◌else◌, length, find?, update_where, Result, ok, err, Action,
}

pub data PinError : Type 0 where
  pin_locked pin_not_set user_not_found pin_already_set invalid_pin current_pin_incorrect : PinError
  pin_length pin_repeats pin_too_common : PinError

abbrev pub pin_max_attempts : ℕ
pin_max_attempts = 3

abbrev pub pin_lockout_ms : ℕ
pin_lockout_ms = 15 * 60 * 1_000

pub record PinCheck : Type 0 where
  pub valid : Bool
  pub should_lock : Bool
  -- three less `attemptsRemaining`, which is what `verifyPin` stores
  pub attempts_used : ℕ

-- The columns of a user.
pub record Account : Type 0 where
  pub id : ℕ
  pub pin_hash : Option ℕ
  pub pin_failed_attempts : ℕ
  pub pin_locked_until : Option ℕ

abbrev pub is_digit : ℕ → Bool
is_digit c = leb 48 c && leb c 57

abbrev pub all_digits : List ℕ → Bool
all_digits [] = true
all_digits (c ∷ cs) = is_digit c && all_digits cs

abbrev pub all_same : ℕ → List ℕ → Bool
all_same c [] = true
all_same c (d ∷ ds) = d == c && all_same c ds

-- `/^(\d)\1+$/`, on digits
abbrev pub repeats : List ℕ → Bool
repeats [] = false
repeats (c ∷ []) = false
repeats (c ∷ d ∷ ds) = all_same c (d ∷ ds)

abbrev pub same_text : List ℕ → List ℕ → Bool
same_text [] [] = true
same_text (c ∷ cs) (d ∷ ds) = c == d && same_text cs ds
same_text _ _ = false

-- 1234, 4321, 0000, 1111, 123456
abbrev pub too_common : List (List ℕ)
too_common =
    (49 ∷ 50 ∷ 51 ∷ 52 ∷ [])
    ∷ (52 ∷ 51 ∷ 50 ∷ 49 ∷ [])
    ∷ (48 ∷ 48 ∷ 48 ∷ 48 ∷ [])
    ∷ (49 ∷ 49 ∷ 49 ∷ 49 ∷ [])
    ∷ (49 ∷ 50 ∷ 51 ∷ 52 ∷ 53 ∷ 54 ∷ [])
    ∷ []

abbrev pub is_any : List ℕ → List (List ℕ) → Bool
is_any pin [] = false
is_any pin (p ∷ ps) = same_text pin p || is_any pin ps

-- `validateFormat`
unfoldable pub validate_format : List ℕ → Result PinError (Unit {0})
validate_format pin =
    if not (all_digits pin && leb 4 (length pin) && leb (length pin) 6)
    then err pin_length
    else if repeats pin
    then err pin_repeats
    else if is_any pin too_common
    then err pin_too_common
    else ok tt

abbrev pub is_locked : ℕ → Option ℕ → Bool
is_locked now none = false
is_locked now (some until) = ltb now until

-- what argon2 says, and what becomes of it
abbrev pub judge : Option Bool → ℕ → PinCheck
judge none failed = record { valid = false; should_lock = false; attempts_used = suc failed }
judge (some true) failed = record { valid = true; should_lock = false; attempts_used = 0 }
judge (some false) failed = record {
  valid = false;
  should_lock = leb pin_max_attempts (suc failed);
  attempts_used = if ltb pin_max_attempts (suc failed) then pin_max_attempts else suc failed;
}

-- `getUserById` and the writes of the identity service
abbrev pub find_account : ℕ → List Account → Option Account
find_account id = find? (λ (a : Account). a.id == id)

abbrev pub set_pin : ℕ → ℕ → List Account → List Account
set_pin id pin_hash =
    update_where (λ (a : Account). a.id == id)
      (λ (a : Account). record a {
        pin_hash = some pin_hash;
        pin_failed_attempts = 0;
        pin_locked_until = none;
      })

abbrev pub update_pin_attempts : ℕ → ℕ → Option ℕ → List Account → List Account
update_pin_attempts id failed until =
    update_where (λ (a : Account). a.id == id)
      (λ (a : Account). record a { pin_failed_attempts = failed; pin_locked_until = until })

module _ (argon2_hash : List ℕ → ℕ) (argon2_verify : ℕ → List ℕ → Option Bool) where
  -- `PinService.verifyPin`
  unfoldable pub check_pin : ℕ → List ℕ → Option ℕ → ℕ → Option ℕ → Result PinError PinCheck
  check_pin now pin pin_hash failed until =
      if is_locked now until then err pin_locked else elim pin_hash [
        | none ↦ err pin_not_set
        | some h ↦ ok (judge (argon2_verify h pin) failed)
      ]

  abbrev record_check : ℕ → ℕ → PinCheck → Action PinError (List Account) (Unit {0})
  record_check now id c users =
      if c.valid
      then (ok tt, update_pin_attempts id 0 none users)
      else if c.should_lock
      then (err invalid_pin, update_pin_attempts id 3 (some (now + pin_lockout_ms)) users)
      else (err invalid_pin, update_pin_attempts id c.attempts_used none users)

  abbrev after_check : ℕ → ℕ → Result PinError PinCheck → Action PinError (List Account) (Unit {0})
  after_check now id (err e) users = (err e, users)
  after_check now id (ok c) users = record_check now id c users

  -- `AuthService.verifyPin`
  unfoldable pub verify_pin : ℕ → ℕ → List ℕ → Action PinError (List Account) (Unit {0})
  unfolding check_pin
  verify_pin now id pin users = elim (find_account id users) [
    | none ↦ (err user_not_found, users)
    | some a ↦
        after_check now id (check_pin now pin a.pin_hash a.pin_failed_attempts a.pin_locked_until)
          users
  ]

  abbrev create_for : ℕ → List ℕ → Option Account → Action PinError (List Account) (Unit {0})
  create_for id pin none users = (err user_not_found, users)
  create_for id pin (some a) users = elim a.pin_hash [
    | some h ↦ (err pin_already_set, users)
    | none ↦ (ok tt, set_pin id (argon2_hash pin) users)
  ]

  -- `createPin`
  unfoldable pub create_pin : ℕ → List ℕ → Action PinError (List Account) (Unit {0})
  unfolding validate_format
  create_pin id pin users = elim (validate_format pin) [
    | err e ↦ (err e, users)
    | ok u ↦ create_for id pin (find_account id users) users
  ]

  abbrev change_checked :
      ℕ → List ℕ → Result PinError PinCheck → Action PinError (List Account) (Unit {0})
  change_checked id new_pin (err e) users = (err e, users)
  change_checked id new_pin (ok c) users =
      if c.valid
      then (ok tt, set_pin id (argon2_hash new_pin) users)
      else (err current_pin_incorrect, users)

  -- `changePin`: the check is made with no failed attempts and no lock
  unfoldable pub change_pin : ℕ → ℕ → List ℕ → List ℕ → Action PinError (List Account) (Unit {0})
  unfolding validate_format check_pin
  change_pin now id current_pin new_pin users = elim (validate_format new_pin) [
    | err e ↦ (err e, users)
    | ok u ↦ elim (find_account id users) [
      | none ↦ (err user_not_found, users)
      | some a ↦ change_checked id new_pin (check_pin now current_pin a.pin_hash 0 none) users
    ]
  ]
