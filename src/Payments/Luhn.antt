-- ===== src/Payments/Luhn.antt =====
-- `luhnValid` and `sanitizeKey` of src/modules/payments/services/card-payment.service.ts, on the codes
-- of a text's characters.
use pine_backend.Base.{
  ℕ, ◌+◌, ◌-◌, ◌*◌, ◌%◌, ◌≤◌, ◌≡◌, ◌≢◌, refl, Bool, true, false, not, ◌&&◌, ◌||◌, ◌==◌, Option,
  none, some, List, [], ◌∷◌, ◌++◌, ltb, if◌then◌else◌, filter, take, arith, ◌⊎◌, inl, inr, ==_iff,
  Option-cases, Bool-cases, ap,
}

-- `d *= 2; if (d > 9) d -= 9`
abbrev pub weight : Bool → ℕ → ℕ
weight false d = d
weight true d = if ltb 9 (d * 2) then d * 2 - 9 else d * 2

abbrev add_digit : ℕ → Option (ℕ × Bool) → Option (ℕ × Bool)
add_digit c none = none
add_digit c (some (sum, dbl)) =
    if ltb c 48 || ltb 57 c then none else some (sum + weight dbl (c - 48), not dbl)

-- the loop, which runs from the last character to the first
unfoldable pub luhn_sum : List ℕ → Option (ℕ × Bool)
luhn_sum [] = some (0, false)
luhn_sum (c ∷ rest) = add_digit c (luhn_sum rest)

abbrev is_multiple : Option (ℕ × Bool) → Bool
is_multiple none = false
is_multiple (some (sum, dbl)) = sum % 10 == 0

-- `luhnValid`
unfoldable pub luhn_valid : List ℕ → Bool
unfolding luhn_sum
luhn_valid number = is_multiple (luhn_sum number)

-- `[A-Za-z0-9_-]`
abbrev pub is_key_char : ℕ → Bool
is_key_char c =
    (not (ltb c 65) && not (ltb 90 c))
    || (not (ltb c 97) && not (ltb 122 c))
    || (not (ltb c 48) && not (ltb 57 c))
    || c == 95
    || c == 45

-- `sanitizeKey`
abbrev pub sanitize_key : List ℕ → List ℕ
sanitize_key key = take 48 (filter is_key_char key)

-- Sums that differ behind a number's first characters differ by as much before them.
shifted :
    (xs ys zs : List ℕ) (s r : ℕ) (dbl : Bool)
    → luhn_sum ys ≡ some (s, dbl)
    → luhn_sum zs ≡ some (r, dbl)
    → (luhn_sum (xs ++ ys) ≡ none)
      ⊎ ((k : ℕ) × (b : Bool) × (luhn_sum (xs ++ ys) ≡ some (s + k, b))
          × (luhn_sum (xs ++ zs) ≡ some (r + k, b)))
unfolding luhn_sum
shifted [] ys zs s r dbl p q = inr (0, dbl, rw p (ground arith), rw q (ground arith))
shifted (c ∷ xs) ys zs s r dbl p q = elim (shifted xs ys zs s r dbl p q) [
  | inl stopped ↦ inl (ap (add_digit c) stopped)
  | inr (k, b, left, right) ↦ elim (Bool-cases (ltb c 48 || ltb 57 c)) [
    | inl other ↦ inl (rw left (rw other refl))
    | inr digit ↦
        let e : (s + k) + weight b (c - 48) ≡ s + (k + weight b (c - 48)) = omega arith in
        let f : (r + k) + weight b (c - 48) ≡ r + (k + weight b (c - 48)) = omega arith in
        inr (
          k + weight b (c - 48),
          not b,
          rw left (rw (digit, e) refl),
          rw right (rw (digit, f) refl),
        )
  ]
]

stopped_before : (xs ys : List ℕ) → luhn_sum ys ≡ none → luhn_sum (xs ++ ys) ≡ none
unfolding luhn_sum
stopped_before [] ys p = p
stopped_before (c ∷ xs) ys p = ap (add_digit c) (stopped_before xs ys p)

-- Two digits of the same place weigh differently.
weight_apart :
    (b : Bool) (c d n : ℕ)
    → c ≤ 9
    → d ≤ 9
    → (n + weight b c) % 10 ≡ 0
    → (n + weight b d) % 10 ≡ 0
    → c ≡ d
weight_apart false c d n p q e f = omega (arith, p, q, e, f)
weight_apart true c d n p q e f = ground (arith, p, q, e, f)

regroup : (s w k : ℕ) → ((s + w + k) % 10 == 0) ≡ true → (s + k + w) % 10 ≡ 0
regroup s w k h = let e : (s + w + k) % 10 ≡ 0 = (==_iff _ _).0 h in omega (arith, e)

abbrev pub IsDigit : ℕ → Type 0
IsDigit c = (48 ≤ c) × (c ≤ 57)

-- A card number that is valid is not valid with any one of its digits changed to another digit.
pub luhn_valid-one_digit :
    (xs ys : List ℕ) (c d : ℕ)
    → IsDigit c
    → IsDigit d
    → c ≢ d
    → luhn_valid (xs ++ c ∷ ys) ≡ true
    → luhn_valid (xs ++ d ∷ ys) ≡ false
unfolding luhn_valid luhn_sum
luhn_valid-one_digit xs ys c d p q differs valid = elim (Option-cases (luhn_sum ys)) [
  | inl stopped ↦
      let gone : luhn_sum (xs ++ c ∷ ys) ≡ none =
        stopped_before xs (c ∷ ys) (ap (add_digit c) stopped) in
      let bad : false ≡ true = rw gone at valid in cc
  | inr ((s, b), read) ↦
      elim (shifted xs (c ∷ ys) (d ∷ ys) (s + weight b (c - 48)) (s + weight b (d - 48)) (not b)
        (rw read (ground (arith, p))) (rw read (ground (arith, q)))) [
          | inl gone ↦ let bad : false ≡ true = rw gone at valid in cc
          | inr (k, b', left, right) ↦
              let before : (((s + weight b (c - 48)) + k) % 10 == 0) ≡ true = rw left at valid in
              elim (Bool-cases (((s + weight b (d - 48)) + k) % 10 == 0)) [
                | inr invalid ↦ rw right invalid
                | inl after ↦
                    let e : ((s + k) + weight b (c - 48)) % 10 ≡ 0 =
                      regroup s (weight b (c - 48)) k before in
                    let f : ((s + k) + weight b (d - 48)) % 10 ≡ 0 =
                      regroup s (weight b (d - 48)) k after in
                    let same =
                      weight_apart b (c - 48) (d - 48) (s + k) (omega (arith, p)) (omega (arith, q))
                        e f in
                    absurd (differs (omega (arith, p, q, same)))
              ]
        ]
]
