-- ===== src/Kyc/Mrz/Checks.antt =====
-- What a check digit detects.
use pine_backend.Base.{
  ℕ, suc, ◌+◌, ◌*◌, ◌%◌, ◌≡◌, refl, ◌↔◌, List, [], ◌∷◌, ◌++◌, length, arith, Bool-cases, inl, inr,
  ◌==◌,
}
use pine_backend.Kyc.Mrz.{check_digit, check_sum, check_value, weight}

check_sum-suffix :
    (i a b : ℕ) (cs : List ℕ) → a % 10 ≡ b % 10 ↔ (check_sum i a cs % 10 ≡ check_sum i b cs % 10)
unfolding check_sum
check_sum-suffix i a b [] = (λ h. h, λ h. h)
check_sum-suffix i a b (c ∷ cs) =
    let more = check_value c * weight i in
    let (to, from) = check_sum-suffix (suc i) (a + more) (b + more) cs in
    (λ h. to (omega (arith, h)), λ h. omega (arith, from h))

check_sum-append :
    (i a : ℕ) (cs ds : List ℕ)
    → check_sum i a (cs ++ ds) ≡ check_sum (i + length cs) (check_sum i a cs) ds
unfolding check_sum
check_sum-append i a [] ds = let e : i + 0 ≡ i = omega arith in rw e refl
check_sum-append i a (c ∷ cs) ds =
    let e : i + suc (length cs) ≡ suc i + length cs = omega arith in
    rw e (check_sum-append (suc i) (a + check_value c * weight i) cs ds)

weighted : (i a v w : ℕ) → (v % 10 ≡ w % 10) ↔ ((a + v * weight i) % 10 ≡ (a + w * weight i) % 10)
weighted i a v w = elim (Bool-cases (i % 3 == 0)) [
  | inl first ↦ rw first (λ h. omega (arith, h), λ h. omega (arith, h))
  | inr later ↦ elim (Bool-cases (i % 3 == 1)) [
    | inl second ↦ rw (later, second) (λ h. omega (arith, h), λ h. omega (arith, h))
    | inr third ↦ rw (later, third) (λ h. omega (arith, h), λ h. omega (arith, h))
  ]
]

-- One character of a field misread as another one changes the check digit, unless the values of the
-- two are the same modulo ten; then it does not.
pub check_digit_detects :
    (before after : List ℕ) (c d : ℕ)
    → (check_digit (before ++ (c ∷ after)) ≡ check_digit (before ++ (d ∷ after)))
      ↔ (check_value c % 10 ≡ check_value d % 10)
unfolding check_digit check_sum
check_digit_detects before after c d =
    let i = 0 + length before in
    let a = check_sum 0 0 before in
    let (up, down) = weighted i a (check_value c) (check_value d) in
    let (to, from) =
      check_sum-suffix (suc i) (a + check_value c * weight i) (a + check_value d * weight i)
        after in
    let left = check_sum-append 0 0 before (c ∷ after) in
    let right = check_sum-append 0 0 before (d ∷ after) in
    (λ h. down (from (omega (arith, h, left, right))), λ h. omega (arith, to (up h), left, right))
