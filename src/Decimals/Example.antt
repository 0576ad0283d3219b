-- ===== src/Decimals/Example.antt =====
-- The laws can be met: whole numbers of ten-thousandths, which products and quotients round towards
-- zero.
use pine_backend.Base.{
  ◌-◌, ◌*◌, ◌+◌, ◌/◌, ◌^◌, ◌≡◌, refl, not, Option, none, some, List, [], ◌∷◌, ap, map, get_or, ℤ,
  pos, negsuc, pos_part, ◌+ℤ◌, ◌-ℤ◌, ◌*ℤ◌, quot_ℤ, ltb_ℤ, if◌then◌else◌,
}
use pine_backend.Decimals.Interface.{Decimals, IsExact, total}

-- A quotient with the sign of the dividend; the program divides by positive amounts.
abbrev quotient : ℤ → ℤ → ℤ
quotient a (pos b) = quot_ℤ (a *ℤ pos 10_000) b
quotient a (negsuc b) = pos 0 -ℤ quot_ℤ (a *ℤ pos 10_000) (pos_part (pos 0 -ℤ negsuc b))

-- towards minus infinity
abbrev floor_of : ℤ → ℤ
floor_of (pos n) = pos (n / 10_000 * 10_000)
floor_of (negsuc n) = negsuc (n / 10_000 * 10_000 + 9_999)

abbrev total_or_null : List ℤ → Option ℤ
total_or_null [] = none
total_or_null (x ∷ xs) = some (total (x ∷ xs))

instance abbrev pub ten_thousandths : Decimals
ten_thousandths = record {
  Decimal = ℤ;
  Number = ℤ;
  add = λ a b. a +ℤ b;
  sub = λ a b. a -ℤ b;
  mul = λ a b. quot_ℤ (a *ℤ b) 10_000;
  div = quotient;
  lt = ltb_ℤ;
  lte = λ a b. not (ltb_ℤ b a);
  gt = λ a b. ltb_ℤ b a;
  gte = λ a b. not (ltb_ℤ a b);
  least = λ a b. if ltb_ℤ b a then b else a;
  greatest = λ a b. if ltb_ℤ a b then b else a;
  floor = floor_of;
  of_number = λ n. n;
  to_number = λ d. d;
  literal = λ m k. pos (m * 10 ^ (4 - k));
  num_lt = ltb_ℤ;
  num_gte = λ a b. not (ltb_ℤ a b);
  store = λ d. d;
  increment = λ a b. a +ℤ b;
  decrement = λ a b. a -ℤ b;
  sum = total_or_null;
}

pub map-id : (xs : List ℤ) → map (λ z. z) xs ≡ xs
map-id [] = refl
map-id (x ∷ xs) = ap (λ t. x ∷ t) (map-id xs)

pub total_or_null-total :
    (xs : List ℤ) → get_or (total_or_null xs) (pos 0) ≡ total (map (λ z. z) xs)
total_or_null-total [] = refl
total_or_null-total (x ∷ xs) = rw (map-id xs)

abbrev pub ten_thousandths-IsExact : IsExact
ten_thousandths-IsExact = record {
  units = λ d. d;
  capacity = 10 ^ 20;
  units_nought = refl;
  units_add = λ a b h. refl;
  units_sub = λ a b h. refl;
  lt_units = λ a b. refl;
  lte_units = λ a b. refl;
  gt_units = λ a b. refl;
  gte_units = λ a b. refl;
  units_least = λ a b. refl;
  units_greatest = λ a b. refl;
  num_gte_lt = λ a b. refl;
  units_increment = λ a b p q h. refl;
  units_decrement = λ a b p q h. refl;
  store_increment = λ a b. refl;
  store_decrement = λ a b. refl;
  units_sum = total_or_null-total;
}
