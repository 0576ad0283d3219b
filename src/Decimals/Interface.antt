-- ===== src/Decimals/Interface.antt =====
-- The operations on amounts that the program calls, and the documented laws that theorems use.
use pine_backend.Base.{
  ℕ, ◌+◌, ◌<◌, ◌≡◌, Bool, not, Option, List, [], ◌∷◌, map, get_or, ℤ, pos, pos_part, neg_part, ◌+ℤ◌,
  ◌-ℤ◌, ltb_ℤ, if◌then◌else◌,
}

pub record Decimals : Type 1 where
  pub Decimal : Type 0
  pub Number : Type 0
  -- decimal.js: `plus`, `minus`, `times`, `div`, and the comparisons
  pub add : Decimal → Decimal → Decimal
  pub sub : Decimal → Decimal → Decimal
  pub mul : Decimal → Decimal → Decimal
  pub div : Decimal → Decimal → Decimal
  pub lt : Decimal → Decimal → Bool
  pub lte : Decimal → Decimal → Bool
  pub gt : Decimal → Decimal → Bool
  pub gte : Decimal → Decimal → Bool
  -- `Decimal.min` and `Decimal.max`
  pub least : Decimal → Decimal → Decimal
  pub greatest : Decimal → Decimal → Decimal
  -- `floor`
  pub floor : Decimal → Decimal
  -- `new Decimal(n)` and `d.toNumber()`
  pub of_number : Number → Decimal
  pub to_number : Decimal → Number
  -- the number written with digits `m` of which `k` stand behind the point
  pub literal : ℕ → ℕ → Number
  pub num_lt : Number → Number → Bool
  pub num_gte : Number → Number → Bool
  -- what a column holds after a write; `{ increment }` and `{ decrement }`; `SUM` over rows
  pub store : Decimal → Decimal
  pub increment : Decimal → Decimal → Decimal
  pub decrement : Decimal → Decimal → Decimal
  pub sum : List Decimal → Option Decimal

module _ ⦃D : Decimals⦄ where
  open D use {Decimal, Number, div, of_number, literal, sum}

  -- `new Decimal(n)` at a whole constant of the source
  abbrev pub whole : ℕ → Decimal
  whole n = of_number (literal n 0)

  abbrev pub nought : Decimal
  nought = whole 0

  -- `new Decimal(pct).div(100)`
  abbrev pub percent : Number → Decimal
  percent pct = div (of_number pct) (whole 100)

  -- `aggregate._sum.amount ?? new Decimal(0)`
  abbrev pub sum_or_zero : List Decimal → Decimal
  sum_or_zero xs = get_or (sum xs) nought

abbrev pub total : List ℤ → ℤ
total [] = pos 0
total (x ∷ xs) = x +ℤ total xs

-- A magnitude below a capacity.
abbrev pub Fits : ℕ → ℤ → Type 0
Fits capacity z = pos_part z + neg_part z < capacity

-- `units d` is the value of `d` as a whole number of the smallest fraction in use. Results below
-- the precision of the library are not rounded; comparisons are exact; a column of four places
-- keeps what already has four places; `SUM` over no rows is null, and is exact otherwise.
pub record IsExact ⦃D : Decimals⦄ : Type 1 where
  pub units : D.Decimal → ℤ
  pub capacity : ℕ
  pub units_nought : units nought ≡ pos 0
  pub units_add :
      (a b : D.Decimal)
      → Fits capacity (units a +ℤ units b)
      → units (D.add a b) ≡ units a +ℤ units b
  pub units_sub :
      (a b : D.Decimal)
      → Fits capacity (units a -ℤ units b)
      → units (D.sub a b) ≡ units a -ℤ units b
  pub lt_units : (a b : D.Decimal) → D.lt a b ≡ ltb_ℤ (units a) (units b)
  pub lte_units : (a b : D.Decimal) → D.lte a b ≡ not (ltb_ℤ (units b) (units a))
  pub gt_units : (a b : D.Decimal) → D.gt a b ≡ ltb_ℤ (units b) (units a)
  pub gte_units : (a b : D.Decimal) → D.gte a b ≡ not (ltb_ℤ (units a) (units b))
  pub units_least :
      (a b : D.Decimal)
      → units (D.least a b) ≡ (if ltb_ℤ (units b) (units a) then units b else units a)
  pub units_greatest :
      (a b : D.Decimal)
      → units (D.greatest a b) ≡ (if ltb_ℤ (units a) (units b) then units b else units a)
  pub num_gte_lt : (a b : D.Number) → D.num_gte a b ≡ not (D.num_lt a b)
  pub units_increment :
      (a b : D.Decimal)
      → D.store a ≡ a
      → D.store b ≡ b
      → Fits capacity (units a +ℤ units b)
      → units (D.increment a b) ≡ units a +ℤ units b
  pub units_decrement :
      (a b : D.Decimal)
      → D.store a ≡ a
      → D.store b ≡ b
      → Fits capacity (units a -ℤ units b)
      → units (D.decrement a b) ≡ units a -ℤ units b
  pub store_increment : (a b : D.Decimal) → D.store (D.increment a b) ≡ D.increment a b
  pub store_decrement : (a b : D.Decimal) → D.store (D.decrement a b) ≡ D.decrement a b
  pub units_sum : (xs : List D.Decimal) → units (sum_or_zero xs) ≡ total (map units xs)
