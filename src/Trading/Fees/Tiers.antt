-- ===== src/Trading/Fees/Tiers.antt =====
-- Which tier of a commission schedule applies: ranges are half open, so the tiers of a schedule
-- without gaps cover every amount, and an amount on a boundary belongs to the upper tier.
use pine_backend.Base.{
  ◌≡◌, true, none, some, List, [], ◌∷◌, find?, Bool-cases, inl, inr, find?-test, if◌then◌else◌,
}
use pine_backend.Decimals.{Decimals, IsExact}
use pine_backend.Trading.Fees.{CommissionTier, in_tier, tier_for}

module _ ⦃D : Decimals⦄ (E : IsExact) where
  open D use {Decimal, Number, num_lt, num_gte}
  open E use {num_gte_lt}

  -- Each tier ends where the next begins, and the last has no end.
  abbrev pub IsContiguous : Number → List CommissionTier → Type 0
  IsContiguous start [] = ⊥
  IsContiguous start (t ∷ []) = (t.min_amount ≡ start) × (t.max_amount ≡ none)
  IsContiguous start (t ∷ u ∷ ts) =
      (t.min_amount ≡ start)
      × (t.max_amount ≡ some u.min_amount)
      × IsContiguous u.min_amount (u ∷ ts)

  contiguous_found :
      (gross start : Number) (tiers : List CommissionTier)
      → IsContiguous start tiers
      → num_gte gross start ≡ true
      → (t : CommissionTier) × (find? (in_tier gross) tiers ≡ some t)
  contiguous_found gross start [] c h = elim c [ ]
  contiguous_found gross start (t ∷ []) c h = (t, rw (c.0, c.1, h))
  contiguous_found gross start (t ∷ u ∷ ts) c h = elim (Bool-cases (num_lt gross u.min_amount)) [
    | inl below ↦ (t, rw (c.0, c.1, h, below))
    | inr above ↦
        let (v, e) = contiguous_found gross u.min_amount (u ∷ ts) c.2 (rw (num_gte_lt, above)) in
        (v, rw (c.0, c.1, h, above) e)
  ]

  tier_for_found :
      (gross : Number) (tiers : List CommissionTier) (t : CommissionTier)
      → find? (in_tier gross) tiers ≡ some t
      → tier_for gross tiers ≡ t
  tier_for_found gross tiers t e = rw e

  -- A schedule without gaps has a tier for every amount from its start on: the one applied contains
  -- the amount, so the fallback to the last tier is not taken.
  pub tier_for-covers :
      (gross start : Number) (tiers : List CommissionTier)
      → IsContiguous start tiers
      → num_gte gross start ≡ true
      → in_tier gross (tier_for gross tiers) ≡ true
  tier_for-covers gross start tiers c h =
      let (t, e) = contiguous_found gross start tiers c h in
      rw (tier_for_found gross tiers t e) (find?-test (in_tier gross) tiers t e)

  -- Of two adjoining tiers, an amount that is not below the boundary, the boundary itself included,
  -- takes the upper one, and any smaller amount from the start on the lower one.
  pub tier_for_boundary :
      (gross start : Number) (t u : CommissionTier)
      → IsContiguous start (t ∷ u ∷ [])
      → num_gte gross start ≡ true
      → tier_for gross (t ∷ u ∷ []) ≡ (if num_gte gross u.min_amount then u else t)
  tier_for_boundary gross start t u c h = elim (Bool-cases (num_lt gross u.min_amount)) [
    | inl below ↦ rw (num_gte_lt gross u.min_amount, c.0, c.1, h, below)
    | inr above ↦ rw (c.0, c.1, h) (rw (num_gte_lt, above) (rw c.2.1))
  ]
