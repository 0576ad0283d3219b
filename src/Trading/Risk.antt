-- ===== src/Trading/Risk.antt =====
-- The platform's abuse guards, src/modules/trading/services/risk.service.ts, over `findUserOrders` of
-- src/modules/trading/repositories/trading.repository.ts, newest first. Rows stand in the order of
-- their creation. Times are in milliseconds; `midnight` is the start of the day.
use pine_backend.Base.{
  ℕ, ◌+◌, ◌*◌, Bool, not, ◌&&◌, List, [], ◌∷◌, ◌++◌, ◌==◌, leb, length, filter, take, Tx, gets,
  throw_if, ◌>>=◌, ◌>>◌,
}
use pine_backend.Decimals.{Decimals, whole, nought}
use pine_backend.Store.Errors.{Error, single_order_limit, daily_limit, velocity_limit}
use pine_backend.Store.Rows.{Db, Order}
use pine_backend.Trading.Lifecycle.{OrderLifecycleStatus, cancelled, rejected, expired, has}

abbrev pub newest_first {ℓ} : {A : Type ℓ} → List A → List A
newest_first [] = []
newest_first (x ∷ xs) = newest_first xs ++ (x ∷ [])

abbrev pub dead_states : List OrderLifecycleStatus
dead_states = cancelled ∷ rejected ∷ expired ∷ []

module _ ⦃D : Decimals⦄ where
  open D use {Decimal, add, gt}

  -- `findUserOrders` with a limit and no other filter
  abbrev pub find_user_orders : ℕ → ℕ → Db → List Order
  find_user_orders user_id limit db =
      take limit (newest_first (filter (λ (o : Order). o.user_id == user_id) db.orders))

  abbrev pub is_today : ℕ → Order → Bool
  is_today midnight o = leb midnight o.created_at && not (has dead_states o.status)

  -- `reduce` over the costs
  abbrev pub volume : Decimal → List Order → Decimal
  volume acc [] = acc
  volume acc (o ∷ os) = volume (add acc o.total_cost) os

  abbrev pub today_volume : ℕ → ℕ → Db → Decimal
  today_volume user_id midnight db =
      volume nought (filter (is_today midnight) (find_user_orders user_id 100 db))

  abbrev pub is_recent : ℕ → Order → Bool
  is_recent now o = leb now (o.created_at + 60 * 60 * 1_000)

  abbrev pub recent_orders : ℕ → ℕ → Db → List Order
  recent_orders user_id now db = filter (is_recent now) (find_user_orders user_id 21 db)

  -- `check`
  unfoldable pub check_risk : ℕ → ℕ → ℕ → Decimal → Tx Error Db (Unit {0})
  check_risk midnight now user_id gross_value = do
    throw_if (gt gross_value (whole 5_000_000)) single_order_limit
    total ← gets (today_volume user_id midnight)
    throw_if (gt (add total gross_value) (whole 10_000_000)) daily_limit
    recent ← gets (recent_orders user_id now)
    throw_if (leb 20 (length recent)) velocity_limit
