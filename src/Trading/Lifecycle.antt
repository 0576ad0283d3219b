-- ===== src/Trading/Lifecycle.antt =====
-- The order state machine, src/modules/trading/domain/order-lifecycle.ts.
pub mod Graph
use pine_backend.Base.{
  ℕ, ◌≡◌, Bool, true, false, ◌||◌, List, [], ◌∷◌, ◌==◌, if◌then◌else◌, Result, ok, err,
}

pub data OrderLifecycleStatus : Type 0 where
  draft pending_validation validated submitted accepted partially_filled filled :
      OrderLifecycleStatus
  pending_settlement settled completed rejected cancelled expired : OrderLifecycleStatus

-- The place of a status in the enumeration, by which two statuses are compared.
abbrev pub ordinal : OrderLifecycleStatus → ℕ
ordinal draft = 0
ordinal pending_validation = 1
ordinal validated = 2
ordinal submitted = 3
ordinal accepted = 4
ordinal partially_filled = 5
ordinal filled = 6
ordinal pending_settlement = 7
ordinal settled = 8
ordinal completed = 9
ordinal rejected = 10
ordinal cancelled = 11
ordinal expired = 12

-- `===` on statuses
abbrev pub same_status : OrderLifecycleStatus → OrderLifecycleStatus → Bool
same_status s t = ordinal s == ordinal t

-- `Set.has`
abbrev pub has : List OrderLifecycleStatus → OrderLifecycleStatus → Bool
has [] t = false
has (s ∷ ss) t = same_status s t || has ss t

unfoldable pub transitions : OrderLifecycleStatus → List OrderLifecycleStatus
transitions draft = pending_validation ∷ cancelled ∷ []
transitions pending_validation = validated ∷ rejected ∷ cancelled ∷ []
transitions validated = submitted ∷ rejected ∷ cancelled ∷ []
transitions submitted = accepted ∷ rejected ∷ cancelled ∷ expired ∷ []
transitions accepted = partially_filled ∷ filled ∷ cancelled ∷ expired ∷ []
transitions partially_filled = partially_filled ∷ filled ∷ cancelled ∷ []
transitions filled = pending_settlement ∷ []
transitions pending_settlement = settled ∷ []
transitions settled = completed ∷ []
transitions completed = []
transitions rejected = []
transitions cancelled = []
transitions expired = []

abbrev pub cancellable_states : List OrderLifecycleStatus
cancellable_states = draft ∷ pending_validation ∷ validated ∷ submitted ∷ []

abbrev pub terminal_states : List OrderLifecycleStatus
terminal_states = completed ∷ rejected ∷ cancelled ∷ expired ∷ []

abbrev pub active_states : List OrderLifecycleStatus
active_states =
    draft ∷ pending_validation ∷ validated ∷ submitted ∷ accepted ∷ partially_filled ∷ []

unfoldable pub can_transition : OrderLifecycleStatus → OrderLifecycleStatus → Bool
unfolding transitions
can_transition from to = has (transitions from) to

-- The error that `assertTransition` throws names the two states.
pub record InvalidTransition : Type 0 where
  pub from : OrderLifecycleStatus
  pub to : OrderLifecycleStatus

unfoldable pub assert_transition :
    OrderLifecycleStatus → OrderLifecycleStatus → Result InvalidTransition (Unit {0})
unfolding can_transition
assert_transition from to =
    if can_transition from to then ok tt else err (record { from = from; to = to })
