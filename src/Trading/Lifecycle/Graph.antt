-- ===== src/Trading/Lifecycle/Graph.antt =====
-- What can be reached along the transitions that the table allows: they move forward, and their end
-- points are the terminal states.
use pine_backend.Base.{
  ℕ, ◌<◌, ◌≡◌, refl, ◌≢◌, ◌↔◌, ◌⊎◌, inl, inr, Bool, true, false, not, ◌||◌, arith,
}
use pine_backend.Trading.Lifecycle.{
  OrderLifecycleStatus, draft, pending_validation, validated, submitted, accepted, partially_filled,
  filled, pending_settlement, settled, completed, rejected, cancelled, expired, has, can_transition,
  terminal_states, active_states,
}

-- Paths of allowed transitions: every step is one that `canTransition` accepts.
infix 40 ◌⟶*◌
pub data ◌⟶*◌ : OrderLifecycleStatus → OrderLifecycleStatus → Type 0 where
  here : {s : OrderLifecycleStatus} → s ⟶* s
  next_status :
      {u : OrderLifecycleStatus} (s t : OrderLifecycleStatus)
      → can_transition s t ≡ true
      → t ⟶* u
      → s ⟶* u

-- How far an order has come. Every way out stands behind every state on the way.
abbrev pub progress : OrderLifecycleStatus → ℕ
progress draft = 0
progress pending_validation = 1
progress validated = 2
progress submitted = 3
progress accepted = 4
progress partially_filled = 5
progress filled = 6
progress pending_settlement = 7
progress settled = 8
progress _ = 9

-- An allowed transition moves the order forward, but for a further partial fill.
pub can_transition-progress :
    (s t : OrderLifecycleStatus)
    → can_transition s t ≡ true
    → ((s ≡ partially_filled) × (t ≡ partially_filled)) ⊎ (progress s < progress t)
unfolding can_transition
can_transition-progress s t h = ground arith

-- A state is listed as terminal exactly when no transition leaves it.
pub terminal_iff :
    (s : OrderLifecycleStatus)
    → (has terminal_states s ≡ true) ↔ ((t : OrderLifecycleStatus) → can_transition s t ≡ false)
unfolding can_transition
terminal_iff draft = (λ h t. cc, λ h. cc (h cancelled))
terminal_iff pending_validation = (λ h t. cc, λ h. cc (h cancelled))
terminal_iff validated = (λ h t. cc, λ h. cc (h cancelled))
terminal_iff submitted = (λ h t. cc, λ h. cc (h cancelled))
terminal_iff accepted = (λ h t. cc, λ h. cc (h cancelled))
terminal_iff partially_filled = (λ h t. cc, λ h. cc (h cancelled))
terminal_iff filled = (λ h t. cc, λ h. cc (h pending_settlement))
terminal_iff pending_settlement = (λ h t. cc, λ h. cc (h settled))
terminal_iff settled = (λ h t. cc, λ h. cc (h completed))
terminal_iff _ = (λ h t. refl, λ h. refl)

-- Filled, or further on the way to completion.
abbrev pub has_filled : OrderLifecycleStatus → Bool
has_filled filled = true
has_filled pending_settlement = true
has_filled settled = true
has_filled completed = true
has_filled _ = false

has_filled-⟶ :
    (s t : OrderLifecycleStatus)
    → can_transition s t ≡ true
    → has_filled s ≡ true
    → has_filled t ≡ true
unfolding can_transition
has_filled-⟶ s t h k = ground arith

-- No path of allowed transitions takes an order that is filled, or further on the way to completion,
-- to a rejected, cancelled or expired one, nor back before its fill.
pub has_filled-⟶* :
    {s t : OrderLifecycleStatus} → s ⟶* t → has_filled s ≡ true → has_filled t ≡ true
has_filled-⟶* here h = h
has_filled-⟶* (next_status s t allowed p) h = has_filled-⟶* p (has_filled-⟶ s t allowed h)

settled_completes : settled ⟶* completed
unfolding can_transition
settled_completes = next_status settled completed refl here

pending_completes : pending_settlement ⟶* completed
unfolding can_transition
pending_completes = next_status pending_settlement settled refl settled_completes

filled_completes : filled ⟶* completed
unfolding can_transition
filled_completes = next_status filled pending_settlement refl pending_completes

accepted_completes : accepted ⟶* completed
unfolding can_transition
accepted_completes = next_status accepted filled refl filled_completes

submitted_completes : submitted ⟶* completed
unfolding can_transition
submitted_completes = next_status submitted accepted refl accepted_completes

validated_completes : validated ⟶* completed
unfolding can_transition
validated_completes = next_status validated submitted refl submitted_completes

passing_completes : pending_validation ⟶* completed
unfolding can_transition
passing_completes = next_status pending_validation validated refl validated_completes

-- From every state a path of transitions that `canTransition` accepts leads to completion, unless the
-- state is a terminal one other than `completed`.
pub reaches_completed :
    (s : OrderLifecycleStatus)
    → (s ⟶* completed) ⊎ ((has terminal_states s ≡ true) × (s ≢ completed))
unfolding can_transition
reaches_completed completed = inl here
reaches_completed settled = inl settled_completes
reaches_completed pending_settlement = inl pending_completes
reaches_completed filled = inl filled_completes
reaches_completed partially_filled = inl (next_status partially_filled filled refl filled_completes)
reaches_completed accepted = inl accepted_completes
reaches_completed submitted = inl submitted_completes
reaches_completed validated = inl validated_completes
reaches_completed pending_validation = inl passing_completes
reaches_completed draft = inl (next_status draft pending_validation refl passing_completes)
reaches_completed rejected = inr (refl, λ e. cc)
reaches_completed cancelled = inr (refl, λ e. cc)
reaches_completed expired = inr (refl, λ e. cc)

-- The active states are those that are neither filled nor terminal.
pub states_partition :
    (s : OrderLifecycleStatus) → has active_states s ≡ not (has_filled s || has terminal_states s)
states_partition s = ground arith
