-- ===== src/Lifecycle/Diagram.antt =====
-- The transition diagram of the lifecycle as a relation, and the table of state-machine.ts against it.
use aurora_ai_native.Prelude.{◌≡◌, refl, true, false, arith, any}
use aurora_ai_native.Lifecycle.{
  LifecycleState, draft, ready, active, blocked, succeeded, failed, cancelled, superseded,
  LifecycleState-discrete, is_state, allowed_transitions, is_terminal_lifecycle_state,
}

-- States that still have an edge out of them.
pub data IsLive : LifecycleState → Type 0 where
  draft_live : IsLive draft
  ready_live : IsLive ready
  active_live : IsLive active
  blocked_live : IsLive blocked

infix 40 ◌⟶◌
pub data ◌⟶◌ : LifecycleState → LifecycleState → Type 0 where
  prepare : draft ⟶ ready
  start : ready ⟶ active
  hold_ready : ready ⟶ blocked
  hold_active : active ⟶ blocked
  requeue : blocked ⟶ ready
  resume : blocked ⟶ active
  succeed : active ⟶ succeeded
  fail_active : active ⟶ failed
  fail_blocked : blocked ⟶ failed
  cancel : {s : LifecycleState} → IsLive s → s ⟶ cancelled
  supersede : {s : LifecycleState} → IsLive s → s ⟶ superseded

pub ruleset live = (draft_live, ready_live, active_live, blocked_live)

pub ruleset edges =
    (prepare, start, hold_ready, hold_active, requeue, resume, succeed, fail_active, fail_blocked)

pub allowed-⟶ : (s t : LifecycleState) → any (is_state t) (allowed_transitions s) ≡ true → s ⟶ t
unfolding LifecycleState-discrete
allowed-⟶ s t h = grind (arith, edges, live, cancel, supersede)

pub IsLive-not_terminal : {s : LifecycleState} → IsLive s → is_terminal_lifecycle_state s ≡ false
unfolding LifecycleState-discrete
IsLive-not_terminal draft_live = refl
IsLive-not_terminal ready_live = refl
IsLive-not_terminal active_live = refl
IsLive-not_terminal blocked_live = refl

pub ⟶-allowed :
    {s t : LifecycleState}
    → s ⟶ t
    → (any (is_state t) (allowed_transitions s) ≡ true) × (is_terminal_lifecycle_state s ≡ false)
unfolding LifecycleState-discrete
⟶-allowed prepare = (refl, refl)
⟶-allowed start = (refl, refl)
⟶-allowed hold_ready = (refl, refl)
⟶-allowed hold_active = (refl, refl)
⟶-allowed requeue = (refl, refl)
⟶-allowed resume = (refl, refl)
⟶-allowed succeed = (refl, refl)
⟶-allowed fail_active = (refl, refl)
⟶-allowed fail_blocked = (refl, refl)
⟶-allowed (cancel draft_live) = (refl, refl)
⟶-allowed (cancel ready_live) = (refl, refl)
⟶-allowed (cancel active_live) = (refl, refl)
⟶-allowed (cancel blocked_live) = (refl, refl)
⟶-allowed (supersede draft_live) = (refl, refl)
⟶-allowed (supersede ready_live) = (refl, refl)
⟶-allowed (supersede active_live) = (refl, refl)
⟶-allowed (supersede blocked_live) = (refl, refl)
