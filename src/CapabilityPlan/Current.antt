-- ===== src/CapabilityPlan/Current.antt =====
-- What the single checks of a binding find (packages/control/src/capability-plan/planner.ts and
-- packages/registries/src/capabilities/registry.ts).
use mathlib.Core.List.{Memᴰ}
use aurora_ai_native.Prelude.{
  ℕ, ◌+◌, ◌≤◌, String, ◌≡◌, refl, ap, ◌⊎◌, inl, inr, Bool, true, false, Option, none, some, List,
  arith, eq_iff, ◌==◌, Bool-cases, or_else, ltb, mem-any, DateParse,
}
use aurora_ai_native.CapabilityPlan.Types.{
  CapabilityTargetKind, CapabilityAvailabilityState, available, degraded, unavailable, unknown,
  CapabilityAvailabilityObservation,
}
use aurora_ai_native.CapabilityPlan.{
  same_kind, availability_of, observed_since, key_wanted, tenant_allows, kind_accepted,
  current_enough, evaluate_capability_availability,
}

pub tenant_allowed :
    (owner : Option String) (tenant : String)
    → tenant_allows owner tenant ≡ true
    → (owner ≡ none) ⊎ (owner ≡ some tenant)
tenant_allowed none tenant h = inl refl
tenant_allowed (some owner) tenant h = inr (ap (λ t. some t) ((eq_iff owner tenant).0 h))

-- An observation is current enough at a moment: its time is one that the platform reads, it is not older
-- than it may be, and what it saw is available, or degraded where that is allowed.
pub record IsCurrent (date_parse : DateParse) (o : CapabilityAvailabilityObservation) (now : ℕ)
    (allow_degraded : Option Bool) : Type 0 where
  pub observed_at : ℕ
  pub read : date_parse o.observed_at ≡ some observed_at
  pub recent : now ≤ observed_at + o.max_age_ms
  pub usable : (o.state ≡ available) ⊎ ((o.state ≡ degraded) × (allow_degraded ≡ some true))

-- No list asks for anything; one that is there has the value.
abbrev pub IsAccepted {ℓ} : {A : Type ℓ} → Option (List A) → A → Type ℓ
IsAccepted none x = Unit
IsAccepted (some xs) x = Memᴰ x xs

state-usable :
    (state : CapabilityAvailabilityState) (allow_degraded : Option Bool)
    → current_enough (availability_of state) (or_else allow_degraded false) ≡ true
    → (state ≡ available) ⊎ ((state ≡ degraded) × (allow_degraded ≡ some true))
state-usable available allow h = inl refl
state-usable degraded none h = ground arith
state-usable degraded (some allowed) h = inr (refl, ap (λ b. some b) h)
state-usable unavailable allow h = ground arith
state-usable unknown allow h = ground arith

pub availability-IsCurrent :
    (date_parse : DateParse) (o : CapabilityAvailabilityObservation) (now : ℕ)
    (allow_degraded : Option Bool)
    → current_enough
        (evaluate_capability_availability date_parse o now)
        (or_else allow_degraded false)
      ≡ true
    → IsCurrent date_parse o now allow_degraded
unfolding evaluate_capability_availability
availability-IsCurrent date_parse o now allow h = go (date_parse o.observed_at) refl h
  where
    go :
        (at : Option ℕ)
        → date_parse o.observed_at ≡ at
        → current_enough (observed_since o now at) (or_else allow false) ≡ true
        → IsCurrent date_parse o now allow
    go none e h = ground arith
    go (some at) e h = elim (Bool-cases (ltb (at + o.max_age_ms) now)) [
      | inl old ↦ let e1 = rw (old, observed_since) at h in ground arith
      | inr young ↦ record {
        observed_at = at;
        read = e;
        recent = ground arith;
        usable = state-usable o.state allow (rw (young, observed_since) at h);
      }
    ]

kind-equal : (a b : CapabilityTargetKind) → same_kind a b ≡ true → a ≡ b
kind-equal a b h = ground arith

pub kind-IsAccepted :
    (accepted : Option (List CapabilityTargetKind)) (kind : CapabilityTargetKind)
    → kind_accepted accepted kind ≡ true
    → IsAccepted accepted kind
kind-IsAccepted none kind h = tt
kind-IsAccepted (some kinds) kind h =
    let (k, m, same) = mem-any (same_kind kind) kinds h in rw (kind-equal kind k same) m

pub key-IsAccepted :
    (wanted : Option (List String)) (key : String)
    → key_wanted wanted key ≡ true
    → IsAccepted wanted key
key-IsAccepted none key h = tt
key-IsAccepted (some keys) key h =
    let (k, m, same) = mem-any (λ k. k == key) keys h in rw⁻¹ ((eq_iff k key).0 same) m
