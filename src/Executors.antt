-- ===== src/Executors.antt =====
-- services/executors/src: what happens when it is not known whether an execution took effect, the
-- safeguards that an attempt needs, and the resolution of its target. The platform's `Date.parse`, the
-- evaluator of preconditions and the idempotency fence are parameters.
pub mod Intent
pub mod Times
pub mod Safeguards
pub mod Ambiguity
pub mod Reconciliation
pub mod Target
pub mod Resolution
pub mod Uncertainty
pub mod Settled
pub mod Retry
pub mod Accepted
pub mod Guards
mod Tests
