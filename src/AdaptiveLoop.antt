-- ===== src/AdaptiveLoop.antt =====
-- The bounded adaptive loop of an agent (services/agent-runtime/src/loop): its start from a route and a
-- control frame, and its advance by one event. Each advance reads a fresh frame, which holds the worker
-- of the pool, the capability plan and the budget.
pub mod Types
pub mod Frame
pub mod WellFormed
pub mod Advance
pub mod Phases
pub mod Steps
pub mod PhaseSteps
pub mod Progress
pub mod Runs
pub mod Safety
mod Tests
