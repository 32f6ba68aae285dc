-- ===== src/Templates.antt =====
-- bindPlanTemplate (packages/control/src/templates/templates.ts): a curated template of a plan is bound to
-- a capability plan and to the registry that the plan was made from.
pub mod Types
pub mod Bind
pub mod Listed
pub mod Binding
mod Tests
