-- ===== src/Intelligence.antt =====
-- packages/intelligence/src: how sure a result is, and how much reasoning a task may use. Of the tenant
-- and the correlation the ids are kept; the fields that are constants of their type are left out.
pub mod Confidence
pub mod Disposition
pub mod Reasoning
pub mod Levels
mod Tests
