-- ===== src/GoalGraph.antt =====
-- packages/control/src/goal-graph: a graph of goals and tasks whose edges are dependencies.
pub mod Types
pub mod Assess
pub mod Create
mod Counting
mod Adjacency
mod Order
pub mod Created
mod Exhaustion
pub mod Acyclic
pub mod Listing
pub mod Readiness
mod Tests
