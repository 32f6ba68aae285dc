-- ===== src/WorkerPool.antt =====
-- BoundedAgentWorkerPool (services/agent-runtime/src/runtime/pool.ts). An operation that waits for the
-- lease port is two functions: `begin_…` runs up to the `await`, and leaves a pending call that holds
-- the locals and the reference of its record; `resume_…` goes on with the port's answer, where `none`
-- stands for a port that throws. Other operations may run in between. The lease port is a parameter: its
-- answers are arguments.
pub mod Types
pub mod Store
pub mod Calls
pub mod Release
pub mod Acquire
pub mod Control
pub mod Perform
pub mod Capacity
pub mod Safety
pub mod ControlSafety
pub mod Tracking
pub mod Runs
mod Tests
