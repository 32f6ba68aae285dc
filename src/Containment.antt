-- ===== src/Containment.antt =====
-- services/executors/src/failure-containment: the circuit breaker, the kill switch and the gate in
-- front of an execution. The children hold one part each.
pub mod Time
pub mod Circuit
pub mod KillSwitch
pub mod Gate
mod Tests
