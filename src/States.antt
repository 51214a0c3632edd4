-- ===== src/States.antt =====
-- The durable state machines of src/domain-states.js, one child for each entity that has a status.
pub mod Machine
pub mod Run
pub mod GlobalRun
pub mod Task
pub mod Agent
pub mod Lease
pub mod Delivery
pub mod Dispatch
pub mod Derive
pub mod Semantics
pub mod Transitions
pub mod Outcomes
mod Tests
