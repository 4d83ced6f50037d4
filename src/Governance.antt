-- ===== src/Governance.antt =====
-- memory_lab/governance: the data-only states and events, the tier transitions, the routing of
-- tiers and the circuit breaker.
pub mod State
pub mod Transition
pub mod CircuitBreaker
pub mod Workspace
pub mod StateEvents
pub mod TierRoutingPlan
pub mod Events
