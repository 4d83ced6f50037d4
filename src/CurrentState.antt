-- ===== src/CurrentState.antt =====
-- memory_lab/current_state: which content is the current one for a named state.
pub mod Tables
pub mod Resolver
pub mod Single
pub mod View
pub mod Updates
pub mod Refines
pub mod Effects
