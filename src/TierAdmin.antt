-- ===== src/TierAdmin.antt =====
-- The operations of memory_lab that give content a tier after it was saved, over the tables they
-- share: the override and the rollback of api/routers/tier_override.py, the resolution of
-- api/routers/escalations.py, `persist_escalation` of conflicts/escalation.py and the clean-up of
-- api/routers/cleanup.py. A request that raises leaves the tables as they were, as its transaction is
-- not committed.
pub mod Tables
pub mod Override
pub mod Escalations
pub mod Resolution
pub mod Cleanup
pub mod Logged
pub mod Keeps
pub mod KeepsReviews
pub mod KeepsCleanup
pub mod History
pub mod Planning
pub mod Rollbacks
pub mod Undo
pub mod Reviews
pub mod Spares
pub mod Untouched
pub mod Settled
pub mod Final
