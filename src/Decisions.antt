-- ===== src/Decisions.antt =====
-- memory_lab/decisions: the table of decisions and the chains in which they supersede each other.
pub mod Store
pub mod Lineage
pub mod Chains
pub mod Links
pub mod Falls
pub mod Creation
