-- ===== src/Chunking.antt =====
-- memory_lab/ingestion/chunking.py: the deterministic chunker. The configuration and the records
-- stand here; the boundaries, the choice of an end and the loop in the children.
pub mod Config
pub mod Boundaries
pub mod Choice
pub mod Identity
pub mod Loop
pub mod Positions
