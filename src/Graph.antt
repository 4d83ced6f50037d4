-- ===== src/Graph.antt =====
-- memory_lab/graph: the edges between terms, and the expansion of a query along them.
pub mod Store
pub mod Expansion
pub mod Layers
pub mod Within
