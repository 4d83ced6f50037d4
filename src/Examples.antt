-- ===== src/Examples.antt =====
-- Concrete inputs at which the theorems apply, part by part.
mod Bodies
mod States
mod Breakers
mod Answers
mod Stores
mod Admin
mod Reviews
mod Anchors
mod Lineages
mod Terms
