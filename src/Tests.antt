-- ===== src/Tests.antt =====
-- Tests: concrete runs of the operations, at which the theorems apply.
mod Deques
mod PartialPaths
mod Cycles
mod Stitching
mod Edges
mod Names
mod Stats
