-- ===== src/Memory.antt =====
-- src/memory: alias kinds and the alias queries that the Petri-net translation asks.
pub mod PointsTo
pub mod Alias
