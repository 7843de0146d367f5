-- ===== src/Tests.antt =====
-- Concrete inputs, and the theorems applied to them.
mod Pointers
mod Detectors
mod Translation
mod Bodies
mod Graphs
