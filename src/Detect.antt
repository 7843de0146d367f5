-- ===== src/Detect.antt =====
-- src/detect: the detectors, each over the state graph that a third-party explorer built.
pub mod Graph
pub mod Atomicity
pub mod Datarace
pub mod Deadlock
