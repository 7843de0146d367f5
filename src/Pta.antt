-- ===== src/Pta.antt =====
-- src/memory/pta: the pointer-analysis engine behind the alias queries of the translation.
pub mod Intern
pub mod Context
pub mod Constraint
pub mod Loc
pub mod Solver
pub mod Interproc
pub mod Result
