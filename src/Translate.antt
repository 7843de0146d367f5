-- ===== src/Translate.antt =====
-- src/translate: the registries of the translation, the bodies of functions, the construction of the
-- net around them, and the back edges of a body.
pub mod Primitives
pub mod Mir
pub mod Net
pub mod Body
pub mod Groups
pub mod BackEdges
pub mod Construct
pub mod Registry
pub mod UnsafeOps
