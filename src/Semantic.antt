-- ===== src/Semantic.antt =====
-- The part of src/semantic that the later phases ask: the types.
pub mod Types
pub mod Compatible
pub mod Scope
pub mod Syntax
pub mod ConstEval
pub mod ConstFold
mod Tests
