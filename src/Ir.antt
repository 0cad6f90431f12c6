-- ===== src/Ir.antt =====
-- src/ir: the intermediate representation and its passes.
mod Tests
pub mod Types
pub mod BinOp
pub mod LaneOp
pub mod Ty
pub mod Operands
pub mod Fold
pub mod Semantics
pub mod Dead
pub mod Reach
pub mod Strength
pub mod Merge
pub mod TritIdentities
pub mod Propagate
