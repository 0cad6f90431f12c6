-- ===== src/Reference.antt =====
-- src/reference/: the definitional interpreter of the core language.
pub mod Bin
pub mod Ops
pub mod Division
pub mod Lanes
pub mod Machine
pub mod Ty
pub mod Cast
pub mod Syntax
pub mod Comp
pub mod Env
pub mod Rules
pub mod Calls
pub mod Eval
pub mod Valid
pub mod Behaves
pub mod Scheduler
pub mod System
mod Tests
