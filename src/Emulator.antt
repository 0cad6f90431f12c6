-- ===== src/Emulator.antt =====
-- src/codegen_t3/emulator/: the T3 machine, its instructions and its cooperative scheduler.
pub mod Channels
pub mod State
pub mod Switch
pub mod Sched
pub mod Execute
pub mod Control
pub mod Invariant
pub mod Exact
mod Tests
