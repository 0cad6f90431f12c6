-- ===== src/Isa.antt =====
-- src/codegen_t3/isa.rs: the T3ISA word, its lanes, its opcodes and its instruction encoding.
pub mod Word
pub mod Trits
pub mod Opcode
pub mod Lanes
pub mod Encoding
mod Tests
