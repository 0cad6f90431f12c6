-- ===== src/Isa/Opcode/Table.antt =====
-- The two directions of the opcode table of src/codegen_t3/isa.rs.
use mani_tc.Prelude.{◌<◌, ◌≡◌, refl, ap, ◌∙◌, ◌↔◌, some, arith}
use mani_tc.Prelude.Int.{ℤ, pos}
use mani_tc.Isa.Opcode.{Opcode, nop, code, from_i64, t3_opcode_count}

pub from_i64-code : (op : Opcode) → from_i64 (pos (code op)) ≡ some op
unfolding from_i64 code
from_i64-code nop = refl
from_i64-code _ = refl

pub code-lt : (op : Opcode) → code op < t3_opcode_count
unfolding code
code-lt nop = omega arith
code-lt _ = omega arith

code_of_from_i64 : (v : ℤ) (op : Opcode) → from_i64 v ≡ some op → v ≡ pos (code op)
unfolding from_i64 code
code_of_from_i64 v op h = ground arith

-- A number is decoded to an opcode exactly when it is the number of that opcode, and the number of
-- an opcode is below the count of opcodes.
pub from_i64-eq-some_iff :
    (v : ℤ) (op : Opcode)
    → ((from_i64 v ≡ some op) ↔ (v ≡ pos (code op))) × (code op < t3_opcode_count)
from_i64-eq-some_iff v op =
    ((code_of_from_i64 v op, λ e. ap from_i64 e ∙ from_i64-code op), code-lt op)

pub code-injective : (op op' : Opcode) → pos (code op) ≡ pos (code op') → op ≡ op'
code-injective op op' e = cc (from_i64-code op, from_i64-code op', ap from_i64 e)
