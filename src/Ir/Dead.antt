-- ===== src/Ir/Dead.antt =====
-- Dead code elimination of src/ir/optimize.rs.
use mani_tc.Prelude.{
  ℕ, zero, suc, ◌+◌, Bool, true, false, not, ◌||◌, Option, none, some, List, [], ◌∷◌, ◌++◌, map,
  if◌then◌else◌, ◌==◌, length,
}
use mani_tc.Ir.Types.{Instr, Block, Function, with_instrs, with_blocks}
use mani_tc.Ir.Operands.{used_in_instruction, used_in_terminator, is_side_effecting, instr_dst_name}
pub mod Simulation
pub mod Rounds
pub mod Loop

unfoldable pub contains : ℕ → List ℕ → Bool
contains t [] = false
contains t (x ∷ xs) = (x == t) || contains t xs

unfoldable pub used_in_instrs : List Instr → List ℕ
used_in_instrs [] = []
used_in_instrs (i ∷ is) = used_in_instruction i ++ used_in_instrs is

unfoldable pub used_in_blocks : List Block → List ℕ
used_in_blocks [] = []
used_in_blocks (b ∷ bs) =
    (used_in_instrs b.instrs ++ used_in_terminator b.term) ++ used_in_blocks bs

unfoldable pub collect_used_temps : Function → List ℕ
collect_used_temps f = used_in_blocks f.blocks

unfoldable pub defines_used : List ℕ → Option ℕ → Bool
defines_used used none = true
defines_used used (some d) = contains d used

-- What the closure passed to `retain` answers.
unfoldable pub is_retained : List ℕ → Instr → Bool
is_retained used i = is_side_effecting i || defines_used used (instr_dst_name i)

unfoldable pub retain : List ℕ → List Instr → List Instr
retain used [] = []
retain used (i ∷ is) = let rest = retain used is in if is_retained used i then i ∷ rest else rest

-- Whether the closure sets `changed`.
unfoldable pub removes_any : List ℕ → List Instr → Bool
removes_any used [] = false
removes_any used (i ∷ is) = not (is_retained used i) || removes_any used is

unfoldable pub changed : List ℕ → List Block → Bool
changed used [] = false
changed used (b ∷ bs) = removes_any used b.instrs || changed used bs

abbrev pub sweep_blocks : List ℕ → List Block → List Block
sweep_blocks used = map (with_instrs (retain used))

-- One round of the loop.
unfoldable pub sweep : Function → Function
sweep f = with_blocks (sweep_blocks (collect_used_temps f)) f

-- The loop on fuel: none where the fuel is used up.
unfoldable pub dead_code_eliminate : ℕ → Function → Option Function
dead_code_eliminate zero f = none
dead_code_eliminate (suc n) f =
    let again = dead_code_eliminate n (sweep f) in
    if changed (collect_used_temps f) f.blocks then again else some (sweep f)
