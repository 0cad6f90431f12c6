-- ===== src/Ir/Operands/Walks.antt =====
-- The walks over instructions of src/ir/optimize.rs beside each other.
use mani_tc.Prelude.{ℕ, ◌≡◌, refl, sym, ap, Bool, true, false, List, [], ◌∷◌, map, if◌then◌else◌}
use mani_tc.Ir.Types.{Value, Instr, phi}
use mani_tc.Ir.Operands.{
  map_incoming, for_each_operand_mut, used_from_values, used_in_instruction, is_side_effecting,
  instr_dst_name,
}
use mani_tc.Ir.Semantics.{operands, is_phi, defines}
use mani_tc.Ir.Dead.Simulation.{used-operands}

-- What a rewriting walk must do to an instruction: the operands of every instruction are rewritten,
-- those of a phi only if asked; what it defines, whether it is kept, and its kind stay.
abbrev pub Rewrites : Bool → (Value → Value) → Instr → Instr → Type 0
Rewrites include f i j =
    (operands j ≡ (
      if is_phi i
      then (if include then map f (operands i) else operands i)
      else map f (operands i)))
    × (defines j ≡ defines i)
    × (instr_dst_name j ≡ instr_dst_name i)
    × (is_side_effecting j ≡ is_side_effecting i)
    × (is_phi j ≡ is_phi i)

incoming-map :
    (f : Value → Value) (ins : List (Value × ℕ))
    → map (λ i. i.0) (map_incoming true f ins) ≡ map f (map (λ i. i.0) ins)
unfolding map_incoming
incoming-map f [] = refl
incoming-map f ((v, from) ∷ ins) = ap (λ l. f v ∷ l) (incoming-map f ins)

rewrites :
    (include : Bool) (f : Value → Value) (i : Instr)
    → Rewrites include f i (for_each_operand_mut include f i)
unfolding for_each_operand_mut operands is_phi defines instr_dst_name is_side_effecting
rewrites true f (phi d ty ins) = (incoming-map f ins, refl, refl, refl, refl)
rewrites false f (phi d ty ins) = (unfold map_incoming in refl, refl, refl, refl, refl)
rewrites include f _ = (refl, refl, refl, refl, refl)

-- Rewriting the operands of an instruction rewrites all of them, those of a phi only where the pass
-- asks for it, and keeps what the instruction defines and whether it has side effects; the temps
-- that it then reads are those of the rewritten operands.
pub for_each_operand_mut-Rewrites :
    (include : Bool) (f : Value → Value) (i : Instr)
    → Rewrites include f i (for_each_operand_mut include f i)
      × (used_in_instruction (for_each_operand_mut include f i)
          ≡ used_from_values (operands (for_each_operand_mut include f i)))
for_each_operand_mut-Rewrites include f i =
    (rewrites include f i, sym (used-operands (for_each_operand_mut include f i)))
