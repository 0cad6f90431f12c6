-- ===== src/Ir/Semantics.antt =====
-- What a program of src/ir/types.rs does, for any meaning of its instructions: the reference that
-- the passes are compared with.
use mani_tc.Prelude.{
  ℕ, zero, suc, Bool, true, false, Option, none, some, List, [], ◌∷◌, map, if◌then◌else◌, ◌==◌, ◌≡◌,
}
use mani_tc.Prelude.Int.{ℤ, pos, negsuc}
use mani_tc.Prelude.Maps.{update}
use mani_tc.Ir.Types.{
  Value, temp, Instr, bin_op, un_op, assign, alloca, store, load, call, call_indirect, get_ptr,
  bounds_check, trit_min, trit_max, trit_neg, trit_sign, trit_lane, print_str, print_int,
  print_float, print_bool3, print_trit, phi, cast, Terminator, return, jump, bin_branch,
  trit_branch, unreachable, Block,
}
use mani_tc.Ir.Operands.{is_side_effecting, instr_dst_name}

-- The meaning of one instruction, on the values of its operands, in a world V of values and W of
-- everything else: what it does to the world, none where it traps, and the value that it defines.
-- `result` also has the label of the block that control came from, which a phi reads.
pub record Meaning (V : Type 0) (W : Type 0) : Type 0 where
  pub fixed : Value → V
  pub effect : Instr → List V → W → Option W
  pub result : Instr → ℕ → List V → W → V
  pub is_true : V → Bool
  pub sign : V → ℤ

pub data Outcome (V : Type 0) (W : Type 0) : Type 0 where
  returned : Option V → W → Outcome V W
  trapped reached_unreachable missing_block out_of_fuel : Outcome V W

unfoldable pub operands : Instr → List Value
operands (bin_op d op l r ty) = l ∷ r ∷ []
operands (un_op d op a ty) = a ∷ []
operands (assign d s ty) = s ∷ []
operands (alloca d ty) = []
operands (store p v ty) = p ∷ v ∷ []
operands (load d p ty) = p ∷ []
operands (call d fn args ty) = args
operands (call_indirect d p args ty) = p ∷ args
operands (get_ptr d p i ty) = p ∷ i ∷ []
operands (bounds_check i n) = i ∷ []
operands (trit_min d a b) = a ∷ b ∷ []
operands (trit_max d a b) = a ∷ b ∷ []
operands (trit_neg d a) = a ∷ []
operands (trit_sign d a) = a ∷ []
operands (trit_lane d op a b) = a ∷ b ∷ []
operands (print_str v) = v ∷ []
operands (print_int v) = v ∷ []
operands (print_float v) = v ∷ []
operands (print_bool3 v) = v ∷ []
operands (print_trit v) = v ∷ []
operands (phi d ty ins) = map (λ i. i.0) ins
operands (cast d s from to) = s ∷ []

-- The temp that an instruction defines; a call may define one.
unfoldable pub defines : Instr → Option ℕ
defines (call d fn args ty) = d
defines (call_indirect d p args ty) = d
defines i = instr_dst_name i

unfoldable pub is_phi : Instr → Bool
is_phi (phi d ty ins) = true
is_phi i = false

-- The label that a three-way branch takes for a value of the sign s.
abbrev pub pick_arm : ℤ → ℕ → ℕ → ℕ → ℕ
pick_arm (pos zero) p z n = z
pick_arm (pos (suc k)) p z n = p
pick_arm (negsuc k) p z n = n

abbrev pub bind {ℓ κ} : {A : Type ℓ} {B : Type κ} → Option A → (A → Option B) → Option B
bind none k = none
bind (some a) k = k a

module _ {V W : Type 0} (m : Meaning V W) where
  unfoldable pub value : (ℕ → V) → Value → V
  value ρ (temp t) = ρ t
  value ρ v = m.fixed v

  abbrev pub define : Option ℕ → V → (ℕ → V) → ℕ → V
  define none v ρ = ρ
  define (some t) v ρ = update ρ t v

  -- The phis of a block read the temps as they were when the block was entered.
  unfoldable pub run_instrs : ℕ → (ℕ → V) → List Instr → (ℕ → V) → W → Option ((ℕ → V) × W)
  run_instrs from entry [] ρ w = some (ρ, w)
  run_instrs from entry (i ∷ is) ρ w =
      let vs = map (value (if is_phi i then entry else ρ)) (operands i) in
      bind (m.effect i vs w)
        λ w'. run_instrs from entry is (define (defines i) (m.result i from vs w) ρ) w'

  unfoldable pub find_block : ℕ → List Block → Option Block
  find_block l [] = none
  find_block l (b ∷ bs) = if b.label == l then some b else find_block l bs

  unfoldable pub leave :
      (ℕ → ℕ → (ℕ → V) → W → Outcome V W) → ℕ → Terminator → Option ((ℕ → V) × W) → Outcome V W
  leave next from term none = trapped
  leave next from (return none) (some (ρ, w)) = returned none w
  leave next from (return (some v)) (some (ρ, w)) = returned (some (value ρ v)) w
  leave next from (jump l) (some (ρ, w)) = next from l ρ w
  leave next from (bin_branch c t e) (some (ρ, w)) =
      next from (if m.is_true (value ρ c) then t else e) ρ w
  leave next from (trit_branch c p z n) (some (ρ, w)) =
      next from (pick_arm (m.sign (value ρ c)) p z n) ρ w
  leave next from unreachable (some (ρ, w)) = reached_unreachable

  unfoldable pub in_block :
      (ℕ → ℕ → (ℕ → V) → W → Outcome V W) → ℕ → Option Block → (ℕ → V) → W → Outcome V W
  in_block next from none ρ w = missing_block
  in_block next from (some b) ρ w = leave next b.label b.term (run_instrs from ρ b.instrs ρ w)

  -- At most n blocks from the one labelled l, which control reaches from the block `from`.
  unfoldable pub run : ℕ → List Block → ℕ → ℕ → (ℕ → V) → W → Outcome V W
  run zero bs from l ρ w = out_of_fuel
  run (suc n) bs from l ρ w = in_block (run n bs) from (find_block l bs) ρ w

  unfoldable pub run_blocks : ℕ → List Block → (ℕ → V) → W → Outcome V W
  run_blocks n [] ρ w = missing_block
  run_blocks n (b ∷ bs) ρ w = run n (b ∷ bs) b.label b.label ρ w

module _ {V W : Type 0} where
  -- An instruction that has no side effects leaves the world as it is, where it does not trap.
  abbrev pub IsPure : Meaning V W → Type 0
  IsPure m =
      (i : Instr) (vs : List V) (w w' : W)
      → is_side_effecting i ≡ false
      → m.effect i vs w ≡ some w'
      → w' ≡ w
