-- ===== src/Ir/Propagate/Runs.antt =====
-- Runs before and after constants are propagated, as src/ir/optimize.rs does it.
use mani_tc.Prelude.{
  ℕ, zero, suc, ◌≡◌, refl, sym, ap, ◌∙◌, false, Bool-cases, Option, none, some, Option-cases, List,
  [], ◌∷◌, map, if◌then◌else◌, ◌==◌, ==_iff, All, inl, inr,
}
use mani_tc.Prelude.Maps.{update, lookup}
use mani_tc.Ir.Types.{
  Const, Value, temp, constant, global, void, Instr, assign, Terminator, return, jump, bin_branch,
  trit_branch, unreachable, Block,
}
use mani_tc.Ir.Ty.{Ty}
use mani_tc.Ir.Operands.{for_each_operand_mut, for_each_term_operand_mut}
use mani_tc.Ir.Operands.Walks.{for_each_operand_mut-Rewrites}
use mani_tc.Ir.Semantics.{
  Meaning, Outcome, operands, defines, is_phi, bind, value, define, run_instrs, find_block, leave,
  in_block, run, run_blocks,
}
use mani_tc.Ir.Propagate.{
  propagate_value, propagate_in_instruction, propagate_in_terminator, propagate_in_block,
}

module _ {V W : Type 0} (m : Meaning V W) where
  -- The meaning of an instruction is a function of the values of its operands, and an assignment
  -- gives the value of its operand.
  abbrev pub IsValueBased : Type 0
  IsValueBased =
      ((f : Value → Value) (i : Instr) (from : ℕ) (vs : List V) (w : W)
        → (m.effect (for_each_operand_mut false f i) vs w ≡ m.effect i vs w)
          × (m.result (for_each_operand_mut false f i) from vs w ≡ m.result i from vs w))
      × ((d : ℕ) (v : Value) (ty : Ty) (from : ℕ) (x : V) (w : W)
          → m.result (assign d v ty) from (x ∷ []) w ≡ x)

module _ {V W : Type 0} (m : Meaning V W) (known : List (ℕ × Const)) where
  -- Every temp of the map has its constant.
  abbrev pub Knows : (ℕ → V) → Type 0
  Knows ρ = (t : ℕ) (c : Const) → lookup t known ≡ some c → ρ t ≡ m.fixed (constant c)

  -- Only the assignment of its constant defines a temp of the map.
  abbrev pub DefinesKnown : Instr → Type 0
  DefinesKnown i =
      (t : ℕ) (c : Const)
      → defines i ≡ some t
      → lookup t known ≡ some c
      → (ty : Ty) × (i ≡ assign t (constant c) ty)

  value-known :
      (ρ : ℕ → V) (v : Value) → Knows ρ → value m ρ (propagate_value known v) ≡ value m ρ v
  unfolding propagate_value value
  value-known ρ (temp t) k = elim (Option-cases (lookup t known)) [
    | inl p ↦ rw p refl
    | inr (c, p) ↦ rw p (sym (k t c p))
  ]
  value-known ρ (constant c) k = refl
  value-known ρ (global g) k = refl
  value-known ρ void k = refl

  values-known :
      (ρ : ℕ → V) (vs : List Value)
      → Knows ρ
      → map (value m ρ) (map (propagate_value known) vs) ≡ map (value m ρ) vs
  values-known ρ [] k = refl
  values-known ρ (v ∷ vs) k = rw (value-known ρ v k, values-known ρ vs k) refl

  -- What an instruction reads, before and after.
  reads-known :
      (start ρ : ℕ → V) (i : Instr)
      → Knows ρ
      → map
          (value m (if is_phi (propagate_in_instruction known i) then start else ρ))
          (operands (propagate_in_instruction known i))
        ≡ map (value m (if is_phi i then start else ρ)) (operands i)
  unfolding propagate_in_instruction
  reads-known start ρ i k =
      let ((ops, _, _, _, same_phi), _) =
        for_each_operand_mut-Rewrites false (propagate_value known) i in
      rw (same_phi, ops)
        (elim (Bool-cases (is_phi i)) [
          | inl p ↦ rw p refl
          | inr p ↦ rw p (values-known ρ (operands i) k)
        ])

  same_defines : (i : Instr) → defines (propagate_in_instruction known i) ≡ defines i
  unfolding propagate_in_instruction
  same_defines i = (for_each_operand_mut-Rewrites false (propagate_value known) i).0.1

  same_meaning :
      (law : IsValueBased m) (i : Instr) (from : ℕ) (vs : List V) (w : W)
      → (m.effect (propagate_in_instruction known i) vs w ≡ m.effect i vs w)
        × (m.result (propagate_in_instruction known i) from vs w ≡ m.result i from vs w)
  unfolding propagate_in_instruction
  same_meaning law i from vs w = law.0 (propagate_value known) i from vs w

  result-assign :
      (law : IsValueBased m) (i : Instr) (t : ℕ) (c : Const) (ty : Ty) (start ρ : ℕ → V) (from : ℕ)
      (w : W)
      → i ≡ assign t (constant c) ty
      → m.result i from (map (value m (if is_phi i then start else ρ)) (operands i)) w
        ≡ m.fixed (constant c)
  unfolding operands is_phi value
  result-assign law i t c ty start ρ from w e = rw e (law.1 t (constant c) ty from _ w)

  updated-known :
      (ρ : ℕ → V) (x : ℕ) (v : V) (t : ℕ) (c : Const)
      → ρ t ≡ m.fixed (constant c)
      → (x ≡ t → v ≡ m.fixed (constant c))
      → update ρ x v t ≡ m.fixed (constant c)
  unfolding update
  updated-known ρ x v t c k h = elim (Bool-cases (x == t)) [
    | inl q ↦ rw q (h ((==_iff x t).0 q))
    | inr q ↦ rw q k
  ]

  step-Knows :
      (ρ : ℕ → V) (i : Instr) (start : ℕ → V) (from : ℕ) (w : W)
      → IsValueBased m
      → DefinesKnown i
      → Knows ρ
      → Knows (
          define m
            (defines i)
            (m.result i from (map (value m (if is_phi i then start else ρ)) (operands i)) w)
            ρ)
  step-Knows ρ i start from w law d k t c l = elim (Option-cases (defines i)) [
    | inl p ↦ rw p (k t c l)
    | inr (x, p) ↦ rw p (
        updated-known ρ x _ t c (k t c l) λ e.
          let (ty, shape) = d t c (p ∙ ap (λ y. some y) e) l in
          result-assign law i t c ty start ρ from w shape)
  ]

  -- The same result as before, in which the map is still right.
  abbrev Stays : Option ((ℕ → V) × W) → Option ((ℕ → V) × W) → Type 0
  Stays none p = p ≡ none
  Stays (some (ρ, w)) p = (p ≡ some (ρ, w)) × Knows ρ

  bind-Stays :
      (o : Option W) (k j : W → Option ((ℕ → V) × W))
      → ((w : W) → Stays (k w) (j w))
      → Stays (bind o k) (bind o j)
  bind-Stays none k j h = refl
  bind-Stays (some w) k j h = h w

  run_instrs-Stays :
      (law : IsValueBased m) (from : ℕ) (start : ℕ → V) (is : List Instr) (ρ : ℕ → V) (w : W)
      → All DefinesKnown is
      → Knows ρ
      → Stays
          (run_instrs m from start is ρ w)
          (run_instrs m from start (map (propagate_in_instruction known) is) ρ w)
  unfolding run_instrs
  run_instrs-Stays law from start [] ρ w d k = (refl, k)
  run_instrs-Stays law from start (i ∷ is) ρ w (d, ds) k =
      let vs = map (value m (if is_phi i then start else ρ)) (operands i) in
      let (same_effect, same_result) = same_meaning law i from vs w in
      rw (reads-known start ρ i k, same_defines i, same_effect, same_result)
        (bind-Stays _ _ _
          λ x. run_instrs-Stays law from start is _ x ds (step-Knows ρ i start from w law d k))

  leave-known :
      (next after : ℕ → ℕ → (ℕ → V) → W → Outcome V W) (from : ℕ) (term : Terminator)
      (o p : Option ((ℕ → V) × W))
      → Stays o p
      → ((l : ℕ) (ρ : ℕ → V) (w : W) → Knows ρ → after from l ρ w ≡ next from l ρ w)
      → leave m after from (propagate_in_terminator known term) p ≡ leave m next from term o
  unfolding leave propagate_in_terminator for_each_term_operand_mut
  leave-known next after from term none p s c = rw s refl
  leave-known next after from (return none) (some (ρ, w)) p (e, k) c = rw e refl
  leave-known next after from (return (some v)) (some (ρ, w)) p (e, k) c =
      rw (e, value-known ρ v k) refl
  leave-known next after from (jump l) (some (ρ, w)) p (e, k) c = rw e (c l ρ w k)
  leave-known next after from (bin_branch v t f) (some (ρ, w)) p (e, k) c =
      rw (e, value-known ρ v k) (c _ ρ w k)
  leave-known next after from (trit_branch v t z n) (some (ρ, w)) p (e, k) c =
      rw (e, value-known ρ v k) (c _ ρ w k)
  leave-known next after from unreachable (some (ρ, w)) p (e, k) c = rw e refl

  in_block-known :
      (law : IsValueBased m) (next after : ℕ → ℕ → (ℕ → V) → W → Outcome V W)
      → ((from l : ℕ) (ρ : ℕ → V) (w : W) → Knows ρ → after from l ρ w ≡ next from l ρ w)
      → (bs : List Block) (from l : ℕ) (ρ : ℕ → V) (w : W) → All (λ b. All DefinesKnown b.instrs) bs
      → Knows ρ
      → in_block m after from (find_block m l (map (propagate_in_block known) bs)) ρ w
        ≡ in_block m next from (find_block m l bs) ρ w
  unfolding in_block find_block propagate_in_block
  in_block-known law next after c [] from l ρ w d k = refl
  in_block-known law next after c (b ∷ bs) from l ρ w (d, ds) k = elim (Bool-cases (b.label == l)) [
    | inl p ↦ rw p (
        leave-known next after b.label b.term _ _ (run_instrs-Stays law from ρ b.instrs ρ w d k)
          (c b.label))
    | inr p ↦ rw p (in_block-known law next after c bs from l ρ w ds k)
  ]

  run-known :
      (law : IsValueBased m) (n : ℕ) (bs : List Block) (from l : ℕ) (ρ : ℕ → V) (w : W)
      → All (λ b. All DefinesKnown b.instrs) bs
      → Knows ρ
      → run m n (map (propagate_in_block known) bs) from l ρ w ≡ run m n bs from l ρ w
  unfolding run
  run-known law zero bs from l ρ w d k = refl
  run-known law (suc n) bs from l ρ w d k =
      in_block-known law (run m n bs) (run m n (map (propagate_in_block known) bs))
        (λ from l ρ w k. run-known law n bs from l ρ w d k) bs from l ρ w d k

  -- Where the meaning of an instruction is a function of its operands' values, only the assignment
  -- of its constant defines a temp of the map, and the temps of the map start with their constants,
  -- the blocks with the constants put in place of the temps run as before.
  pub propagate_in_block-run :
      (n : ℕ) (bs : List Block) (ρ : ℕ → V) (w : W)
      → IsValueBased m
      → All (λ b. All DefinesKnown b.instrs) bs
      → Knows ρ
      → run_blocks m n (map (propagate_in_block known) bs) ρ w ≡ run_blocks m n bs ρ w
  unfolding run_blocks
  propagate_in_block-run n [] ρ w law d k = refl
  propagate_in_block-run n (b ∷ bs) ρ w law d k =
      unfold propagate_in_block in run-known law n (b ∷ bs) b.label b.label ρ w d k
