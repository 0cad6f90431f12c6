-- ===== src/Ir/Dead/Rounds.antt =====
-- A round of dead code elimination of src/ir/optimize.rs on the blocks of a function.
use mani_tc.Prelude.{
  ℕ, zero, suc, ◌≡◌, refl, sym, Bool-cases, Option, none, some, List, [], ◌∷◌, ◌++◌, ◌==◌, inl, inr,
}
use mani_tc.Ir.Types.{Terminator, return, jump, bin_branch, trit_branch, unreachable, Block}
use mani_tc.Ir.Operands.{used_in_terminator}
use mani_tc.Ir.Semantics.{
  Meaning, Outcome, trapped, find_block, leave, in_block, run, run_blocks, IsPure,
}
use mani_tc.Ir.Dead.{used_in_instrs, used_in_blocks, sweep_blocks}
use mani_tc.Ir.Dead.Simulation.{Subset, Subset-append, Agree, value-Agree, Follows, retain-Follows}

module _ {V W : Type 0} (m : Meaning V W) (used : List ℕ) where
  -- What control goes on with, before and after the round.
  abbrev Continues :
      (ℕ → ℕ → (ℕ → V) → W → Outcome V W) → (ℕ → ℕ → (ℕ → V) → W → Outcome V W) → Type 0
  Continues next after =
      (from l : ℕ) (ρ σ : ℕ → V) (w : W)
      → Agree m used ρ σ
      → ¬ (next from l ρ w ≡ trapped)
      → after from l σ w ≡ next from l ρ w

  module _ (next after : ℕ → ℕ → (ℕ → V) → W → Outcome V W) (cont : Continues next after)
      (from : ℕ) where
    leave-eq :
        (term : Terminator) (o p : Option ((ℕ → V) × W))
        → Subset (used_in_terminator term) used
        → Follows m used o p
        → ¬ (leave m next from term o ≡ trapped)
        → leave m after from term p ≡ leave m next from term o
    unfolding leave used_in_terminator
    leave-eq term none p s f h = elim (h refl) [ ]
    leave-eq term (some (ρ, w)) none s f h = elim f [ ]
    leave-eq (return none) (some (ρ, w)) (some (σ, x)) s (a, e) h = rw e refl
    leave-eq (return (some v)) (some (ρ, w)) (some (σ, x)) s (a, e) h =
        rw (e, value-Agree m used ρ σ v a s) refl
    leave-eq (jump l) (some (ρ, w)) (some (σ, x)) s (a, e) h = rw (sym e) (cont from l ρ σ w a h)
    leave-eq (bin_branch c t f) (some (ρ, w)) (some (σ, x)) s (a, e) h =
        rw (sym e, sym (value-Agree m used ρ σ c a s)) (cont from _ ρ σ w a h)
    leave-eq (trit_branch c t z n) (some (ρ, w)) (some (σ, x)) s (a, e) h =
        rw (sym e, sym (value-Agree m used ρ σ c a s)) (cont from _ ρ σ w a h)
    leave-eq unreachable (some (ρ, w)) (some (σ, x)) s f h = refl

  module _ (pure : IsPure m) where
    in_block-eq :
        (next after : ℕ → ℕ → (ℕ → V) → W → Outcome V W)
        → Continues next after
        → (bs : List Block) (from l : ℕ) (ρ σ : ℕ → V) (w : W) → Subset (used_in_blocks bs) used
        → Agree m used ρ σ
        → ¬ (in_block m next from (find_block m l bs) ρ w ≡ trapped)
        → in_block m after from (find_block m l (sweep_blocks used bs)) σ w
          ≡ in_block m next from (find_block m l bs) ρ w
    unfolding find_block in_block
    in_block-eq next after cont [] from l ρ σ w s a h = refl
    in_block-eq next after cont (b ∷ bs) from l ρ σ w s a h =
        let (here, rest) =
          Subset-append (used_in_instrs b.instrs ++ used_in_terminator b.term) (used_in_blocks bs)
            used (unfold used_in_blocks in s) in
        let (si, st) =
          Subset-append (used_in_instrs b.instrs) (used_in_terminator b.term) used here in
        elim (Bool-cases (b.label == l)) [
          | inl p ↦ rw p (
              leave-eq next after cont b.label b.term _ _ st
                (retain-Follows m used pure from ρ σ b.instrs ρ σ w a a si) λ q. h (rw p q))
          | inr p ↦ rw p (in_block-eq next after cont bs from l ρ σ w rest a λ q. h (rw p q))
        ]

    run-eq :
        (n : ℕ) (bs : List Block)
        → Subset (used_in_blocks bs) used
        → Continues (run m n bs) (run m n (sweep_blocks used bs))
    unfolding run
    run-eq zero bs s from l ρ σ w a h = refl
    run-eq (suc n) bs s from l ρ σ w a h =
        in_block-eq (run m n bs) (run m n (sweep_blocks used bs)) (run-eq n bs s) bs from l ρ σ w s
          a h

  -- A run that does not trap ends the same way after the round.
  pub sweep_blocks-run :
      (pure : IsPure m) (n : ℕ) (bs : List Block) (ρ : ℕ → V) (w : W)
      → Subset (used_in_blocks bs) used
      → ¬ (run_blocks m n bs ρ w ≡ trapped)
      → run_blocks m n (sweep_blocks used bs) ρ w ≡ run_blocks m n bs ρ w
  unfolding run_blocks
  sweep_blocks-run pure n [] ρ w s h = refl
  sweep_blocks-run pure n (b ∷ bs) ρ w s h =
      run-eq pure n (b ∷ bs) s b.label b.label ρ ρ w (λ t p. refl) h
