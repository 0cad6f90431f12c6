-- ===== src/Ir/Dead/Loop.antt =====
-- The loop of dead code elimination of src/ir/optimize.rs.
use mani_tc.Prelude.{
  ℕ, zero, suc, ◌+◌, ◌≤◌, ◌<◌, ◌≡◌, refl, sym, ap, ap₂, ◌∙◌, Bool, true, false, not, ◌||◌,
  Bool-cases, some, List, [], ◌∷◌, inl, inr, arith, length,
}
use mani_tc.Ir.Types.{Instr, Block, Function}
use mani_tc.Ir.Semantics.{Meaning, trapped, run_blocks, IsPure}
use mani_tc.Ir.Dead.{
  is_retained, retain, removes_any, changed, sweep_blocks, sweep, collect_used_temps,
  used_in_blocks, dead_code_eliminate,
}
use mani_tc.Ir.Dead.Rounds.{sweep_blocks-run}

abbrev pub count_instrs : List Block → ℕ
count_instrs [] = 0
count_instrs (b ∷ bs) = length b.instrs + count_instrs bs

retain-length :
    (used : List ℕ) (is : List Instr)
    → (length (retain used is) ≤ length is)
      × (removes_any used is ≡ true → length (retain used is) < length is)
unfolding retain removes_any
retain-length used [] = (omega arith, λ p. ground arith)
retain-length used (i ∷ is) = ground (arith, retain-length used is)

sweep-count :
    (used : List ℕ) (bs : List Block)
    → (count_instrs (sweep_blocks used bs) ≤ count_instrs bs)
      × (changed used bs ≡ true → count_instrs (sweep_blocks used bs) < count_instrs bs)
unfolding changed
sweep-count used [] = (omega arith, λ p. ground arith)
sweep-count used (b ∷ bs) = ground (arith, sweep-count used bs, retain-length used b.instrs)

or_false : (a b : Bool) → (a || b) ≡ false → (a ≡ false) × (b ≡ false)
or_false a b h = ground arith

retain-id : (used : List ℕ) (is : List Instr) → removes_any used is ≡ false → retain used is ≡ is
unfolding retain removes_any
retain-id used [] h = refl
retain-id used (i ∷ is) h =
    let (kept, rest) = or_false (not (is_retained used i)) (removes_any used is) h in
    elim (Bool-cases (is_retained used i)) [
      | inl p ↦ rw p (ap (λ l. i ∷ l) (retain-id used is rest))
      | inr p ↦ ground arith
    ]

sweep-id : (used : List ℕ) (bs : List Block) → changed used bs ≡ false → sweep_blocks used bs ≡ bs
unfolding changed
sweep-id used [] h = refl
sweep-id used (b ∷ bs) h =
    let (here, rest) = or_false (removes_any used b.instrs) (changed used bs) h in
    ap₂ (λ is l. record b { instrs = is } ∷ l) (retain-id used b.instrs here)
      (sweep-id used bs rest)

-- A round that changes nothing leaves the function, which is then settled.
sweep-settled :
    (f : Function)
    → changed (collect_used_temps f) f.blocks ≡ false
    → changed (collect_used_temps (sweep f)) (sweep f).blocks ≡ false
unfolding sweep
sweep-settled f h =
    let same : sweep f ≡ f =
      ap (λ bs. record f { blocks = bs }) (sweep-id (collect_used_temps f) f.blocks h) in
    ap (λ g. changed (collect_used_temps g) g.blocks) same ∙ h

module _ {V W : Type 0} (m : Meaning V W) (pure : IsPure m) (k : ℕ) (ρ : ℕ → V) (w : W) where
  -- On one unit of fuel more than the function has instructions, and for every meaning of the
  -- instructions in which those without side effects leave the world, the loop ends with a function
  -- in which nothing can be removed; a run of at most k blocks that does not trap ends as before.
  pub dead_code_eliminate-Refines :
      (n : ℕ) (f : Function)
      → count_instrs f.blocks < n
      → ¬ (run_blocks m k f.blocks ρ w ≡ trapped)
      → (g : Function) × (dead_code_eliminate n f ≡ some g)
        × (changed (collect_used_temps g) g.blocks ≡ false)
        × (run_blocks m k g.blocks ρ w ≡ run_blocks m k f.blocks ρ w)
  unfolding dead_code_eliminate
  dead_code_eliminate-Refines zero f h safe = ground arith
  dead_code_eliminate-Refines (suc n) f h safe =
      let same : run_blocks m k (sweep f).blocks ρ w ≡ run_blocks m k f.blocks ρ w =
        unfold sweep collect_used_temps in
        sweep_blocks-run m (used_in_blocks f.blocks) pure k f.blocks ρ w (λ t p. p) safe in
      elim (Bool-cases (changed (collect_used_temps f) f.blocks)) [
        | inl p ↦ rw p (
            let fewer : count_instrs (sweep f).blocks < n =
              unfold sweep in omega (arith, (sweep-count (collect_used_temps f) f.blocks).1 p, h) in
            let (g, e, s, r) =
              dead_code_eliminate-Refines n (sweep f) fewer λ q. safe (sym same ∙ q) in
            (g, e, s, r ∙ same))
        | inr p ↦ rw p (sweep f, refl, sweep-settled f p, same)
      ]
