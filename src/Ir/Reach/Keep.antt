-- ===== src/Ir/Reach/Keep.antt =====
-- What dead block elimination of src/ir/optimize.rs keeps, and the runs of what is left.
use mani_tc.Prelude.{
  ℕ, zero, suc, ◌<◌, ◌≡◌, refl, sym, subst, ap, ◌∙◌, Bool, true, false, ◌||◌, Bool-cases, Option,
  none, some, List, [], ◌∷◌, if◌then◌else◌, ◌==◌, ==_iff, inl, inr, arith,
}
use mani_tc.Prelude.Int.{ℤ, pos, negsuc}
use mani_tc.Ir.Types.{Terminator, return, jump, bin_branch, trit_branch, unreachable, Block}
use mani_tc.Ir.Semantics.{
  Meaning, Outcome, value, pick_arm, run_instrs, find_block, leave, in_block, run, run_blocks,
}
use mani_tc.Ir.Dead.{contains}
use mani_tc.Ir.Dead.Simulation.{contains-append}
use mani_tc.Ir.Reach.{
  later, index, targets, phi_labels, pushes, mark, retain_live, dead_block_eliminate_func,
}
use mani_tc.Ir.Reach.Worklist.{Reaches, entry, pending, Marked, mark-Marked}

-- The labels are all different.
abbrev pub Distinct : List Block → Type 0
Distinct [] = Unit
Distinct (b ∷ bs) = (index bs b.label ≡ none) × Distinct bs

find_block-index :
    {V W : Type 0} (m : Meaning V W) (bs : List Block) (l : ℕ)
    → Distinct bs
    → find_block m l bs ≡ index bs l
unfolding find_block index
find_block-index m [] l d = refl
find_block-index m (b ∷ bs) l (u, d) = elim (Bool-cases (b.label == l)) [
  | inl p ↦ rw (p, sym (ap (λ k. index bs k) ((==_iff b.label l).0 p)), u) refl
  | inr p ↦ rw (p, find_block-index m bs l d) (keep (index bs l))
]
  where
    keep : (o : Option Block) → o ≡ later o none
    keep none = refl
    keep (some c) = refl

find_block-skip :
    {V W : Type 0} (m : Meaning V W) (b : Block) (bs : List Block) (l : ℕ) (kept : Bool)
    → (b.label == l) ≡ false
    → find_block m l (if kept then b ∷ bs else bs) ≡ find_block m l bs
unfolding find_block
find_block-skip m b bs l true p = rw p refl
find_block-skip m b bs l false p = refl

find_block-retain_live :
    {V W : Type 0} (m : Meaning V W) (live : List ℕ) (bs : List Block) (l : ℕ)
    → contains l live ≡ true
    → find_block m l (retain_live live bs) ≡ find_block m l bs
unfolding find_block retain_live
find_block-retain_live m live [] l h = refl
find_block-retain_live m live (b ∷ bs) l h = elim (Bool-cases (b.label == l)) [
  | inl p ↦ rw (ap (λ k. contains k live) ((==_iff b.label l).0 p) ∙ h, p) refl
  | inr p ↦ rw p (
      find_block-skip m b (retain_live live bs) l (contains b.label live) p
      ∙ find_block-retain_live m live bs l h)
]

-- The labels that a block's terminator names are live where the block's own is.
Marked-targets :
    (bs : List Block) (start : ℕ) (live : List ℕ) (l t : ℕ) (b : Block)
    → Marked bs start live
    → contains l live ≡ true
    → index bs l ≡ some b
    → contains t (targets b.term) ≡ true
    → contains t live ≡ true
unfolding pushes contains
Marked-targets bs start live l t b (s, c, e) h i r =
    let r' : contains t (pushes (index bs l)) ≡ true =
      rw i (contains-append t (targets b.term) (phi_labels b.instrs) ∙ ground arith) in
    let h = c l t h r' in ground arith

module _ {V W : Type 0} (m : Meaning V W) (bs : List Block) (start : ℕ) (live : List ℕ)
    (marked : Marked bs start live) (d : Distinct bs) where
  leave-retain_live :
      (next after : ℕ → ℕ → (ℕ → V) → W → Outcome V W) (from : ℕ) (term : Terminator)
      (o : Option ((ℕ → V) × W))
      → ((t : ℕ) → contains t (targets term) ≡ true → contains t live ≡ true)
      → ((l : ℕ) (ρ : ℕ → V) (w : W) → contains l live ≡ true → after from l ρ w ≡ next from l ρ w)
      → leave m after from term o ≡ leave m next from term o
  unfolding leave targets contains
  leave-retain_live next after from term none s c = refl
  leave-retain_live next after from (return none) (some (ρ, w)) s c = refl
  leave-retain_live next after from (return (some v)) (some (ρ, w)) s c = refl
  leave-retain_live next after from (jump l) (some (ρ, w)) s c = c l ρ w (s l (ground arith))
  leave-retain_live next after from (bin_branch v t f) (some (ρ, w)) s c =
      elim (Bool-cases (m.is_true (value m ρ v))) [
        | inl p ↦ rw p (c t ρ w (s t (ground arith)))
        | inr p ↦ rw p (c f ρ w (s f (ground arith)))
      ]
  leave-retain_live next after from (trit_branch v t z n) (some (ρ, w)) s c =
      c _ ρ w (s _ (picked (m.sign (value m ρ v))))
    where
      picked : (x : ℤ) → contains (pick_arm x t z n) (t ∷ z ∷ n ∷ []) ≡ true
      picked (pos zero) = ground arith
      picked (pos (suc k)) = ground arith
      picked (negsuc k) = ground arith
  leave-retain_live next after from unreachable (some (ρ, w)) s c = refl

  in_block-retain_live :
      (next after : ℕ → ℕ → (ℕ → V) → W → Outcome V W) (from l : ℕ) (o : Option Block) (ρ : ℕ → V)
      (w : W)
      → contains l live ≡ true
      → index bs l ≡ o
      → ((from l : ℕ) (ρ : ℕ → V) (w : W)
          → contains l live ≡ true
          → after from l ρ w ≡ next from l ρ w)
      → in_block m after from o ρ w ≡ in_block m next from o ρ w
  unfolding in_block
  in_block-retain_live next after from l none ρ w h i c = refl
  in_block-retain_live next after from l (some b) ρ w h i c =
      leave-retain_live next after b.label b.term (run_instrs m from ρ b.instrs ρ w)
        (λ t r. Marked-targets bs start live l t b marked h i r) (c b.label)

  pub run-retain_live :
      (k from l : ℕ) (ρ : ℕ → V) (w : W)
      → contains l live ≡ true
      → run m k (retain_live live bs) from l ρ w ≡ run m k bs from l ρ w
  unfolding run
  run-retain_live zero from l ρ w h = refl
  run-retain_live (suc k) from l ρ w h = rw (find_block-retain_live m live bs l h) (
      in_block-retain_live (run m k bs) (run m k (retain_live live bs)) from l (find_block m l bs) ρ
        w h (sym (find_block-index m bs l d)) λ from l ρ w h. run-retain_live k from l ρ w h)

only : (start t : ℕ) → (contains t [] || contains t (start ∷ [])) ≡ true → (start == t) ≡ true
unfolding contains
only start t p = ground arith

none_live : {P : Type 0} (l : ℕ) → contains l [] ≡ true → P
unfolding contains
none_live l p = ground arith

itself : (start : ℕ) → (contains start [] || contains start (start ∷ [])) ≡ true
unfolding contains
itself start = ground arith

marking :
    (n : ℕ) (bs : List Block) (start : ℕ)
    → suc (pending bs []) < n
    → (live : List ℕ) × (mark n bs [] (start ∷ []) ≡ some live) × Marked bs start live
marking n bs start h =
    mark-Marked bs start n [] (start ∷ []) (omega arith)
      (λ t p. subst (λ x. Reaches bs start x) ((==_iff start t).0 (only start t p)) entry)
      (λ l t p e. none_live l p) (itself start)

retain_live-first :
    (live : List ℕ) (b : Block) (bs : List Block)
    → contains b.label live ≡ true
    → retain_live live (b ∷ bs) ≡ b ∷ retain_live live bs
unfolding retain_live
retain_live-first live b bs h = rw h refl

-- With distinct labels and fuel for every push, dead block elimination ends, and the blocks that are
-- left run as all the blocks do, for every meaning of the instructions.
pub dead_block_eliminate_func-run :
    {V W : Type 0} (m : Meaning V W) (n k : ℕ) (bs : List Block) (ρ : ℕ → V) (w : W)
    → Distinct bs
    → suc (pending bs []) < n
    → (kept : List Block) × (dead_block_eliminate_func n bs ≡ some kept)
      × (run_blocks m k kept ρ w ≡ run_blocks m k bs ρ w)
unfolding dead_block_eliminate_func
dead_block_eliminate_func-run m n k [] ρ w d h = ([], refl, refl)
dead_block_eliminate_func-run m n k (b ∷ []) ρ w d h = (b ∷ [], refl, refl)
dead_block_eliminate_func-run m n k (b ∷ c ∷ bs) ρ w d h =
    let (live, e, marked) = marking n (b ∷ c ∷ bs) b.label h in
    let first = retain_live-first live b (c ∷ bs) marked.2 in
    let same =
      run-retain_live m (b ∷ c ∷ bs) b.label live marked d k b.label b.label ρ w marked.2 in
    (
      retain_live live (b ∷ c ∷ bs),
      rw e refl,
      rw first (unfold run_blocks in ap (λ l. run m k l b.label b.label ρ w) (sym first) ∙ same),
    )
