-- ===== src/Ir/Merge/Settles.antt =====
-- The loop of src/ir/merge_blocks.rs.
use mani_tc.Prelude.{
  ℕ, zero, suc, ◌+◌, ◌-◌, ◌<◌, ◌≡◌, ◌≢◌, refl, sym, ap, ◌∙◌, Bool, true, false, Bool-cases, Option,
  none, some, Option-cases, List, [], ◌∷◌, map, if◌then◌else◌, ltb, length, inl, inr, arith,
}
use mani_tc.Ir.Types.{Block, Function, with_instrs}
use mani_tc.Ir.Dead.Loop.{count_instrs}
use mani_tc.Ir.Merge.{
  scan, next_pair, remove_at, update_at, retarget_instr, absorb, label_at, merge, run_func,
  with_function, run,
}
use mani_tc.Ir.Merge.Counts.{
  IsPair, scan-IsPair, length-remove_at, length-update_at, length-map, at-some,
  count_instrs-remove_at, count_instrs-absorb, count_instrs-map,
}

-- The label of the entry block.
abbrev pub entry_label : List Block → Option ℕ
entry_label [] = none
entry_label (b ∷ bs) = some b.label

next_pair-IsPair : (bs : List Block) (p : ℕ × ℕ) → next_pair bs ≡ some p → IsPair (length bs) bs p
unfolding next_pair
next_pair-IsPair bs p h = elim (Bool-cases (ltb (length bs) 2)) [
  | inl q ↦ ground arith
  | inr q ↦
      drop_zero (scan-IsPair bs bs 0 p (sym (ap (λ b. if b then none else scan bs 0 bs) q) ∙ h))
]
  where
    drop_zero : IsPair (0 + length bs) bs p → IsPair (length bs) bs p
    drop_zero (a, l, d, b) = (omega arith, l, d, b)

entry-remove_at : (i : ℕ) (bs : List Block) → 0 < i → entry_label (remove_at i bs) ≡ entry_label bs
unfolding remove_at
entry-remove_at zero bs h = ground arith
entry-remove_at (suc i) [] h = refl
entry-remove_at (suc i) (b ∷ bs) h = refl

entry-update_at :
    (i : ℕ) (l : Block) (bs : List Block) → entry_label (update_at i (absorb l) bs) ≡ entry_label bs
unfolding update_at absorb
entry-update_at i l [] = refl
entry-update_at zero l (b ∷ bs) = refl
entry-update_at (suc i) l (b ∷ bs) = refl

entry-map :
    (f : Block → Block) (bs : List Block)
    → ((b : Block) → (f b).label ≡ b.label)
    → entry_label (map f bs) ≡ entry_label bs
entry-map f [] h = refl
entry-map f (b ∷ bs) h = ap (λ l. some l) (h b)

-- What one merge, or several, leave as it was; n blocks are gone.
abbrev pub Keeps : ℕ → List Block → List Block → Type 0
Keeps n bs out =
    (n + length out ≡ length bs)
    × (count_instrs out ≡ count_instrs bs)
    × (entry_label out ≡ entry_label bs)

shifted_inside :
    (a l m n : ℕ) → a < n → l ≢ a → l < n → suc m ≡ n → (if ltb l a then a - 1 else a) < m
shifted_inside a l m n h d b e = ground arith

merge-Keeps : (bs : List Block) (p : ℕ × ℕ) → IsPair (length bs) bs p → Keeps 1 bs (merge bs p)
unfolding merge
merge-Keeps bs (ai, li) (ha, hl, distinct, bound) =
    let (l, e) = at-some li bs bound in
    let rest = remove_at li bs in
    let a = if ltb li ai then ai - 1 else ai in
    let f = retarget_instr l.label (label_at a rest) in
    let removed = length-remove_at li bs bound in
    let inside : a < length rest =
      shifted_inside ai li (length rest) (length bs) ha distinct bound removed in
    rw e (
      omega (
        arith,
        length-map (with_instrs (map f)) (update_at a (absorb l) rest),
        length-update_at a (absorb l) rest,
        removed,
      ),
      omega (
        arith,
        count_instrs-map f (update_at a (absorb l) rest),
        count_instrs-absorb a l rest inside,
        count_instrs-remove_at li bs l e,
      ),
      entry-map (with_instrs (map f)) (update_at a (absorb l) rest) (λ b. refl)
          ∙ entry-update_at a l rest
          ∙ entry-remove_at li bs hl,
    )

-- With one unit of fuel more than there are blocks, the loop ends: no pair is left to merge, each
-- merge has taken one block, the instructions are as many as before, and the entry block has kept
-- its label.
pub run_func-Keeps :
    (n : ℕ) (bs : List Block)
    → length bs < n
    → (merged : ℕ) × (out : List Block) × (run_func n bs ≡ some (merged, out))
      × (next_pair out ≡ none)
      × Keeps merged bs out
unfolding run_func
run_func-Keeps zero bs h = ground arith
run_func-Keeps (suc n) bs h = elim (Option-cases (next_pair bs)) [
  | inl p ↦ rw p (0, bs, refl, p, (omega arith, refl, refl))
  | inr (pair, p) ↦
      let (fewer, same, entry) = merge-Keeps bs pair (next_pair-IsPair bs pair p) in
      let (k, out, e, none_left, (f, g, first)) = run_func-Keeps n (merge bs pair) (omega arith) in
      rw (p, e) (suc k, out, refl, none_left, (omega arith, g ∙ same, first ∙ entry))
]

abbrev pub count_blocks : List Function → ℕ
count_blocks [] = 0
count_blocks (f ∷ fs) = length f.blocks + count_blocks fs

-- Merging a module ends, and the number that it returns is how many blocks are gone.
pub run-counts :
    (fs : List Function)
    → (n : ℕ) × (out : List Function) × (run fs ≡ some (n, out))
      × (n + count_blocks out ≡ count_blocks fs)
unfolding run
run-counts [] = (0, [], refl, omega arith)
run-counts (f ∷ fs) =
    let (n, out, e, same) = run-counts fs in
    let (k, bs, r, settled, (fewer, kept, first)) =
      run_func-Keeps (suc (length f.blocks)) f.blocks (omega arith) in
    rw (e, r) (either n out k bs same fewer f.is_extern)
  where
    either :
        (n : ℕ) (out : List Function) (k : ℕ) (bs : List Block)
        → n + count_blocks out ≡ count_blocks fs
        → k + length bs ≡ length f.blocks
        → (b : Bool)
        → (m : ℕ) × (o : List Function) × (with_function f
              (if b then some (0, f.blocks) else some (k, bs))
              (some (n, out))
            ≡ some (m, o))
          × (m + count_blocks o ≡ length f.blocks + count_blocks fs)
    either n out k bs same kept true =
        (0 + n, record f { blocks = f.blocks } ∷ out, refl, omega arith)
    either n out k bs same kept false = (k + n, record f { blocks = bs } ∷ out, refl, omega arith)
