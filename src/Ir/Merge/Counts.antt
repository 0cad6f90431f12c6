-- ===== src/Ir/Merge/Counts.antt =====
-- The pairs that src/ir/merge_blocks.rs merges, and how many blocks and instructions there are.
use mathlib.Core.Option.{some-injective}
use mani_tc.Prelude.{
  ℕ, zero, suc, ◌+◌, ◌<◌, ◌≡◌, ◌≢◌, refl, sym, subst, ap, ◌∙◌, Bool, true, false, Bool-cases,
  Option, none, some, List, [], ◌∷◌, map, if◌then◌else◌, ◌==◌, length, length-append, inl, inr,
  arith,
}
use mani_tc.Ir.Types.{
  Instr, Terminator, return, jump, bin_branch, trit_branch, unreachable, Block, with_instrs,
}
use mani_tc.Ir.Dead.Loop.{count_instrs}
use mani_tc.Ir.Merge.{
  shift_found, position, at, may_merge, jumps_to, pair_or, scan, remove_at, update_at, merged_instr,
  absorb,
}

shift_found-bound :
    (o : Option ℕ) (here : Bool) (n i : ℕ)
    → ((j : ℕ) → o ≡ some j → j < n)
    → shift_found o (if here then some 0 else none) ≡ some i
    → i < suc n
shift_found-bound none true n i h e = ground arith
shift_found-bound none false n i h e = ground arith
shift_found-bound (some j) here n i h e = let before = h j refl in ground arith

position-bound : (l : ℕ) (bs : List Block) (i : ℕ) → position l bs ≡ some i → i < length bs
unfolding position
position-bound l [] i h = ground arith
position-bound l (b ∷ bs) i h =
    shift_found-bound (position l bs) (b.label == l) (length bs) i (position-bound l bs) h

-- The pair that a scan finds.
abbrev pub IsPair : ℕ → List Block → ℕ × ℕ → Type 0
IsPair bound all (a, l) = (a < bound) × (0 < l) × (l ≢ a) × (l < length all)

may_merge-order :
    (all : List Block) (a : Block) (ai li : ℕ) → may_merge all a ai li ≡ true → (0 < li) × (li ≢ ai)
unfolding may_merge
may_merge-order all a ai li h = (ground arith, λ e. ground arith)

jumps_to-bound :
    (all : List Block) (t : Terminator) (i : ℕ) → jumps_to all t ≡ some i → i < length all
jumps_to-bound all (jump l) i h = position-bound l all i h
jumps_to-bound all (return v) i h = ground arith
jumps_to-bound all (bin_branch c t e) i h = ground arith
jumps_to-bound all (trit_branch c p z n) i h = ground arith
jumps_to-bound all unreachable i h = ground arith

pair_or-IsPair :
    (all : List Block) (a : Block) (ai bound : ℕ) (o : Option ℕ) (later : Option (ℕ × ℕ))
    (p : ℕ × ℕ)
    → ai < bound
    → ((i : ℕ) → o ≡ some i → i < length all)
    → (later ≡ some p → IsPair bound all p)
    → pair_or all a ai o later ≡ some p
    → IsPair bound all p
pair_or-IsPair all a ai bound none later p h k r e = r e
pair_or-IsPair all a ai bound (some li) later p h k r e =
    elim (Bool-cases (may_merge all a ai li)) [
      | inl q ↦
          let same : some (ai, li) ≡ some p =
            sym (ap (λ b. if b then some (ai, li) else later) q) ∙ e in
          let (first, distinct) = may_merge-order all a ai li q in
          subst (IsPair bound all) ((some-injective _ _ same)) (h, first, distinct, k li refl)
      | inr q ↦ r (sym (ap (λ b. if b then some (ai, li) else later) q) ∙ e)
    ]

pub scan-IsPair :
    (all bs : List Block) (ai : ℕ) (p : ℕ × ℕ)
    → scan all ai bs ≡ some p
    → IsPair (ai + length bs) all p
unfolding scan
scan-IsPair all [] ai p h = ground arith
scan-IsPair all (b ∷ bs) ai p h =
    pair_or-IsPair all b ai (ai + suc (length bs)) (jumps_to all b.term) (scan all (suc ai) bs) p
      (omega arith) (jumps_to-bound all b.term) (λ e. widen (scan-IsPair all bs (suc ai) p e)) h
  where
    widen : IsPair (suc ai + length bs) all p → IsPair (ai + suc (length bs)) all p
    widen (a, l, d, n) = (omega arith, l, d, n)

pub length-remove_at :
    (i : ℕ) (bs : List Block) → i < length bs → suc (length (remove_at i bs)) ≡ length bs
unfolding remove_at
length-remove_at i [] h = ground arith
length-remove_at zero (b ∷ bs) h = refl
length-remove_at (suc i) (b ∷ bs) h = omega (arith, length-remove_at i bs (omega arith))

pub length-update_at :
    (i : ℕ) (f : Block → Block) (bs : List Block) → length (update_at i f bs) ≡ length bs
unfolding update_at
length-update_at i f [] = refl
length-update_at zero f (b ∷ bs) = refl
length-update_at (suc i) f (b ∷ bs) = omega (arith, length-update_at i f bs)

pub length-map : {A B : Type 0} (f : A → B) (xs : List A) → length (map f xs) ≡ length xs
length-map f [] = refl
length-map f (x ∷ xs) = omega (arith, length-map f xs)

pub at-some : (i : ℕ) (bs : List Block) → i < length bs → (b : Block) × (at i bs ≡ some b)
unfolding at
at-some i [] h = ground arith
at-some zero (b ∷ bs) h = (b, refl)
at-some (suc i) (b ∷ bs) h = at-some i bs (omega arith)

pub count_instrs-remove_at :
    (i : ℕ) (bs : List Block) (l : Block)
    → at i bs ≡ some l
    → count_instrs (remove_at i bs) + length l.instrs ≡ count_instrs bs
unfolding at remove_at
count_instrs-remove_at i [] l h = ground arith
count_instrs-remove_at zero (b ∷ bs) l h =
    let same = some-injective _ _ h in rw (sym same) (omega arith)
count_instrs-remove_at (suc i) (b ∷ bs) l h = omega (arith, count_instrs-remove_at i bs l h)

pub count_instrs-absorb :
    (i : ℕ) (l : Block) (bs : List Block)
    → i < length bs
    → count_instrs (update_at i (absorb l) bs) ≡ count_instrs bs + length l.instrs
unfolding update_at absorb
count_instrs-absorb i l [] h = ground arith
count_instrs-absorb zero l (b ∷ bs) h =
    omega
      (arith, length-append b.instrs (map merged_instr l.instrs), length-map merged_instr l.instrs)
count_instrs-absorb (suc i) l (b ∷ bs) h = omega (arith, count_instrs-absorb i l bs (omega arith))

pub count_instrs-map :
    (f : Instr → Instr) (bs : List Block)
    → count_instrs (map (with_instrs (map f)) bs) ≡ count_instrs bs
count_instrs-map f [] = refl
count_instrs-map f (b ∷ bs) = omega (arith, length-map f b.instrs, count_instrs-map f bs)
