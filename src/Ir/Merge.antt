-- ===== src/Ir/Merge.antt =====
-- src/ir/merge_blocks.rs: merging a block into its single predecessor.
use mani_tc.Prelude.{
  ℕ, zero, suc, ◌+◌, ◌-◌, Bool, true, false, ◌&&◌, ◌||◌, not, Option, none, some, List, [], ◌∷◌,
  ◌++◌, map, if◌then◌else◌, ◌==◌, leb, ltb, length,
}
use mani_tc.Ir.Ty.{Ty}
use mani_tc.Ir.Types.{Value, Instr, phi, assign, Terminator, jump, Block, Function, with_instrs}
use mani_tc.Ir.Reach.{targets}
pub mod Counts
pub mod Settles

abbrev pub shift_found : Option ℕ → Option ℕ → Option ℕ
shift_found none o = o
shift_found (some i) o = some (suc i)

-- `index.get(label)`: the last position of a label.
unfoldable pub position : ℕ → List Block → Option ℕ
position l [] = none
position l (b ∷ bs) = shift_found (position l bs) (if b.label == l then some 0 else none)

abbrev pub hits : ℕ → Option ℕ → ℕ
hits i none = 0
hits i (some j) = if j == i then 1 else 0

unfoldable pub count_targets : List Block → ℕ → List ℕ → ℕ
count_targets all i [] = 0
count_targets all i (t ∷ ts) = hits i (position t all) + count_targets all i ts

-- `preds[i]`, the edges from the blocks of the second list to the block at i of the first.
unfoldable pub preds : List Block → ℕ → List Block → ℕ
preds all i [] = 0
preds all i (b ∷ bs) = count_targets all i (targets b.term) + preds all i bs

unfoldable pub at : {A : Type 0} → ℕ → List A → Option A
at i [] = none
at zero (x ∷ xs) = some x
at (suc i) (x ∷ xs) = at i xs

unfoldable pub phis_are_sound : ℕ → List Instr → Bool
phis_are_sound a [] = true
phis_are_sound a (phi d ty ((v, from) ∷ []) ∷ is) = (from == a) && phis_are_sound a is
phis_are_sound a (phi d ty ins ∷ is) = false
phis_are_sound a (i ∷ is) = phis_are_sound a is

abbrev pub sound_at : ℕ → Option Block → Bool
sound_at a none = false
sound_at a (some b) = phis_are_sound a b.instrs

-- Whether the block at li, which the block a at ai jumps to, may be merged into it.
unfoldable pub may_merge : List Block → Block → ℕ → ℕ → Bool
may_merge all a ai li =
    not (li == 0) && (not (li == ai) && ((preds all li all == 1) && sound_at a.label (at li all)))

abbrev pub jumps_to : List Block → Terminator → Option ℕ
jumps_to all (jump l) = position l all
jumps_to all term = none

abbrev pub pair_or : List Block → Block → ℕ → Option ℕ → Option (ℕ × ℕ) → Option (ℕ × ℕ)
pair_or all a ai none later = later
pair_or all a ai (some li) later = if may_merge all a ai li then some (ai, li) else later

-- The scan of `next_pair`, whose first block stands at ai.
unfoldable pub scan : List Block → ℕ → List Block → Option (ℕ × ℕ)
scan all ai [] = none
scan all ai (a ∷ rest) =
    let later = scan all (suc ai) rest in pair_or all a ai (jumps_to all a.term) later

unfoldable pub next_pair : List Block → Option (ℕ × ℕ)
next_pair bs = if ltb (length bs) 2 then none else scan bs 0 bs

unfoldable pub remove_at : ℕ → List Block → List Block
remove_at i [] = []
remove_at zero (b ∷ bs) = bs
remove_at (suc i) (b ∷ bs) = b ∷ remove_at i bs

unfoldable pub update_at : ℕ → (Block → Block) → List Block → List Block
update_at i f [] = []
update_at zero f (b ∷ bs) = f b ∷ bs
update_at (suc i) f (b ∷ bs) = b ∷ update_at i f bs

-- A phi of one arm is a copy.
unfoldable pub merged_instr : Instr → Instr
merged_instr (phi d ty ((v, from) ∷ [])) = assign d v ty
merged_instr i = i

unfoldable pub retarget_incoming : ℕ → ℕ → List (Value × ℕ) → List (Value × ℕ)
retarget_incoming old new [] = []
retarget_incoming old new ((v, from) ∷ ins) =
    (v, if from == old then new else from) ∷ retarget_incoming old new ins

unfoldable pub retarget_instr : ℕ → ℕ → Instr → Instr
retarget_instr old new (phi d ty ins) = phi d ty (retarget_incoming old new ins)
retarget_instr old new i = i

unfoldable pub absorb : Block → Block → Block
absorb l a = record a { instrs = a.instrs ++ map merged_instr l.instrs; term = l.term }

abbrev pub label_at : ℕ → List Block → ℕ
label_at i bs = label_of (at i bs)
  where
    label_of : Option Block → ℕ
    label_of none = 0
    label_of (some b) = b.label

abbrev pub merge_with : List Block → ℕ → ℕ → Option Block → List Block
merge_with bs ai li none = bs
merge_with bs ai li (some l) =
    let rest = remove_at li bs in
    let ai = if ltb li ai then ai - 1 else ai in
    map (with_instrs (map (retarget_instr l.label (label_at ai rest))))
      (update_at ai (absorb l) rest)

unfoldable pub merge : List Block → ℕ × ℕ → List Block
merge bs (ai, li) = merge_with bs ai li (at li bs)

abbrev pub counted : Option (ℕ × List Block) → Option (ℕ × List Block)
counted none = none
counted (some (n, bs)) = some (suc n, bs)

abbrev pub continue_with :
    (List Block → Option (ℕ × List Block)) → List Block → Option (ℕ × ℕ) → Option (ℕ × List Block)
continue_with again bs none = some (0, bs)
continue_with again bs (some p) = counted (again (merge bs p))

-- `run_func` on fuel: the number of merges and the blocks that are left.
unfoldable pub run_func : ℕ → List Block → Option (ℕ × List Block)
run_func zero bs = none
run_func (suc n) bs = continue_with (run_func n) bs (next_pair bs)

abbrev pub with_function :
    Function → Option (ℕ × List Block) → Option (ℕ × List Function) → Option (ℕ × List Function)
with_function f none rest = none
with_function f (some (n, bs)) none = none
with_function f (some (n, bs)) (some (m, fs)) = some (n + m, record f { blocks = bs } ∷ fs)

-- `run` on the functions of a module: how many merges there were, and the functions after them.
unfoldable pub run : List Function → Option (ℕ × List Function)
run [] = some (0, [])
run (f ∷ fs) =
    let rest = run fs in
    let merged = run_func (suc (length f.blocks)) f.blocks in
    with_function f (if f.is_extern then some (0, f.blocks) else merged) rest
