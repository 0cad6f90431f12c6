-- ===== src/Ir/Reach.antt =====
-- Dead block elimination of src/ir/optimize.rs.
use mani_tc.Prelude.{
  ℕ, zero, suc, ◌+◌, Bool, true, false, Option, none, some, List, [], ◌∷◌, ◌++◌, if◌then◌else◌,
  ◌==◌, length,
}
use mani_tc.Ir.Types.{
  Instr, phi, Terminator, return, jump, bin_branch, trit_branch, unreachable, Value, Block,
  Function, with_blocks,
}
use mani_tc.Ir.Dead.{contains}
pub mod Worklist
pub mod Keep

abbrev pub later : Option Block → Option Block → Option Block
later none o = o
later (some b) o = some b

-- `index.get(label)`: a map collected from the blocks keeps the last one of a label.
unfoldable pub index : List Block → ℕ → Option Block
index [] l = none
index (b ∷ bs) l = later (index bs l) (if b.label == l then some b else none)

unfoldable pub targets : Terminator → List ℕ
targets (jump l) = l ∷ []
targets (bin_branch c t e) = t ∷ e ∷ []
targets (trit_branch c p z n) = p ∷ z ∷ n ∷ []
targets term = []

unfoldable pub incoming_labels : List (Value × ℕ) → List ℕ
incoming_labels [] = []
incoming_labels ((v, from) ∷ ins) = from ∷ incoming_labels ins

unfoldable pub phi_labels : List Instr → List ℕ
phi_labels [] = []
phi_labels (phi d ty ins ∷ is) = incoming_labels ins ++ phi_labels is
phi_labels (i ∷ is) = phi_labels is

-- What a visit of a block pushes, the first label first.
unfoldable pub pushes : Option Block → List ℕ
pushes none = []
pushes (some b) = targets b.term ++ phi_labels b.instrs

-- The worklist, the label to be popped next first.
unfoldable pub push_all : List ℕ → List ℕ → List ℕ
push_all [] work = work
push_all (l ∷ ls) work = push_all ls (l ∷ work)

-- The loop on fuel: none where the fuel is used up.
unfoldable pub mark : ℕ → List Block → List ℕ → List ℕ → Option (List ℕ)
mark zero bs live work = none
mark (suc n) bs live [] = some live
mark (suc n) bs live (l ∷ work) =
    let seen = contains l live in
    mark n bs (if seen then live else l ∷ live)
      (if seen then work else push_all (pushes (index bs l)) work)

unfoldable pub retain_live : List ℕ → List Block → List Block
retain_live live [] = []
retain_live live (b ∷ bs) =
    let rest = retain_live live bs in if contains b.label live then b ∷ rest else rest

abbrev pub kept_blocks : List Block → Option (List ℕ) → Option (List Block)
kept_blocks bs none = none
kept_blocks bs (some live) = some (retain_live live bs)

-- `dead_block_eliminate_func` on the blocks, a function of one block or none being left alone.
unfoldable pub dead_block_eliminate_func : ℕ → List Block → Option (List Block)
dead_block_eliminate_func n [] = some []
dead_block_eliminate_func n (b ∷ []) = some (b ∷ [])
dead_block_eliminate_func n (b ∷ c ∷ bs) =
    kept_blocks (b ∷ c ∷ bs) (mark n (b ∷ c ∷ bs) [] (b.label ∷ []))

abbrev pub with_live :
    Function → Option (List Block) → Option (List Function) → Option (List Function)
with_live f none rest = none
with_live f (some bs) none = none
with_live f (some bs) (some fs) = some (record f { blocks = bs } ∷ fs)

-- `dead_block_eliminate` on the functions of a module, on n units of fuel for each.
unfoldable pub dead_block_eliminate : ℕ → List Function → Option (List Function)
dead_block_eliminate n [] = some []
dead_block_eliminate n (f ∷ fs) =
    let rest = dead_block_eliminate n fs in
    let kept = dead_block_eliminate_func n f.blocks in
    with_live f (if f.is_extern then some f.blocks else kept) rest
