-- ===== src/Bytes.antt =====
-- The operations on byte strings of src/codegen_t3/emulator/mod.rs: find, split and replace. The
-- loops of the last two run on fuel, one more than the bytes that are left.
pub mod Find
pub mod Split
mod Tests
use mani_tc.Prelude.{
  ℕ, zero, suc, ◌+◌, ◌-◌, Bool, true, false, ◌&&◌, Option, none, some, List, [], ◌∷◌, ◌++◌, length,
  ltb, ◌==◌, if◌then◌else◌,
}

-- `&s[..n]` and `&s[n..]`.
unfoldable pub take : ℕ → List ℕ → List ℕ
take zero s = []
take (suc n) [] = []
take (suc n) (b ∷ s) = b ∷ take n s

unfoldable pub drop : ℕ → List ℕ → List ℕ
drop zero s = s
drop (suc n) [] = []
drop (suc n) (b ∷ s) = drop n s

abbrev pub is_nil : List ℕ → Bool
is_nil [] = true
is_nil (_ ∷ _) = false

unfoldable pub same_bytes : List ℕ → List ℕ → Bool
same_bytes [] [] = true
same_bytes [] (_ ∷ _) = false
same_bytes (_ ∷ _) [] = false
same_bytes (a ∷ s) (b ∷ t) = (a == b) && same_bytes s t

-- `(i..i + n).find(|&i| &hay[i..i + needle.len()] == needle)`.
unfoldable pub first_match : List ℕ → List ℕ → ℕ → ℕ → Option ℕ
first_match hay needle zero i = none
first_match hay needle (suc n) i =
    let later = first_match hay needle n (i + 1) in
    if same_bytes (take (length needle) (drop i hay)) needle then some i else later

unfoldable pub bytes_find : List ℕ → List ℕ → Option ℕ
bytes_find hay needle =
    if is_nil needle
    then some 0
    else if ltb (length hay) (length needle)
    then none
    else first_match hay needle (length hay - length needle + 1) 0

abbrev pub prepend : List ℕ → Option (List (List ℕ)) → Option (List (List ℕ))
prepend piece none = none
prepend piece (some pieces) = some (piece ∷ pieces)

abbrev pub after : List ℕ → Option (List ℕ) → Option (List ℕ)
after start none = none
after start (some rest) = some (start ++ rest)

-- The `while let` loops; `none` is a run out of fuel.
unfoldable pub split_loop : ℕ → List ℕ → List ℕ → Option (List (List ℕ))
split_loop zero rest sep = none
split_loop (suc fuel) rest sep = elim (bytes_find rest sep) [
  | none ↦ some (rest ∷ [])
  | some i ↦ prepend (take i rest) (split_loop fuel (drop (i + length sep) rest) sep)
]

unfoldable pub replace_loop : ℕ → List ℕ → List ℕ → List ℕ → Option (List ℕ)
replace_loop zero rest find repl = none
replace_loop (suc fuel) rest find repl = elim (bytes_find rest find) [
  | none ↦ some rest
  | some i ↦ after (take i rest ++ repl) (replace_loop fuel (drop (i + length find) rest) find repl)
]

unfoldable pub bytes_split : List ℕ → List ℕ → Option (List (List ℕ))
bytes_split hay sep = if is_nil sep then some (hay ∷ []) else split_loop (length hay + 1) hay sep

unfoldable pub bytes_replace : List ℕ → List ℕ → List ℕ → Option (List ℕ)
bytes_replace hay find repl =
    if is_nil find then some hay else replace_loop (length hay + 1) hay find repl
