-- ===== src/Bytes/Tests.antt =====
-- Byte strings: a run of the search, and the theorem at a concrete string.
use mani_tc.Prelude.{ℕ, ◌≡◌, refl, some, List, [], ◌∷◌}
use mani_tc.Bytes.{take, drop, same_bytes, first_match, bytes_find, bytes_split, bytes_replace}
use mani_tc.Bytes.Split.{join, AreLeftmost, bytes_split-join}

-- "a,b,", with the comma as the separator.
abbrev fields : List ℕ
fields = 97 ∷ 44 ∷ 98 ∷ 44 ∷ []

second : bytes_find (98 ∷ 44 ∷ []) (44 ∷ []) ≡ some 1
unfolding bytes_find first_match take drop same_bytes
second = refl

bytes_split-join_example :
    (pieces : List (List ℕ)) × (bytes_split fields (44 ∷ []) ≡ some pieces)
    × (join (44 ∷ []) pieces ≡ fields)
    × AreLeftmost (44 ∷ []) pieces
    × (bytes_replace fields (44 ∷ []) (59 ∷ 32 ∷ []) ≡ some (join (59 ∷ 32 ∷ []) pieces))
bytes_split-join_example = bytes_split-join (44 ∷ []) (59 ∷ 32 ∷ []) refl fields
