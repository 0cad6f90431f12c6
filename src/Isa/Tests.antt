-- ===== src/Isa/Tests.antt =====
-- The instruction set: runs of the codecs, and the theorems at concrete words.
use mani_tc.Prelude.{◌≡◌, refl, some, List, [], ◌∷◌, zip_with, arith}
use mani_tc.Prelude.Int.{ℤ, pos, negsuc, min_ℤ, rem_euclid, ◌+ℤ◌, ◌*ℤ◌}
use mani_tc.Isa.Word.{IsWord, clamp27}
use mani_tc.Isa.Trits.{trits27, trits_loop, from_trits27, from_trits_loop, from_trits27-trits27}
use mani_tc.Isa.Opcode.{Opcode, code}
use mani_tc.Isa.Lanes.{lanewise2}
use mani_tc.Isa.Lanes.Laws.{IsLaneOp, trits27-lanewise2}
use mani_tc.Isa.Encoding.{encode, encode_wide, decode, decode_tlit_imm}
use mani_tc.Isa.Encoding.RoundTrip.{decode-encode}
use mani_tc.Isa.Encoding.Wide.{decode-encode_wide}

-- The 27 trits of 5, least significant first.
abbrev five : List ℤ
five =
    negsuc 0
    ∷ negsuc 0
    ∷ pos 1
    ∷ pos 0
    ∷ pos 0
    ∷ pos 0
    ∷ pos 0
    ∷ pos 0
    ∷ pos 0
    ∷ pos 0
    ∷ pos 0
    ∷ pos 0
    ∷ pos 0
    ∷ pos 0
    ∷ pos 0
    ∷ pos 0
    ∷ pos 0
    ∷ pos 0
    ∷ pos 0
    ∷ pos 0
    ∷ pos 0
    ∷ pos 0
    ∷ pos 0
    ∷ pos 0
    ∷ pos 0
    ∷ pos 0
    ∷ pos 0
    ∷ []

trits_of_five : trits27 (pos 5) ≡ five
unfolding trits27 trits_loop clamp27 ◌+ℤ◌
trits_of_five = refl

sub_word : encode Opcode.tsub (pos 1) (pos 2) (pos 26) (negsuc 12) ≡ some (pos 776449139)
unfolding encode ◌+ℤ◌ ◌*ℤ◌ code rem_euclid
sub_word = refl

from_trits27-trits27_example :
    from_trits27 (trits27 (pos 9000000000000)) ≡ clamp27 (pos 9000000000000)
from_trits27-trits27_example = from_trits27-trits27 (pos 9000000000000)

min-IsLaneOp : IsLaneOp min_ℤ
unfolding min_ℤ
min-IsLaneOp a b ha hb = ground arith

trits27-lanewise2_example :
    (trits27 (lanewise2 min_ℤ (pos 5) (negsuc 7))
      ≡ zip_with min_ℤ (trits27 (pos 5)) (trits27 (negsuc 7)))
    × IsWord (from_trits_loop (zip_with min_ℤ (trits27 (pos 5)) (trits27 (negsuc 7))))
trits27-lanewise2_example = trits27-lanewise2 min_ℤ min-IsLaneOp (pos 5) (negsuc 7)

decode-encode_example :
    (w : ℤ) × (encode Opcode.tsub (pos 1) (pos 2) (pos 26) (negsuc 12) ≡ some w)
    × (decode w ≡ record {
      op = pos (code Opcode.tsub);
      r1 = pos 1;
      r2 = pos 2;
      r3 = pos 26;
      imm = negsuc 12;
    })
decode-encode_example =
    decode-encode Opcode.tsub (pos 1) (pos 2) (pos 26) (negsuc 12) (omega arith) (omega arith)
      (omega arith) (omega arith)

decode-encode_wide_example :
    (w : ℤ) × (encode_wide Opcode.tlit (pos 3) (negsuc 797160) ≡ some w)
    × ((decode w).op ≡ pos (code Opcode.tlit))
    × ((decode w).r1 ≡ pos 3)
    × (decode_tlit_imm w ≡ negsuc 797160)
decode-encode_wide_example =
    decode-encode_wide Opcode.tlit (pos 3) (negsuc 797160) (omega arith) (omega arith) (omega arith)
