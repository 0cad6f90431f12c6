-- ===== src/Isa/Encoding/Wide.antt =====
-- The wide immediates of src/codegen_t3/isa.rs: what TLIT and SYSCALL read as a signed number, and
-- what a jump or a branch reads as an address.
use mani_tc.Prelude.{ℕ, ◌+◌, ◌*◌, ◌%◌, ◌≤◌, ◌<◌, ◌≡◌, refl, sym, ◌∙◌, some, arith, if◌then◌else◌}
use mani_tc.Prelude.Int.{ℤ, pos, negsuc, pos_part, ltb_ℤ, ◌≤ℤ◌, ◌+ℤ◌, ◌-ℤ◌, ◌*ℤ◌, quot, rem_euclid}
use mani_tc.Isa.Opcode.{Opcode, code}
use mani_tc.Isa.Encoding.{
  encode_wide, decode, decode_tlit_imm, wide_address, p18, p13, wide_imm_max,
}
use mani_tc.Isa.Encoding.RoundTrip.{IsRegister, take_field, rem_euclid-pos, fields, decode-pos}

wide_word : ℕ → ℕ → ℕ → ℕ
wide_word c a v = c * p18 + a * p13 + v

wide_word_pos : (c a v : ℕ) → pos c *ℤ pos p18 +ℤ pos a *ℤ pos p13 +ℤ pos v ≡ pos (wide_word c a v)
unfolding ◌+ℤ◌ ◌*ℤ◌ wide_word
wide_word_pos c a v = ground arith

rem_euclid_small : (i : ℤ) → pos 0 ≤ℤ i → i ≤ℤ pos 1594322 → rem_euclid i p13 ≡ i
unfolding rem_euclid
rem_euclid_small (pos i) h k = ground arith
rem_euclid_small (negsuc i) h k = absurd (omega arith)

encode_wide-word :
    (op : Opcode) (a v : ℕ) (imm : ℤ)
    → IsRegister (pos a)
    → negsuc 797160 ≤ℤ imm
    → imm ≤ℤ pos 1594322
    → rem_euclid imm p13 ≡ pos v
    → encode_wide op (pos a) imm ≡ some (pos (wide_word (code op) a v))
unfolding encode_wide
encode_wide-word op a v imm ha hl hh e = ground (arith, wide_word_pos (code op) a v)

-- The opcode and the first register of a word with a wide immediate.
wide_head :
    (c a v : ℕ)
    → a ≤ 26
    → v < p13
    → ((decode (pos (wide_word c a v))).op ≡ pos c) × ((decode (pos (wide_word c a v))).r1 ≡ pos a)
unfolding fields wide_word
wide_head c a v ha hv = ground (arith, decode-pos (wide_word c a v))

tlit_imm-pos :
    (n : ℕ)
    → decode_tlit_imm (pos n) ≡ (
        if ltb_ℤ (pos 797161) (pos (n % p18 % p13))
        then pos (n % p18 % p13) -ℤ pos p13
        else pos (n % p18 % p13))
unfolding decode_tlit_imm
tlit_imm-pos n = rw (take_field n p18, take_field (n % p18) p13) (unfold quot in refl)

tlit_imm-word :
    (c a v : ℕ) (imm : ℤ)
    → a ≤ 26
    → negsuc 797160 ≤ℤ imm
    → imm ≤ℤ pos wide_imm_max
    → rem_euclid imm p13 ≡ pos v
    → decode_tlit_imm (pos (wide_word c a v)) ≡ imm
unfolding wide_word rem_euclid ◌-ℤ◌
tlit_imm-word c a v (pos i) ha hl hh e = ground (arith, tlit_imm-pos (wide_word c a v))
tlit_imm-word c a v (negsuc i) ha hl hh e = ground (arith, tlit_imm-pos (wide_word c a v))

wide_address-word :
    (c a v : ℕ)
    → a ≤ 26
    → v < p13
    → wide_address (pos (wide_word c a v)) (decode (pos (wide_word c a v))) ≡ pos v
wide_address-word c a v ha hv =
    let (e, f) = wide_head c a v ha hv in
    unfold wide_address wide_word ◌-ℤ◌ ◌*ℤ◌ in ground (arith, e, f)

-- A register 0 to 26 and a number from -797161 to 797161 are encoded as a wide word, from which the
-- opcode, the register and, as TLIT reads it, the number come back.
pub decode-encode_wide :
    (op : Opcode) (r1 imm : ℤ)
    → IsRegister r1
    → negsuc 797160 ≤ℤ imm
    → imm ≤ℤ pos 797161
    → (w : ℤ) × (encode_wide op r1 imm ≡ some w)
      × ((decode w).op ≡ pos (code op))
      × ((decode w).r1 ≡ r1)
      × (decode_tlit_imm w ≡ imm)
decode-encode_wide op (negsuc a) imm h hl hh = absurd (omega arith)
decode-encode_wide op (pos a) imm h hl hh =
    let (e, l) = rem_euclid-pos imm p13 (omega arith) in
    let v = pos_part (rem_euclid imm p13) in
    let (o, r) = wide_head (code op) a v (omega arith) l in
    (
      pos (wide_word (code op) a v),
      encode_wide-word op a v imm h hl (omega arith) e,
      o,
      r,
      tlit_imm-word (code op) a v imm (omega arith) hl hh e,
    )

-- A register 0 to 26 and an address from 0 to 3^13 - 1 are encoded as a wide word, from which the
-- opcode, the register and, as a jump or a branch reads it, the address come back.
pub wide_address-encode_wide :
    (op : Opcode) (r1 imm : ℤ)
    → IsRegister r1
    → pos 0 ≤ℤ imm
    → imm ≤ℤ pos 1594322
    → (w : ℤ) × (encode_wide op r1 imm ≡ some w)
      × ((decode w).op ≡ pos (code op))
      × ((decode w).r1 ≡ r1)
      × (wide_address w (decode w) ≡ imm)
wide_address-encode_wide op (negsuc a) imm h hl hh = absurd (omega arith)
wide_address-encode_wide op (pos a) imm h hl hh =
    let (e, l) = rem_euclid-pos imm p13 (omega arith) in
    let v = pos_part (rem_euclid imm p13) in
    let (o, r) = wide_head (code op) a v (omega arith) l in
    (
      pos (wide_word (code op) a v),
      encode_wide-word op a v imm h (omega arith) hh e,
      o,
      r,
      wide_address-word (code op) a v (omega arith) l ∙ sym e ∙ rem_euclid_small imm hl hh,
    )
