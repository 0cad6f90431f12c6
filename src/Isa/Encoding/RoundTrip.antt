-- ===== src/Isa/Encoding/RoundTrip.antt =====
-- The five-field instruction words of src/codegen_t3/isa.rs, encoded and decoded.
use mani_tc.Prelude.{ℕ, ◌+◌, ◌*◌, ◌/◌, ◌%◌, ◌≤◌, ◌<◌, ◌≡◌, refl, ap, some, arith, if◌then◌else◌}
use mani_tc.Prelude.Int.{
  ℤ, pos, negsuc, pos_part, ltb_ℤ, ◌≤ℤ◌, ◌+ℤ◌, ◌-ℤ◌, ◌*ℤ◌, quot, rem_euclid, -ℤ_parts, *ℤ_parts,
  eq_of_parts,
}
use mani_tc.Isa.Opcode.{Opcode, code}
use mani_tc.Isa.Opcode.Table.{code-injective}
use mani_tc.Isa.Encoding.{Fields, encode, decode, p18, p13, p8, p3}

-- The remainder left by one field.
pub take_field : (n k : ℕ) → pos n -ℤ quot (pos n) (pos k) *ℤ pos k ≡ pos (n % k)
unfolding quot
take_field n k =
    eq_of_parts _ _
      (grind (arith, -ℤ_parts (pos n) (pos (n / k) *ℤ pos k), *ℤ_parts (pos (n / k)) (pos k)))

-- The signed immediate that a raw 3-trit field stands for.
balance : ℕ → ℤ
balance raw = if ltb_ℤ (pos 13) (pos raw) then pos raw -ℤ pos p3 else pos raw

unfoldable pub fields : ℕ → Fields
unfolding balance
fields n = record {
  op = pos (n / p18);
  r1 = pos (n % p18 / p13);
  r2 = pos (n % p18 % p13 / p8);
  r3 = pos (n % p18 % p13 % p8 / p3);
  imm = balance (n % p18 % p13 % p8 % p3);
}

pub decode-pos : (n : ℕ) → decode (pos n) ≡ fields n
unfolding decode fields
decode-pos n =
    rw
      (
        take_field n p18,
        take_field (n % p18) p13,
        take_field (n % p18 % p13) p8,
        take_field (n % p18 % p13 % p8) p3,
      )
      (unfold quot balance in refl)

word_pos :
    (c a b d i : ℕ)
    → pos c *ℤ pos p18 +ℤ pos a *ℤ pos p13 +ℤ pos b *ℤ pos p8 +ℤ pos d *ℤ pos p3 +ℤ pos i
      ≡ pos (c * p18 + a * p13 + b * p8 + d * p3 + i)
unfolding ◌+ℤ◌ ◌*ℤ◌
word_pos c a b d i = ground arith

-- A register index, and an immediate of three balanced trits.
abbrev pub IsRegister : ℤ → Type 0
IsRegister r = (pos 0 ≤ℤ r) × (r ≤ℤ pos 26)

abbrev pub IsImm : ℤ → Type 0
IsImm i = (negsuc 12 ≤ℤ i) × (i ≤ℤ pos 13)

balance-rem_euclid : (i : ℤ) → IsImm i → balance (pos_part (rem_euclid i p3)) ≡ i
unfolding balance rem_euclid ◌-ℤ◌
balance-rem_euclid (pos i) h = ground arith
balance-rem_euclid (negsuc i) h = ground arith

pub rem_euclid-pos :
    (i : ℤ) (k : ℕ)
    → 0 < k
    → (rem_euclid i k ≡ pos (pos_part (rem_euclid i k))) × (pos_part (rem_euclid i k) < k)
unfolding rem_euclid
rem_euclid-pos (pos i) k h = (refl, grind arith)
rem_euclid-pos (negsuc i) k h = (refl, grind arith)

word : Opcode → ℕ → ℕ → ℕ → ℕ → ℕ
word op a b d i = code op * p18 + a * p13 + b * p8 + d * p3 + i

fields-word :
    (op : Opcode) (a b d i : ℕ)
    → a ≤ 26
    → b ≤ 26
    → d ≤ 26
    → i < 27
    → fields (word op a b d i)
      ≡ record { op = pos (code op); r1 = pos a; r2 = pos b; r3 = pos d; imm = balance i }
unfolding fields word
fields-word op a b d i ha hb hd hi = ground arith

encode-word :
    (op : Opcode) (a b d : ℕ) (imm : ℤ)
    → IsRegister (pos a)
    → IsRegister (pos b)
    → IsRegister (pos d)
    → IsImm imm
    → rem_euclid imm p3 ≡ pos (pos_part (rem_euclid imm p3))
    → encode op (pos a) (pos b) (pos d) imm
      ≡ some (pos (word op a b d (pos_part (rem_euclid imm p3))))
unfolding encode word
encode-word op a b d imm h1 h2 h3 hi e =
    ground (arith, word_pos (code op) a b d (pos_part (rem_euclid imm p3)))

-- An instruction whose register fields are 0 to 26 and whose immediate is -13 to 13 is encoded,
-- and decoding the word gives its opcode number and its four operands back.
pub decode-encode :
    (op : Opcode) (r1 r2 r3 imm : ℤ)
    → IsRegister r1
    → IsRegister r2
    → IsRegister r3
    → IsImm imm
    → (w : ℤ) × (encode op r1 r2 r3 imm ≡ some w)
      × (decode w ≡ record { op = pos (code op); r1 = r1; r2 = r2; r3 = r3; imm = imm })
decode-encode op (pos a) (pos b) (pos d) imm h1 h2 h3 hi =
    let (e, l) = rem_euclid-pos imm p3 (omega arith) in
    let i = pos_part (rem_euclid imm p3) in
    (
      pos (word op a b d i),
      encode-word op a b d imm h1 h2 h3 hi e,
      cc (
        decode-pos (word op a b d i),
        fields-word op a b d i (omega arith) (omega arith) (omega arith) l,
        balance-rem_euclid imm hi,
      ),
    )
decode-encode op (negsuc a) r2 r3 imm h1 h2 h3 hi = absurd (omega arith)
decode-encode op (pos a) (negsuc b) r3 imm h1 h2 h3 hi = absurd (omega arith)
decode-encode op (pos a) (pos b) (negsuc d) imm h1 h2 h3 hi = absurd (omega arith)

-- An instruction that is encoded has register fields 0 to 26 and an immediate -13 to 13.
pub encode-eq-some :
    (op : Opcode) (r1 r2 r3 imm w : ℤ)
    → encode op r1 r2 r3 imm ≡ some w
    → IsRegister r1 × IsRegister r2 × IsRegister r3 × IsImm imm
unfolding encode
encode-eq-some op r1 r2 r3 imm w h = ground arith

-- Where two instructions are encoded as the same word, their opcodes and all four operands are
-- equal.
pub encode-injective :
    (op op' : Opcode) (r1 r2 r3 imm r1' r2' r3' imm' w : ℤ)
    → encode op r1 r2 r3 imm ≡ some w
    → encode op' r1' r2' r3' imm' ≡ some w
    → (op ≡ op') × (r1 ≡ r1') × (r2 ≡ r2') × (r3 ≡ r3') × (imm ≡ imm')
encode-injective op op' r1 r2 r3 imm r1' r2' r3' imm' w h h' =
    let (v1, v2, v3, vi) = encode-eq-some op r1 r2 r3 imm w h in
    let (v1', v2', v3', vi') = encode-eq-some op' r1' r2' r3' imm' w h' in
    let (u, e, d) = decode-encode op r1 r2 r3 imm v1 v2 v3 vi in
    let (u', e', d') = decode-encode op' r1' r2' r3' imm' v1' v2' v3' vi' in
    let same : u ≡ u' = cc in
    let f : decode u ≡ decode u' = ap decode same in (code-injective op op' (cc), cc, cc, cc, cc)
