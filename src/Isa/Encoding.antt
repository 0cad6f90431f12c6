-- ===== src/Isa/Encoding.antt =====
-- The instruction encoding of src/codegen_t3/isa.rs. An assertion that fails is `none`.
pub mod RoundTrip
pub mod Wide
use mani_tc.Prelude.{ℕ, Bool, ◌&&◌, Option, none, some, if◌then◌else◌}
use mani_tc.Prelude.Int.{ℤ, pos, negsuc, ◌+ℤ◌, ◌-ℤ◌, ◌*ℤ◌, leb_ℤ, ltb_ℤ, quot, rem_euclid}
use mani_tc.Isa.Opcode.{Opcode, code}

abbrev pub p18 : ℕ
p18 = 387420489

abbrev pub p13 : ℕ
p13 = 1594323

abbrev pub p8 : ℕ
p8 = 6561

abbrev pub p3 : ℕ
p3 = 27

abbrev pub imm_min : ℤ
imm_min = negsuc 12

abbrev pub imm_max : ℤ
imm_max = pos 13

abbrev pub wide_imm_max : ℕ
wide_imm_max = 797161

abbrev pub in_range : ℤ → ℤ → ℤ → Bool
in_range lo hi v = leb_ℤ lo v && leb_ℤ v hi

abbrev pub is_register : ℤ → Bool
is_register r = in_range (pos 0) (pos 26) r

-- The five fields of an instruction word.
pub record Fields : Type 0 where
  pub op : ℤ
  pub r1 : ℤ
  pub r2 : ℤ
  pub r3 : ℤ
  pub imm : ℤ

unfoldable pub encode : Opcode → ℤ → ℤ → ℤ → ℤ → Option ℤ
encode opcode r1 r2 r3 imm =
    if is_register r1 && is_register r2 && is_register r3 && in_range imm_min imm_max imm
    then some (
        pos (code opcode) *ℤ pos p18
        +ℤ r1 *ℤ pos p13
        +ℤ r2 *ℤ pos p8
        +ℤ r3 *ℤ pos p3
        +ℤ rem_euclid imm p3)
    else none

unfoldable pub encode_wide : Opcode → ℤ → ℤ → Option ℤ
encode_wide opcode r1 wide_imm =
    if is_register r1 && leb_ℤ (negsuc 797160) wide_imm && ltb_ℤ wide_imm (pos p13)
    then some (pos (code opcode) *ℤ pos p18 +ℤ r1 *ℤ pos p13 +ℤ rem_euclid wide_imm p13)
    else none

unfoldable pub decode : ℤ → Fields
decode word =
    let op = quot word (pos p18) in
    let rest₁ = word -ℤ op *ℤ pos p18 in
    let r1 = quot rest₁ (pos p13) in
    let rest₂ = rest₁ -ℤ r1 *ℤ pos p13 in
    let r2 = quot rest₂ (pos p8) in
    let rest₃ = rest₂ -ℤ r2 *ℤ pos p8 in
    let r3 = quot rest₃ (pos p3) in
    let raw = rest₃ -ℤ r3 *ℤ pos p3 in
    record {
      op = op;
      r1 = r1;
      r2 = r2;
      r3 = r3;
      imm = if ltb_ℤ imm_max raw then raw -ℤ pos p3 else raw;
    }

unfoldable pub decode_tlit_imm : ℤ → ℤ
decode_tlit_imm word =
    let op = quot word (pos p18) in
    let rest = word -ℤ op *ℤ pos p18 in
    let r1 = quot rest (pos p13) in
    let raw = rest -ℤ r1 *ℤ pos p13 in
    if ltb_ℤ (quot (pos p13) (pos 2)) raw then raw -ℤ pos p13 else raw

-- The address that a branch or a jump reads from the low 13 trits, in execute.rs:
-- `word - raw_op * P18 - r1 * P13`.
unfoldable pub wide_address : ℤ → Fields → ℤ
wide_address word f = word -ℤ f.op *ℤ pos p18 -ℤ f.r1 *ℤ pos p13
