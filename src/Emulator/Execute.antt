-- ===== src/Emulator/Execute.antt =====
-- src/codegen_t3/emulator/execute.rs: one instruction of the machine. The syscall handler, which
-- is `do_syscall` of syscalls.rs, is a parameter.
use Prim.Native.Nat.{bit_and, bit_or, bit_xor}
use mani_tc.Prelude.{ℕ, ◌-◌, ◌/◌, ◌^◌, Bool, ◌&&◌, ltb, leb, ◌==◌, if◌then◌else◌}
use mani_tc.Prelude.Int.{
  ℤ, pos, negsuc, pos_part, ◌+ℤ◌, ◌-ℤ◌, ◌*ℤ◌, neg_ℤ, leb_ℤ, ◌==ℤ◌, min_ℤ, max_ℤ, clamp, quot, rem,
  div_euclid, rem_euclid,
}
use mani_tc.Prelude.Maps.{update}
use mani_tc.Isa.Word.{t3_min, t3_max, clamp27, sign_i64}
use mani_tc.Isa.Trits.{trits27, from_trits27}
use mani_tc.Isa.Opcode.{Opcode}
use mani_tc.Isa.Lanes.{lanewise2, trit_imp, trit_xor, trit_cmp, select_lanes, count_lanes}
use mani_tc.Isa.Encoding.{Fields, decode_tlit_imm}
use mani_tc.Lang.{i64_min, i64_max, wrap64, div_nearest, rem_balanced}
use mani_tc.Emulator.State.{
  Message, overflow_add, overflow_sub, overflow_mul, overflow_div, overflow_rem, division_by_zero,
  modulo_by_zero, store_in_image, Emulator, trap, as_usize, read, write,
}

-- `saturating_add` and the others: a result past 64 bits is the bound that it passes.
unfoldable pub saturate : ℤ → ℤ
saturate v = clamp i64_min i64_max v

-- `(r as usize).min(26)`.
unfoldable pub reg_index : ℤ → ℕ
reg_index r = let i = as_usize r in if leb i 26 then i else 26

-- `wreg!`: R0 is never written.
unfoldable pub wreg : ℤ → ℤ → Emulator → Emulator
wreg r v e =
    if as_usize r == 0 then e else record e { regs = update e.regs (reg_index r) (clamp27 v) }

unfoldable pub set_flags : ℤ → Emulator → Emulator
set_flags v e = record e { flags = sign_i64 v }

abbrev pub finish : ℤ → ℤ → Emulator → Emulator
finish r1 v e = wreg r1 v (set_flags v e)

-- The range test of `checked27`.
abbrev pub fits : ℤ → Bool
fits v = leb_ℤ t3_min v && leb_ℤ v t3_max

-- `checked27`, with the two writes that follow where it does not trap.
unfoldable pub finish_checked : (ℤ → Message) → ℤ → ℤ → Emulator → Emulator
finish_checked what r1 v e = if fits v then finish r1 v e else trap (what v) e

-- TADD to TMODN: r1 is the target, a and b the operands.
unfoldable pub exec_arith : Opcode → ℤ → ℤ → ℤ → Emulator → Emulator → Emulator
exec_arith Opcode.tadd r1 a b e next = finish_checked overflow_add r1 (saturate (a +ℤ b)) e
exec_arith Opcode.tsub r1 a b e next = finish_checked overflow_sub r1 (saturate (a -ℤ b)) e
exec_arith Opcode.tmul r1 a b e next = finish_checked overflow_mul r1 (saturate (a *ℤ b)) e
exec_arith Opcode.tdiv r1 a b e next =
    if b ==ℤ pos 0 then trap division_by_zero e else finish r1 (clamp27 (quot a b)) e
exec_arith Opcode.tmod r1 a b e next =
    if b ==ℤ pos 0 then trap modulo_by_zero e else finish r1 (clamp27 (rem a b)) e
exec_arith Opcode.tdivn r1 a b e next =
    if b ==ℤ pos 0
    then trap division_by_zero e
    else finish_checked overflow_div r1 (div_nearest a b) e
exec_arith Opcode.tmodn r1 a b e next =
    if b ==ℤ pos 0
    then trap modulo_by_zero e
    else finish_checked overflow_rem r1 (rem_balanced a b) e
exec_arith Opcode.tneg r1 a b e next = finish r1 (clamp27 (neg_ℤ a)) e
exec_arith Opcode.tand r1 a b e next = finish r1 (min_ℤ a b) e
exec_arith Opcode.tor r1 a b e next = finish r1 (max_ℤ a b) e
exec_arith Opcode.tnot r1 a b e next = finish r1 (clamp27 (neg_ℤ a)) e
exec_arith _ r1 a b e next = next

-- TANDW to TSELW; c is the word in R3, and d the word in the register that TSELW's immediate names.
unfoldable pub exec_lanes : Opcode → ℤ → ℤ → ℤ → ℤ → ℤ → Emulator → Emulator → Emulator
exec_lanes Opcode.tandw r1 a b c d e next = finish r1 (lanewise2 min_ℤ a b) e
exec_lanes Opcode.torw r1 a b c d e next = finish r1 (lanewise2 max_ℤ a b) e
exec_lanes Opcode.txorw r1 a b c d e next = finish r1 (lanewise2 trit_xor a b) e
exec_lanes Opcode.timpw r1 a b c d e next = finish r1 (lanewise2 trit_imp a b) e
exec_lanes Opcode.tcmpw r1 a b c d e next = finish r1 (lanewise2 trit_cmp a b) e
exec_lanes Opcode.tpopc r1 a b c d e next =
    finish r1 (pos (count_lanes (clamp (negsuc 0) (pos 1) b) (trits27 a))) e
exec_lanes Opcode.tselw r1 a b c d e next =
    finish r1 (from_trits27 (select_lanes (trits27 a) (trits27 c) (trits27 d))) e
exec_lanes _ r1 a b c d e next = next

-- The amount of a shift, `rhs_eff.clamp(0, limit) as u32`.
unfoldable pub shift_amount : ℕ → ℤ → ℕ
shift_amount limit b = pos_part (clamp (pos 0) (pos limit) b)

-- An `i64` as its 64 bits, and back.
unfoldable pub bits64 : ℤ → ℕ
bits64 v = pos_part (rem_euclid v 18446744073709551616)

unfoldable pub of_bits64 : ℕ → ℤ
of_bits64 n = if ltb n 9223372036854775808 then pos n else negsuc (18446744073709551615 - n)

-- Dropping n low trits rounds to the nearest multiple.
unfoldable pub shift_right : ℤ → ℕ → ℤ
shift_right a n = let p = 3 ^ n in div_euclid (a +ℤ pos ((p - 1) / 2)) p

-- TSHI to TCMP.
unfoldable pub exec_words : Opcode → ℤ → ℤ → ℤ → Emulator → Emulator → Emulator
exec_words Opcode.tshi r1 a b e next =
    finish_checked overflow_mul r1 (saturate (a *ℤ pos (3 ^ shift_amount 26 b))) e
exec_words Opcode.tshr r1 a b e next = finish r1 (clamp27 (shift_right a (shift_amount 26 b))) e
exec_words Opcode.tmin r1 a b e next = wreg r1 (min_ℤ a b) e
exec_words Opcode.tmax r1 a b e next = wreg r1 (max_ℤ a b) e
exec_words Opcode.band r1 a b e next =
    finish r1 (clamp27 (of_bits64 (bit_and (bits64 a) (bits64 b)))) e
exec_words Opcode.bor r1 a b e next =
    finish r1 (clamp27 (of_bits64 (bit_or (bits64 a) (bits64 b)))) e
exec_words Opcode.bxor r1 a b e next =
    finish r1 (clamp27 (of_bits64 (bit_xor (bits64 a) (bits64 b)))) e
exec_words Opcode.bshl r1 a b e next =
    finish r1 (clamp27 (wrap64 (a *ℤ pos (2 ^ shift_amount 63 b)))) e
exec_words Opcode.bshr r1 a b e next = finish r1 (clamp27 (div_euclid a (2 ^ shift_amount 63 b))) e
exec_words Opcode.tcmp r1 a b e next =
    let v = sign_i64 (a -ℤ b) in wreg r1 v (record e { flags = v })
exec_words _ r1 a b e next = next

-- `if sr1 != 0 { self.regs[sr1] = v }`, with no clamp.
unfoldable pub load_reg : ℕ → ℤ → Emulator → Emulator
load_reg r v e = if r == 0 then e else record e { regs = update e.regs r v }

-- LOAD to STORET, TLIT and MOV; base is the word in R2.
unfoldable pub exec_memory : Opcode → ℤ → Fields → ℤ → Emulator → Emulator → Emulator
exec_memory Opcode.load word f base e next =
    load_reg (reg_index f.r1) (read e (as_usize (base +ℤ f.imm))) e
exec_memory Opcode.store word f base e next =
    let addr = as_usize (base +ℤ f.imm) in
    if ltb addr e.program_words
    then trap (store_in_image addr e.program_words) e
    else write addr (e.regs (reg_index f.r1)) e
exec_memory Opcode.tlit word f base e next = wreg f.r1 (decode_tlit_imm word) e
exec_memory Opcode.mov word f base e next = load_reg (reg_index f.r1) base e
exec_memory Opcode.loadt word f base e next =
    let trit = clamp (negsuc 0) (pos 1) (read e (as_usize (base +ℤ f.imm))) in
    set_flags trit (load_reg (reg_index f.r1) trit e)
exec_memory Opcode.storet word f base e next =
    write (as_usize (base +ℤ f.imm)) (clamp (negsuc 0) (pos 1) (e.regs (reg_index f.r1))) e
exec_memory _ word f base e next = next
