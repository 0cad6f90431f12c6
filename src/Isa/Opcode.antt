-- ===== src/Isa/Opcode.antt =====
-- The opcode table of src/codegen_t3/isa.rs.
pub mod Table
use mani_tc.Prelude.{ℕ, Bool, true, false, Option, none, some, if◌then◌else◌}
use mani_tc.Prelude.Int.{ℤ, pos, ◌==ℤ◌}

pub data Opcode : Type 0 where
  nop tadd tsub tmul tdiv tmod tneg tand tor : Opcode
  tnot tshi tshr tmin tmax tcmp load store tlit : Opcode
  mov tbranch jump call ret halt syscall tbr_pos tbr_zero : Opcode
  tbr_neg callr band bor bxor bshl bshr loadt storet : Opcode
  tandw torw txorw timpw tcmpw tpopc tselw tdivn tmodn : Opcode

abbrev pub t3_opcode_count : ℕ
t3_opcode_count = 45

-- The discriminant, `opcode as i64`.
unfoldable pub code : Opcode → ℕ
code nop = 0
code tadd = 1
code tsub = 2
code tmul = 3
code tdiv = 4
code tmod = 5
code tneg = 6
code tand = 7
code tor = 8
code tnot = 9
code tshi = 10
code tshr = 11
code tmin = 12
code tmax = 13
code tcmp = 14
code load = 15
code store = 16
code tlit = 17
code mov = 18
code tbranch = 19
code jump = 20
code call = 21
code ret = 22
code halt = 23
code syscall = 24
code tbr_pos = 25
code tbr_zero = 26
code tbr_neg = 27
code callr = 28
code band = 29
code bor = 30
code bxor = 31
code bshl = 32
code bshr = 33
code loadt = 34
code storet = 35
code tandw = 36
code torw = 37
code txorw = 38
code timpw = 39
code tcmpw = 40
code tpopc = 41
code tselw = 42
code tdivn = 43
code tmodn = 44

unfoldable pub from_i64 : ℤ → Option Opcode
from_i64 v =
    if v ==ℤ pos 0
    then some nop
    else if v ==ℤ pos 1
    then some tadd
    else if v ==ℤ pos 2
    then some tsub
    else if v ==ℤ pos 3
    then some tmul
    else if v ==ℤ pos 4
    then some tdiv
    else if v ==ℤ pos 5
    then some tmod
    else if v ==ℤ pos 6
    then some tneg
    else if v ==ℤ pos 7
    then some tand
    else if v ==ℤ pos 8
    then some tor
    else if v ==ℤ pos 9
    then some tnot
    else if v ==ℤ pos 10
    then some tshi
    else if v ==ℤ pos 11
    then some tshr
    else if v ==ℤ pos 12
    then some tmin
    else if v ==ℤ pos 13
    then some tmax
    else if v ==ℤ pos 14
    then some tcmp
    else if v ==ℤ pos 15
    then some load
    else if v ==ℤ pos 16
    then some store
    else if v ==ℤ pos 17
    then some tlit
    else if v ==ℤ pos 18
    then some mov
    else if v ==ℤ pos 19
    then some tbranch
    else if v ==ℤ pos 20
    then some jump
    else if v ==ℤ pos 21
    then some call
    else if v ==ℤ pos 22
    then some ret
    else if v ==ℤ pos 23
    then some halt
    else if v ==ℤ pos 24
    then some syscall
    else if v ==ℤ pos 25
    then some tbr_pos
    else if v ==ℤ pos 26
    then some tbr_zero
    else if v ==ℤ pos 27
    then some tbr_neg
    else if v ==ℤ pos 28
    then some callr
    else if v ==ℤ pos 29
    then some band
    else if v ==ℤ pos 30
    then some bor
    else if v ==ℤ pos 31
    then some bxor
    else if v ==ℤ pos 32
    then some bshl
    else if v ==ℤ pos 33
    then some bshr
    else if v ==ℤ pos 34
    then some loadt
    else if v ==ℤ pos 35
    then some storet
    else if v ==ℤ pos 36
    then some tandw
    else if v ==ℤ pos 37
    then some torw
    else if v ==ℤ pos 38
    then some txorw
    else if v ==ℤ pos 39
    then some timpw
    else if v ==ℤ pos 40
    then some tcmpw
    else if v ==ℤ pos 41
    then some tpopc
    else if v ==ℤ pos 42
    then some tselw
    else if v ==ℤ pos 43
    then some tdivn
    else if v ==ℤ pos 44
    then some tmodn
    else none

-- The instructions whose low trits are immediate digits, not register indices.
unfoldable pub uses_wide_immediate : Opcode → Bool
uses_wide_immediate tlit = true
uses_wide_immediate jump = true
uses_wide_immediate call = true
uses_wide_immediate syscall = true
uses_wide_immediate tbr_pos = true
uses_wide_immediate tbr_zero = true
uses_wide_immediate tbr_neg = true
uses_wide_immediate tbranch = true
uses_wide_immediate _ = false
