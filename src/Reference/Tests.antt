-- ===== src/Reference/Tests.antt =====
-- The reference beside the machine, at concrete operands.
use mani_tc.Prelude.{arith}
use mani_tc.Prelude.Int.{pos, negsuc}
use mani_tc.Isa.Opcode
use mani_tc.Emulator.State.{initial}
use mani_tc.Emulator.Execute.{exec_arith, exec_lanes}
use mani_tc.Reference.Bin.{Bin}
use mani_tc.Reference.Ops.{v1, v2, int, apply}
use mani_tc.Reference.Machine.{Matches, arithmetic-Matches, lane_wise-Matches}

arithmetic-Matches_example :
    Matches
      (apply v1 Bin.add (int (pos 7)) (int (negsuc 1)))
      2
      initial
      (exec_arith Opcode.tadd (pos 3) (pos 7) (negsuc 1) initial initial)
    × Matches
        (apply v1 Bin.sub (int (pos 7)) (int (negsuc 1)))
        2
        initial
        (exec_arith Opcode.tsub (pos 3) (pos 7) (negsuc 1) initial initial)
    × Matches
        (apply v1 Bin.mul (int (pos 7)) (int (negsuc 1)))
        2
        initial
        (exec_arith Opcode.tmul (pos 3) (pos 7) (negsuc 1) initial initial)
    × Matches
        (apply v1 Bin.div (int (pos 7)) (int (negsuc 1)))
        2
        initial
        (exec_arith Opcode.tdiv (pos 3) (pos 7) (negsuc 1) initial initial)
    × Matches
        (apply v1 Bin.rem (int (pos 7)) (int (negsuc 1)))
        2
        initial
        (exec_arith Opcode.tmod (pos 3) (pos 7) (negsuc 1) initial initial)
    × Matches
        (apply v2 Bin.div (int (pos 7)) (int (negsuc 1)))
        2
        initial
        (exec_arith Opcode.tdivn (pos 3) (pos 7) (negsuc 1) initial initial)
    × Matches
        (apply v2 Bin.rem (int (pos 7)) (int (negsuc 1)))
        2
        initial
        (exec_arith Opcode.tmodn (pos 3) (pos 7) (negsuc 1) initial initial)
arithmetic-Matches_example =
    arithmetic-Matches 2 (pos 7) (negsuc 1) initial initial (omega arith) (omega arith)
      (omega arith) v1

lane_wise-Matches_example :
    Matches
      (apply v1 Bin.tandw (int (pos 7)) (int (negsuc 1)))
      2
      initial
      (exec_lanes Opcode.tandw (pos 3) (pos 7) (negsuc 1) (pos 0) (pos 0) initial initial)
    × Matches
        (apply v1 Bin.torw (int (pos 7)) (int (negsuc 1)))
        2
        initial
        (exec_lanes Opcode.torw (pos 3) (pos 7) (negsuc 1) (pos 0) (pos 0) initial initial)
    × Matches
        (apply v1 Bin.txorw (int (pos 7)) (int (negsuc 1)))
        2
        initial
        (exec_lanes Opcode.txorw (pos 3) (pos 7) (negsuc 1) (pos 0) (pos 0) initial initial)
    × Matches
        (apply v1 Bin.timpw (int (pos 7)) (int (negsuc 1)))
        2
        initial
        (exec_lanes Opcode.timpw (pos 3) (pos 7) (negsuc 1) (pos 0) (pos 0) initial initial)
    × Matches
        (apply v1 Bin.tcmpw (int (pos 7)) (int (negsuc 1)))
        2
        initial
        (exec_lanes Opcode.tcmpw (pos 3) (pos 7) (negsuc 1) (pos 0) (pos 0) initial initial)
lane_wise-Matches_example =
    lane_wise-Matches 2 (pos 7) (negsuc 1) initial initial (omega arith) (omega arith) (omega arith)
      v1 (pos 0) (pos 0)
