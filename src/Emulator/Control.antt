-- ===== src/Emulator/Control.antt =====
-- src/codegen_t3/emulator/execute.rs: control flow, fetch and decode.
use mani_tc.Prelude.{
  ℕ, ◌+◌, ◌-◌, Bool, true, false, Option, none, some, List, [], ◌∷◌, ltb, leb, if◌then◌else◌,
}
use mani_tc.Prelude.Int.{ℤ, pos, ◌+ℤ◌, ◌-ℤ◌, ◌*ℤ◌, ltb_ℤ, ◌==ℤ◌, quot, rem, pos_part, rem_euclid}
use mani_tc.Prelude.Maps.{update}
use mani_tc.Isa.Word.{clamp27}
use mani_tc.Isa.Opcode.{Opcode, from_i64, uses_wide_immediate}
use mani_tc.Isa.Encoding.{Fields, decode, decode_tlit_imm, wide_address, p18, p3}
use mani_tc.Emulator.State.{
  call_depth_exceeded, stack_pointer_negative, unknown_opcode, register_out_of_range, Emulator,
  trap, as_usize,
}
use mani_tc.Emulator.Sched.{sched_task_exit}
use mani_tc.Emulator.Execute.{saturate, reg_index, exec_arith, exec_lanes, exec_words, exec_memory}

-- The new frame, or a trap; false where the call must not proceed.
unfoldable pub push_call_frame : Emulator → Emulator × Bool
push_call_frame e =
    let deeper = record e { call_depth = e.call_depth + 1 } in
    let sp = clamp27 (e.regs 26 -ℤ pos 1) in
    let pushed = record deeper { call_stack = e.pc ∷ e.call_stack; regs = update e.regs 26 sp } in
    if ltb 10000 (e.call_depth + 1)
    then (trap call_depth_exceeded deeper, false)
    else if ltb_ℤ sp (pos 0)
    then (trap stack_pointer_negative pushed, false)
    else (pushed, true)

abbrev pub jump_if_pushed : ℤ → Emulator × Bool → Emulator
jump_if_pushed addr (e, true) = record e { pc = as_usize addr }
jump_if_pushed addr (e, false) = e

-- RET with the return addresses of the running task.
unfoldable pub return_to : List ℕ → Emulator → Emulator
return_to [] e = sched_task_exit e
return_to (ret_addr ∷ frames) e = record e {
  call_stack = frames;
  call_depth = e.call_depth - 1;
  regs = update e.regs 26 (clamp27 (e.regs 26 +ℤ pos 1));
  pc = ret_addr;
}

abbrev p12 : ℕ
p12 = 531441

abbrev p6 : ℕ
p6 = 729

-- The legacy three-address branch: the addresses for a positive, a zero and a negative word.
unfoldable pub branch_target : ℤ → ℤ → ℤ
branch_target packed cond =
    let addr_pos = quot packed (pos p12) in
    let addr_zero = quot (rem packed (pos p12)) (pos p6) in
    let addr_neg = rem (rem packed (pos p12)) (pos p6) in
    if ltb_ℤ (pos 0) cond then addr_pos else if cond ==ℤ pos 0 then addr_zero else addr_neg

unfoldable pub jump_when : Bool → ℤ → Emulator → Emulator
jump_when test addr e = if test then record e { pc = as_usize addr } else e

-- What is read for the register of a branch is in `cond`.
unfoldable pub exec_control :
    (ℤ → Emulator → Emulator) → Opcode → ℤ → Fields → ℤ → Emulator → Emulator
exec_control do_syscall Opcode.tbranch word f cond e = record e {
  pc = as_usize (branch_target (wide_address word f) cond);
}
exec_control do_syscall Opcode.tbr_pos word f cond e =
    jump_when (ltb_ℤ (pos 0) cond) (wide_address word f) e
exec_control do_syscall Opcode.tbr_zero word f cond e =
    jump_when (cond ==ℤ pos 0) (wide_address word f) e
exec_control do_syscall Opcode.tbr_neg word f cond e =
    jump_when (ltb_ℤ cond (pos 0)) (wide_address word f) e
exec_control do_syscall Opcode.jump word f cond e = record e {
  pc = as_usize (word -ℤ f.op *ℤ pos p18);
}
exec_control do_syscall Opcode.call word f cond e =
    jump_if_pushed (word -ℤ f.op *ℤ pos p18) (push_call_frame e)
exec_control do_syscall Opcode.callr word f cond e = jump_if_pushed cond (push_call_frame e)
exec_control do_syscall Opcode.ret word f cond e = return_to e.call_stack e
exec_control do_syscall Opcode.halt word f cond e = sched_task_exit e
exec_control do_syscall Opcode.syscall word f cond e = do_syscall (decode_tlit_imm word) e
exec_control do_syscall _ word f cond e = e

unfoldable pub execute : (ℤ → Emulator → Emulator) → Opcode → ℤ → Fields → Emulator → Emulator
execute do_syscall op word f e =
    let a = e.regs (reg_index f.r2) in
    let c = e.regs (reg_index f.r3) in
    let rhs_eff = saturate (c +ℤ f.imm) in
    let rb = pos_part (rem_euclid f.imm p3) in
    let d = e.regs (if leb rb 26 then rb else 26) in
    exec_arith op f.r1 a rhs_eff e (
      exec_lanes op f.r1 a rhs_eff c d e (
        exec_words op f.r1 a rhs_eff e (
          exec_memory op word f a e
            (exec_control do_syscall op word f (e.regs (reg_index f.r1)) e))))

-- The first register field that is no register index.
unfoldable pub bad_register : Opcode → Fields → Option ℤ
bad_register op f =
    if uses_wide_immediate op
    then (if ltb_ℤ (pos 26) f.r1 then some f.r1 else none)
    else if ltb_ℤ (pos 26) f.r1
    then some f.r1
    else if ltb_ℤ (pos 26) f.r2
    then some f.r2
    else if ltb_ℤ (pos 26) f.r3
    then some f.r3
    else none

abbrev pub run_checked :
    (ℤ → Emulator → Emulator) → Opcode → ℤ → Fields → Option ℤ → Emulator → Emulator
run_checked do_syscall op word f (some r) e = trap (register_out_of_range r (e.pc - 1) word) e
run_checked do_syscall op word f none e =
    execute do_syscall op word f (record e { total_instructions = e.total_instructions + 1 })

abbrev pub run_decoded :
    (ℤ → Emulator → Emulator) → Option Opcode → ℤ → Fields → Emulator → Emulator
run_decoded do_syscall none word f e = trap (unknown_opcode f.op (e.pc - 1) word) e
run_decoded do_syscall (some op) word f e = run_checked do_syscall op word f (bad_register op f) e

unfoldable pub step : (ℤ → Emulator → Emulator) → Emulator → Emulator
step do_syscall e =
    let word = e.memory e.pc in
    let f = decode word in
    if e.halted
    then e
    else if leb e.mem_len e.pc
    then record e { halted = true }
    else run_decoded do_syscall (from_i64 f.op) word f (record e { pc = e.pc + 1 })
