-- ===== src/Emulator/Tests.antt =====
-- The machine: runs of a step, and the theorems at concrete machines.
use mani_tc.Prelude.{
  some, inl, inr, ◌≤◌, ◌<◌, ◌^◌, ◌≡◌, refl, true, false, [], ◌∷◌, ltb, ◌==◌, arith, if◌then◌else◌,
}
use mani_tc.Prelude.Int.{quot, ◌≤ℤ◌, pos, negsuc, ◌+ℤ◌, ◌-ℤ◌, ◌*ℤ◌}
use mani_tc.Prelude.Maps.{lookup, count}
use mani_tc.Isa.Word.{IsWord}
use mani_tc.Isa.Opcode
use mani_tc.Isa.Opcode.{from_i64}
use mani_tc.Isa.Encoding.{Fields, decode}
use mani_tc.Emulator.State.{SavedTask, Emulator, initial, stack_base, as_usize}
use mani_tc.Emulator.Switch.{save_current}
use mani_tc.Emulator.Sched.{
  sched_fork, sched_yield, sched_block_on, sched_block_on_send, sched_await, sched_wake_one,
  sched_wake_one_sender, sched_wake_all,
}
use mani_tc.Emulator.Sched.Tasks.{population, waiting}
use mani_tc.Emulator.Sched.Moves.{population_kept}
use mani_tc.Emulator.Sched.Saved.{IsHeld}
use mani_tc.Emulator.Sched.Held.{EndsOrHeld, operations-EndsOrHeld}
use mani_tc.Emulator.Sched.Turns.{yields, Resumes, yields-Resumes}
use mani_tc.Emulator.Execute.{exec_arith, exec_words, exec_memory, shift_amount}
use mani_tc.Emulator.Control.{push_call_frame, return_to, step}
use mani_tc.Emulator.Invariant.{IsValid}
use mani_tc.Emulator.Channels.{do_syscall_tasks}
use mani_tc.Emulator.Invariant.Step.{at_syscall, step-IsValid}
use mani_tc.Emulator.Exact.{IsExact, arith-IsExact, store_keeps_image, return_to-push_call_frame}

-- A machine with the program `TADD R1, R1, R0` (the word 1 * 3^18 + 1 * 3^13 + 1 * 3^8) at
-- address 0, the number 5 in R1 and the stack pointer at the stack base.
abbrev machine : Emulator
machine = record initial {
  regs = λ r. if r == 26 then pos stack_base else if r == 1 then pos 5 else pos 0;
  memory = λ a. if a == 0 then pos 389021373 else pos 0;
  program_words = 1;
}

machine-IsValid : IsValid machine
unfolding lookup
machine-IsValid = record {
  regs_ok = (λ r. ground arith, refl);
  memory_ok = λ a. ground arith;
  flags_ok = omega arith;
  saved_ok = λ t s e. cc;
  exit_ok = λ c e. cc;
}

machine-at_syscall : at_syscall machine ≡ false
unfolding decode from_i64 quot
machine-at_syscall = refl

step-IsValid_example : IsValid (step (do_syscall_tasks (λ num e. e)) machine)
step-IsValid_example =
    step-IsValid (do_syscall_tasks (λ num e. e)) machine machine-at_syscall machine-IsValid

arith-IsExact_example :
    IsExact
      (pos 5 +ℤ negsuc 2)
      2
      machine
      (exec_arith Opcode.tadd (pos 3) (pos 5) (negsuc 2) machine machine)
    × IsExact
        (pos 5 -ℤ negsuc 2)
        2
        machine
        (exec_arith Opcode.tsub (pos 3) (pos 5) (negsuc 2) machine machine)
    × IsExact
        (pos 5 *ℤ negsuc 2)
        2
        machine
        (exec_arith Opcode.tmul (pos 3) (pos 5) (negsuc 2) machine machine)
    × IsExact
        (pos 5 *ℤ pos (3 ^ shift_amount 26 (negsuc 2)))
        2
        machine
        (exec_words Opcode.tshi (pos 3) (pos 5) (negsuc 2) machine machine)
arith-IsExact_example = arith-IsExact 2 (pos 5) (negsuc 2) machine machine (omega arith)

-- STORE or STORET of R1 at the address R0 + 0.
abbrev at_zero : Fields
at_zero = record { op = pos 0; r1 = pos 1; r2 = pos 0; r3 = pos 0; imm = pos 0 }

store_keeps_image_example :
    ((exec_memory Opcode.store (pos 0) at_zero (pos 0) machine machine).memory 0 ≡ machine.memory 0)
    × ((exec_memory Opcode.store (pos 0) at_zero (pos 0) machine machine).trapped
        ≡ (if ltb (as_usize (pos 0 +ℤ pos 0)) 1 then true else machine.trapped))
store_keeps_image_example =
    store_keeps_image (pos 0) at_zero (pos 0) machine machine 0 (omega arith)

shallow : machine.call_depth < 10000
shallow = omega arith

some_stack : pos 1 ≤ℤ machine.regs 26
some_stack = omega arith

stack-IsWord : IsWord (machine.regs 26)
stack-IsWord = machine-IsValid.regs_ok.0 26

return_to-push_call_frame_example :
    ((push_call_frame machine).1 ≡ true)
    × ((push_call_frame machine).0.call_stack ≡ 0 ∷ [])
    × ((return_to (0 ∷ []) (push_call_frame machine).0).regs ≡ machine.regs)
    × ((return_to (0 ∷ []) (push_call_frame machine).0).call_stack ≡ [])
    × ((return_to (0 ∷ []) (push_call_frame machine).0).call_depth ≡ 0)
    × ((return_to (0 ∷ []) (push_call_frame machine).0).pc ≡ 0)
return_to-push_call_frame_example =
    return_to-push_call_frame machine shallow some_stack stack-IsWord

-- A machine with three tasks: 0 runs, 2 waits its turn and 1 waits for a value on channel 4.
abbrev tasks : Emulator
tasks = record machine {
  sched = record (machine.sched) {
    run = 0 ∷ 2 ∷ [];
    blocked = (4, 1 ∷ []) ∷ [];
    next_id = 3;
    active = true;
  };
}

population_kept_example :
    (population 1 (sched_yield tasks).sched ≡ population 1 tasks.sched)
    × (population 1 (sched_block_on 4 tasks).0.sched ≡ population 1 tasks.sched)
    × (population 1 (sched_block_on_send 4 tasks).0.sched ≡ population 1 tasks.sched)
    × (population 1 (sched_await 4 tasks).0.sched ≡ population 1 tasks.sched)
    × (population 1 (sched_wake_one 4 tasks).sched ≡ population 1 tasks.sched)
    × (population 1 (sched_wake_one_sender 4 tasks).sched ≡ population 1 tasks.sched)
    × (population 1 (sched_wake_all 4 tasks).sched ≡ population 1 tasks.sched)
population_kept_example = population_kept 1 tasks 4

runs : IsHeld 0 tasks.sched
runs = inr (inl refl)

once : population 0 tasks.sched ≤ 1
unfolding population waiting count
once = omega arith

operations-EndsOrHeld_example :
    IsHeld 0 (sched_yield tasks).sched
    × IsHeld 0 (sched_fork tasks).0.sched
    × IsHeld 0 (sched_wake_one 4 tasks).sched
    × IsHeld 0 (sched_wake_one_sender 4 tasks).sched
    × IsHeld 0 (sched_wake_all 4 tasks).sched
    × EndsOrHeld 0 (sched_block_on 4 tasks).0
    × EndsOrHeld 0 (sched_block_on_send 4 tasks).0
    × EndsOrHeld 0 (sched_await 4 tasks).0
operations-EndsOrHeld_example = operations-EndsOrHeld 0 tasks runs 4

-- Two tasks before a third one, which waits at address 7.
abbrev third : SavedTask
third = record (save_current machine) { pc = 7 }

abbrev in_line : Emulator
in_line = record machine {
  sched = record (machine.sched) {
    run = 0 ∷ 1 ∷ 2 ∷ 3 ∷ [];
    saved = (1, save_current machine) ∷ (2, third) ∷ (3, save_current machine) ∷ [];
    next_id = 4;
    active = true;
  };
}

third_saved : lookup 2 in_line.sched.saved ≡ some third
unfolding lookup
third_saved = refl

not_before : count 2 (0 ∷ 1 ∷ []) ≡ 0
unfolding count
not_before = refl

yields-Resumes_example : Resumes 2 third (3 ∷ 0 ∷ 1 ∷ []) (yields 2 in_line)
yields-Resumes_example =
    yields-Resumes 2 third 0 (1 ∷ []) (3 ∷ []) in_line refl refl third_saved not_before
