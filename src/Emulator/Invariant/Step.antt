-- ===== src/Emulator/Invariant/Step.antt =====
-- The well-formedness of the machine under one instruction, `step` of
-- src/codegen_t3/emulator/execute.rs.
use mani_tc.Prelude.{
  ℕ, ◌≡◌, arith, ◌+◌, ◌-◌, refl, inl, inr, Bool, Bool-cases, Option, none, some, List, [], ◌∷◌,
  true, false, ltb, leb,
}
use mani_tc.Prelude.Int.{ℤ, pos, ltb_ℤ, ◌-ℤ◌}
use mani_tc.Prelude.Maps.{update}
use mani_tc.Isa.Word.{IsWord, clamp27, clamp27-IsWord, sign_i64, sign_i64-IsTrit}
use mani_tc.Isa.Opcode.{Opcode, from_i64}
use mani_tc.Isa.Encoding.{Fields, decode}
use mani_tc.Emulator.State.{Emulator, as_usize}
use mani_tc.Emulator.Execute.{exec_arith, exec_lanes, exec_words, exec_memory, wreg}
use mani_tc.Emulator.Control.{
  push_call_frame, jump_if_pushed, return_to, exec_control, execute, run_checked, run_decoded, step,
  jump_when,
}
use mani_tc.Emulator.Invariant.{
  RegsOk, IsValid, update-RegsOk, trap-IsValid, if-IsValid, set_flags-IsValid, wreg-IsValid,
  finish-IsValid, finish_checked-IsValid, load_reg-IsValid, write-IsValid, read-IsWord,
  clamp_trit-IsWord,
}
use mani_tc.Emulator.Invariant.Sched.{halt-IsValid, sched_task_exit-IsValid}

module _ (r1 a b : ℤ) (e next : Emulator) (v : IsValid e) (w : IsValid next) where
  exec_arith-IsValid : (op : Opcode) → IsValid (exec_arith op r1 a b e next)
  unfolding exec_arith
  exec_arith-IsValid Opcode.tadd = finish_checked-IsValid _ r1 _ v
  exec_arith-IsValid Opcode.tsub = finish_checked-IsValid _ r1 _ v
  exec_arith-IsValid Opcode.tmul = finish_checked-IsValid _ r1 _ v
  exec_arith-IsValid Opcode.tdiv = if-IsValid _ (trap-IsValid _ v) (finish-IsValid r1 _ v)
  exec_arith-IsValid Opcode.tmod = if-IsValid _ (trap-IsValid _ v) (finish-IsValid r1 _ v)
  exec_arith-IsValid Opcode.tdivn =
      if-IsValid _ (trap-IsValid _ v) (finish_checked-IsValid _ r1 _ v)
  exec_arith-IsValid Opcode.tmodn =
      if-IsValid _ (trap-IsValid _ v) (finish_checked-IsValid _ r1 _ v)
  exec_arith-IsValid Opcode.tneg = finish-IsValid r1 _ v
  exec_arith-IsValid Opcode.tand = finish-IsValid r1 _ v
  exec_arith-IsValid Opcode.tor = finish-IsValid r1 _ v
  exec_arith-IsValid Opcode.tnot = finish-IsValid r1 _ v
  exec_arith-IsValid _ = w

  exec_lanes-IsValid : (c d : ℤ) (op : Opcode) → IsValid (exec_lanes op r1 a b c d e next)
  unfolding exec_lanes
  exec_lanes-IsValid c d Opcode.tandw = finish-IsValid r1 _ v
  exec_lanes-IsValid c d Opcode.torw = finish-IsValid r1 _ v
  exec_lanes-IsValid c d Opcode.txorw = finish-IsValid r1 _ v
  exec_lanes-IsValid c d Opcode.timpw = finish-IsValid r1 _ v
  exec_lanes-IsValid c d Opcode.tcmpw = finish-IsValid r1 _ v
  exec_lanes-IsValid c d Opcode.tpopc = finish-IsValid r1 _ v
  exec_lanes-IsValid c d Opcode.tselw = finish-IsValid r1 _ v
  exec_lanes-IsValid c d _ = w

  tcmp-IsValid : (x : ℤ) → IsValid (wreg r1 (sign_i64 x) (record e { flags = sign_i64 x }))
  tcmp-IsValid x = wreg-IsValid r1 (sign_i64 x) (record {
    regs_ok = v.regs_ok;
    memory_ok = v.memory_ok;
    flags_ok = sign_i64-IsTrit x;
    saved_ok = v.saved_ok;
    exit_ok = v.exit_ok;
  })

  exec_words-IsValid : (op : Opcode) → IsValid (exec_words op r1 a b e next)
  unfolding exec_words
  exec_words-IsValid Opcode.tshi = finish_checked-IsValid _ r1 _ v
  exec_words-IsValid Opcode.tshr = finish-IsValid r1 _ v
  exec_words-IsValid Opcode.tmin = wreg-IsValid r1 _ v
  exec_words-IsValid Opcode.tmax = wreg-IsValid r1 _ v
  exec_words-IsValid Opcode.band = finish-IsValid r1 _ v
  exec_words-IsValid Opcode.bor = finish-IsValid r1 _ v
  exec_words-IsValid Opcode.bxor = finish-IsValid r1 _ v
  exec_words-IsValid Opcode.bshl = finish-IsValid r1 _ v
  exec_words-IsValid Opcode.bshr = finish-IsValid r1 _ v
  exec_words-IsValid Opcode.tcmp = tcmp-IsValid (a -ℤ b)
  exec_words-IsValid _ = w

module _ (word : ℤ) (f : Fields) (base : ℤ) (hb : IsWord base) (e next : Emulator) (v : IsValid e)
    (w : IsValid next) where
  exec_memory-IsValid : (op : Opcode) → IsValid (exec_memory op word f base e next)
  unfolding exec_memory
  exec_memory-IsValid Opcode.load = load_reg-IsValid _ _ (read-IsWord e _ v) v
  exec_memory-IsValid Opcode.store =
      if-IsValid _ (trap-IsValid _ v) (write-IsValid _ _ (v.regs_ok.0 _) v)
  exec_memory-IsValid Opcode.tlit = wreg-IsValid f.r1 _ v
  exec_memory-IsValid Opcode.mov = load_reg-IsValid _ base hb v
  exec_memory-IsValid Opcode.loadt =
      set_flags-IsValid _ (load_reg-IsValid _ _ (clamp_trit-IsWord _) v)
  exec_memory-IsValid Opcode.storet = write-IsValid _ _ (clamp_trit-IsWord _) v
  exec_memory-IsValid _ = w

-- A change of the machine's control state alone.
control-IsValid :
    (e : Emulator) (pc : ℕ) (frames : List ℕ) (depth n : ℕ) (regs : ℕ → ℤ)
    → RegsOk regs
    → IsValid e
    → IsValid (record e {
      pc = pc;
      call_stack = frames;
      call_depth = depth;
      total_instructions = n;
      regs = regs;
    })
control-IsValid e pc frames depth n regs h v = record {
  regs_ok = h;
  memory_ok = v.memory_ok;
  flags_ok = v.flags_ok;
  saved_ok = v.saved_ok;
  exit_ok = v.exit_ok;
}

push_call_frame-IsValid : (e : Emulator) → IsValid e → IsValid (push_call_frame e).0
unfolding push_call_frame
push_call_frame-IsValid e v = elim (Bool-cases (ltb 10000 (e.call_depth + 1))) [
  | inl p ↦ rw p (
      trap-IsValid _ (
        control-IsValid e e.pc e.call_stack (e.call_depth + 1) e.total_instructions e.regs v.regs_ok
          v))
  | inr p ↦ rw p (elim (Bool-cases (ltb_ℤ (clamp27 (e.regs 26 -ℤ pos 1)) (pos 0))) [
    | inl q ↦ rw q (trap-IsValid _ pushed)
    | inr q ↦ rw q pushed
  ])
]
  where
    pushed : IsValid (record e {
      call_depth = e.call_depth + 1;
      call_stack = e.pc ∷ e.call_stack;
      regs = update e.regs 26 (clamp27 (e.regs 26 -ℤ pos 1));
    })
    pushed =
        control-IsValid e e.pc (e.pc ∷ e.call_stack) (e.call_depth + 1) e.total_instructions _
          (update-RegsOk e.regs 26 _ v.regs_ok (clamp27-IsWord _) refl) v

jump_if_pushed-IsValid :
    (addr : ℤ) (r : Emulator × Bool) → IsValid r.0 → IsValid (jump_if_pushed addr r)
jump_if_pushed-IsValid addr (e, true) v =
    control-IsValid e (as_usize addr) e.call_stack e.call_depth e.total_instructions e.regs
      v.regs_ok v
jump_if_pushed-IsValid addr (e, false) v = v

return_to-IsValid : (frames : List ℕ) (e : Emulator) → IsValid e → IsValid (return_to frames e)
unfolding return_to
return_to-IsValid [] e v = sched_task_exit-IsValid e v
return_to-IsValid (ret_addr ∷ frames) e v =
    control-IsValid e ret_addr frames (e.call_depth - 1) e.total_instructions _
      (update-RegsOk e.regs 26 _ v.regs_ok (clamp27-IsWord _) refl) v

pc-IsValid : (e : Emulator) (pc : ℕ) → IsValid e → IsValid (record e { pc = pc })
pc-IsValid e pc v =
    control-IsValid e pc e.call_stack e.call_depth e.total_instructions e.regs v.regs_ok v

jump_when-IsValid :
    (test : Bool) (addr : ℤ) (e : Emulator) → IsValid e → IsValid (jump_when test addr e)
unfolding jump_when
jump_when-IsValid test addr e v = if-IsValid test (pc-IsValid e _ v) v

abbrev pub is_syscall : Opcode → Bool
is_syscall Opcode.syscall = true
is_syscall op = false

abbrev pub decodes_to_syscall : Option Opcode → Bool
decodes_to_syscall none = false
decodes_to_syscall (some op) = is_syscall op

-- Whether the instruction at the program counter is a SYSCALL.
abbrev pub at_syscall : Emulator → Bool
at_syscall e = decodes_to_syscall (from_i64 ((decode (e.memory e.pc)).op))

module _ (do_syscall : ℤ → Emulator → Emulator) where
  exec_control-IsValid :
      (word : ℤ) (f : Fields) (cond : ℤ) (e : Emulator)
      → IsValid e
      → (op : Opcode) → is_syscall op ≡ false
      → IsValid (exec_control do_syscall op word f cond e)
  unfolding exec_control
  exec_control-IsValid word f cond e v Opcode.tbranch p = pc-IsValid e _ v
  exec_control-IsValid word f cond e v Opcode.tbr_pos p = jump_when-IsValid _ _ e v
  exec_control-IsValid word f cond e v Opcode.tbr_zero p = jump_when-IsValid _ _ e v
  exec_control-IsValid word f cond e v Opcode.tbr_neg p = jump_when-IsValid _ _ e v
  exec_control-IsValid word f cond e v Opcode.jump p = pc-IsValid e _ v
  exec_control-IsValid word f cond e v Opcode.call p =
      jump_if_pushed-IsValid _ _ (push_call_frame-IsValid e v)
  exec_control-IsValid word f cond e v Opcode.callr p =
      jump_if_pushed-IsValid _ _ (push_call_frame-IsValid e v)
  exec_control-IsValid word f cond e v Opcode.ret p = return_to-IsValid e.call_stack e v
  exec_control-IsValid word f cond e v Opcode.halt p = sched_task_exit-IsValid e v
  exec_control-IsValid word f cond e v Opcode.syscall p = ground arith
  exec_control-IsValid word f cond e v _ p = v

  pub execute-IsValid :
      (op : Opcode) (word : ℤ) (f : Fields) (e : Emulator)
      → is_syscall op ≡ false
      → IsValid e
      → IsValid (execute do_syscall op word f e)
  unfolding execute
  execute-IsValid op word f e p v =
      exec_arith-IsValid _ _ _ e _ v
        (exec_lanes-IsValid _ _ _ e _ v
          (exec_words-IsValid _ _ _ e _ v
            (exec_memory-IsValid word f _ (v.regs_ok.0 _) e _ v
              (exec_control-IsValid word f _ e v op p) op)
            op)
          _ _ op)
        op

  run_checked-IsValid :
      (op : Opcode) (word : ℤ) (f : Fields) (bad : Option ℤ) (e : Emulator)
      → is_syscall op ≡ false
      → IsValid e
      → IsValid (run_checked do_syscall op word f bad e)
  run_checked-IsValid op word f (some r) e p v = trap-IsValid _ v
  run_checked-IsValid op word f none e p v = execute-IsValid op word f _ p (
      control-IsValid e e.pc e.call_stack e.call_depth (e.total_instructions + 1) e.regs v.regs_ok
        v)

  run_decoded-IsValid :
      (op : Option Opcode) (word : ℤ) (f : Fields) (e : Emulator)
      → decodes_to_syscall op ≡ false
      → IsValid e
      → IsValid (run_decoded do_syscall op word f e)
  run_decoded-IsValid none word f e p v = trap-IsValid _ v
  run_decoded-IsValid (some op) word f e p v = run_checked-IsValid op word f _ e p v

  -- A machine is well formed where registers, memory, suspended tasks and the exit code of the
  -- main task hold 27-trit words, the flags hold a trit and R0 is zero. One step keeps a machine
  -- well formed where the word at the program counter is not a SYSCALL, whatever the syscalls do:
  -- on every other instruction, known or unknown, trapping or not, and on a machine that has
  -- halted or has left its memory.
  pub step-IsValid : (e : Emulator) → at_syscall e ≡ false → IsValid e → IsValid (step do_syscall e)
  unfolding step
  step-IsValid e p v = if-IsValid e.halted v (
      if-IsValid (leb e.mem_len e.pc) (halt-IsValid e v)
        (run_decoded-IsValid _ _ _ _ p (pc-IsValid e (e.pc + 1) v)))
