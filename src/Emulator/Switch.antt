-- ===== src/Emulator/Switch.antt =====
-- src/codegen_t3/emulator/sched.rs: the run queue, the saved tasks and the switch between tasks.
pub mod Window
use mani_tc.Prelude.{
  ℕ, zero, suc, ◌+◌, ◌-◌, Bool, true, false, Option, none, some, List, [], ◌∷◌, ◌++◌, ◌||◌, not,
  leb, ◌==◌, if◌then◌else◌,
}
use mani_tc.Prelude.Int.{ℤ, pos}
use mani_tc.Prelude.Maps.{update, lookup, insert, remove}
use mani_tc.Emulator.State.{
  stack_base, as_usize, deadlock_await, deadlock_drain, deadlock_fill, await_taken,
  await_not_a_handle, SavedTask, TaskVal, running, done, taken, Sched, Emulator, trap,
}

abbrev pub front : List ℕ → Option ℕ
front [] = none
front (t ∷ _) = some t

abbrev pub pop_front : List ℕ → List ℕ
pop_front [] = []
pop_front (_ ∷ ts) = ts

unfoldable pub current : Sched → Option ℕ
current s = front s.run

-- `values().any(|q| !q.is_empty())`.
unfoldable pub any_waiting : List (ℕ × List ℕ) → Bool
any_waiting [] = false
any_waiting ((_, []) ∷ m) = any_waiting m
any_waiting ((_, _ ∷ _) ∷ m) = true

unfoldable pub anyone_awaiting : Sched → Bool
anyone_awaiting s = any_waiting s.blocked_await

unfoldable pub anyone_blocked : Sched → Bool
anyone_blocked s = any_waiting s.blocked || any_waiting s.blocked_send

-- `m.get(&k)` on a map of queues, an absent queue being empty.
abbrev pub or_default : Option (List ℕ) → List ℕ
or_default none = []
or_default (some q) = q

unfoldable pub queue : ℕ → List (ℕ × List ℕ) → List ℕ
queue k m = or_default (lookup k m)

-- `m.entry(k).or_default().push_back(t)`.
unfoldable pub enqueue : ℕ → ℕ → List (ℕ × List ℕ) → List (ℕ × List ℕ)
enqueue k t m = insert k (queue k m ++ t ∷ []) m

-- `memory[sp..sp + n].to_vec()`, and copying such a window back.
unfoldable pub read_window : (ℕ → ℤ) → ℕ → ℕ → List ℤ
read_window mem zero sp = []
read_window mem (suc n) sp = mem sp ∷ read_window mem n (sp + 1)

unfoldable pub write_window : (ℕ → ℤ) → ℕ → List ℤ → ℕ → ℤ
write_window mem sp [] = mem
write_window mem sp (v ∷ vs) = update (write_window mem (sp + 1) vs) sp v

-- `(regs[26] as usize).min(STACK_BASE)`.
unfoldable pub window_base : (ℕ → ℤ) → ℕ
window_base regs = let sp = as_usize (regs 26) in if leb sp stack_base then sp else stack_base

unfoldable pub save_current : Emulator → SavedTask
save_current e =
    let sp = window_base e.regs in
    record {
      pc = e.pc;
      regs = e.regs;
      stack = read_window e.memory (stack_base - sp) sp;
      call_stack = e.call_stack;
      call_depth = e.call_depth;
    }

unfoldable pub restore : SavedTask → Emulator → Emulator
restore t e = record e {
  memory = write_window e.memory (window_base t.regs) t.stack;
  regs = t.regs;
  pc = t.pc;
  call_stack = t.call_stack;
  call_depth = t.call_depth;
}

abbrev pub with_sched : Sched → Emulator → Emulator
with_sched s e = record e { sched = s }

-- `if let Some(t) = self.sched.saved.remove(&now) { self.restore(t) }`.
abbrev pub restore_if : Option SavedTask → Emulator → Emulator
restore_if none e = e
restore_if (some t) e = restore t e

unfoldable pub take_saved : ℕ → Emulator → Emulator
take_saved now e =
    restore_if (lookup now e.sched.saved)
      (with_sched (record (e.sched) { saved = remove now e.sched.saved }) e)

unfoldable pub put_saved : ℕ → SavedTask → Emulator → Emulator
put_saved id t e = with_sched (record (e.sched) { saved = insert id t e.sched.saved }) e

-- Save the task `was` and run `now`.
unfoldable pub swap_tasks : ℕ → ℕ → Emulator → Emulator
swap_tasks was now e = take_saved now (put_saved was (save_current e) e)

abbrev pub switch_to : ℕ → Option ℕ → Emulator → Emulator
switch_to was none e = e
switch_to was (some now) e = if now == was then e else swap_tasks was now e

unfoldable pub switch_if_needed : ℕ → Emulator → Emulator
switch_if_needed was e = switch_to was (current e.sched) e

abbrev pub leave_to : Option ℕ → Emulator → Emulator
leave_to none e = e
leave_to (some now) e = take_saved now e

unfoldable pub switch_away_forever : Emulator → Emulator
switch_away_forever e = leave_to (current e.sched) e

abbrev pub exit_code : Option ℤ → (ℕ → ℤ) → ℕ → ℤ
exit_code none regs = regs
exit_code (some code) regs = update regs 1 code

-- What happens when no task is runnable.
unfoldable pub nothing_runnable : Emulator → Emulator
nothing_runnable e =
    if anyone_awaiting e.sched
    then trap deadlock_await e
    else if anyone_blocked e.sched
    then (if any_waiting e.sched.blocked_send then trap deadlock_drain e else trap deadlock_fill e)
    else record e { regs = exit_code e.sched.main_exit e.regs; halted = true }

abbrev pub end_at : Option ℕ → Emulator → Emulator × Bool
end_at (some _) e = (e, false)
end_at none e = (nothing_runnable e, true)

unfoldable pub end_of_program : Emulator → Emulator × Bool
end_of_program e = end_at (current e.sched) e
