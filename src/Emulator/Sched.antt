-- ===== src/Emulator/Sched.antt =====
-- src/codegen_t3/emulator/sched.rs: the cooperative scheduler, one function per rule.
pub mod Tasks
pub mod Moves
pub mod Saved
pub mod Held
pub mod Turns
use mani_tc.Prelude.{
  ℕ, zero, suc, ◌+◌, ◌-◌, Bool, true, false, Option, none, some, List, [], ◌∷◌, ◌++◌, ◌||◌, not,
  leb, length, ◌==◌, if◌then◌else◌,
}
use mani_tc.Prelude.Int.{ℤ, pos}
use mani_tc.Prelude.Maps.{update, lookup, insert, remove}
use mani_tc.Emulator.State.{
  stack_base, as_usize, deadlock_await, deadlock_drain, deadlock_fill, await_taken,
  await_not_a_handle, SavedTask, TaskVal, running, done, taken, Sched, Emulator, trap,
}
use mani_tc.Emulator.Switch.{
  front, pop_front, current, any_waiting, anyone_awaiting, anyone_blocked, or_default, queue,
  enqueue, read_window, write_window, window_base, save_current, restore, with_sched, restore_if,
  take_saved, put_saved, swap_tasks, switch_to, switch_if_needed, leave_to, switch_away_forever,
  exit_code, nothing_runnable, end_at, end_of_program,
}

-- (SPAWN): the child is a copy that gets 0, and waits at the back.
unfoldable pub sched_fork : Emulator → Emulator × ℕ
sched_fork e =
    let id = e.sched.next_id in
    let parent = save_current e in
    let child = record parent { regs = update e.regs 1 (pos 0) } in
    let s = record (e.sched) {
      active = true;
      next_id = id + 1;
      saved = insert id child e.sched.saved;
      run = e.sched.run ++ id ∷ [];
      tstate = insert id running e.sched.tstate;
    } in
    (with_sched s e, id)

abbrev pub yield_head : Option ℕ → Emulator → Emulator
yield_head none e = e
yield_head (some was) e =
    switch_if_needed was
      (with_sched (record (e.sched) { run = pop_front e.sched.run ++ was ∷ [] }) e)

-- (YIELD): the head goes to the back.
unfoldable pub sched_yield : Emulator → Emulator
sched_yield e = if e.sched.active then yield_head (current e.sched) e else e

abbrev pub finish_exit : Emulator × Bool → Emulator
finish_exit (e, true) = e
finish_exit (e, false) = switch_away_forever e

abbrev pub exit_head : Option ℕ → Emulator → Emulator
exit_head none e = record e { halted = true }
exit_head (some me) e =
    let s = record (e.sched) {
      main_exit = if me == 0 then some (e.regs 1) else e.sched.main_exit;
      run = pop_front e.sched.run;
    } in
    finish_exit (end_of_program (with_sched s e))

-- (DONE).
unfoldable pub sched_task_exit : Emulator → Emulator
sched_task_exit e =
    if e.sched.active then exit_head (current e.sched) e else record e { halted = true }

-- Wake every task of a queue, longest-waiting first.
abbrev pub drain : ℕ → Option (List ℕ) → List (ℕ × List ℕ) → List (ℕ × List ℕ)
drain k none m = m
drain k (some q) m = insert k [] m

abbrev pub done_at : ℤ → Option ℕ → Sched → Sched
done_at v none s = s
done_at v (some me) s = record s {
  tstate = insert me (done v) s.tstate;
  run = s.run ++ queue me s.blocked_await;
  blocked_await = drain me (lookup me s.blocked_await) s.blocked_await;
}

-- (DONE-T): a task ends with a value, and every task that awaits it is woken.
unfoldable pub sched_task_exit_value : ℤ → Emulator → Emulator
sched_task_exit_value v e = sched_task_exit (with_sched (done_at v (current e.sched) e.sched) e)

unfoldable pub sched_done_value : ℤ → Emulator → Emulator × ℕ
sched_done_value v e =
    let h = e.sched.next_id in
    (
      with_sched (record (e.sched) { next_id = h + 1; tstate = insert h (done v) e.sched.tstate })
          e,
      h,
    )

-- The tail of the three blocking operations: the task resumes at its own syscall, and the head of
-- the run queue takes over.
abbrev pub run_front : ℕ → Option ℕ → Emulator → Emulator
run_front me none e = e
run_front me (some now) e = swap_tasks me now (record e { pc = e.pc - 1 })

abbrev pub finish_block : ℕ → Emulator × Bool → Emulator × Bool
finish_block me (e, true) = (e, false)
finish_block me (e, false) = (run_front me (current e.sched) e, true)

abbrev pub block_head : (ℕ → Sched → Sched) → Option ℕ → Emulator → Emulator × Bool
block_head wait none e = (e, false)
block_head wait (some me) e =
    finish_block me
      (end_of_program (with_sched (wait me (record (e.sched) { run = pop_front e.sched.run })) e))

abbrev pub wait_value : ℕ → ℕ → Sched → Sched
wait_value chan me s = record s { blocked = enqueue chan me s.blocked }

abbrev pub wait_room : ℕ → ℕ → Sched → Sched
wait_room chan me s = record s { blocked_send = enqueue chan me s.blocked_send }

abbrev pub wait_end : ℕ → ℕ → Sched → Sched
wait_end h me s = record s { blocked_await = enqueue h me s.blocked_await }

-- (RECV-BLOCK) and (SEND-BLOCK): false where the program ended here.
unfoldable pub sched_block_on : ℕ → Emulator → Emulator × Bool
sched_block_on chan e = block_head (wait_value chan) (current e.sched) e

unfoldable pub sched_block_on_send : ℕ → Emulator → Emulator × Bool
sched_block_on_send chan e = block_head (wait_room chan) (current e.sched) e

abbrev pub await_value : ℕ → Option TaskVal → Emulator → Emulator × Option ℤ
await_value h (some (done v)) e =
    (with_sched (record (e.sched) { tstate = insert h taken e.sched.tstate }) e, some v)
await_value h (some taken) e = (trap await_taken e, none)
await_value h (some running) e = ((block_head (wait_end h) (current e.sched) e).0, none)
await_value h none e = (trap await_not_a_handle e, none)

-- (AWAIT) and (AWAIT-BLOCK).
unfoldable pub sched_await : ℕ → Emulator → Emulator × Option ℤ
sched_await h e = await_value h (lookup h e.sched.tstate) e

-- `if let Some(q) = m.get_mut(&k) { if let Some(w) = q.pop_front() { run.push_back(w) } }`.
abbrev pub woken_one : List ℕ → List ℕ
woken_one [] = []
woken_one (w ∷ _) = w ∷ []

abbrev pub drop_one : ℕ → List ℕ → List (ℕ × List ℕ) → List (ℕ × List ℕ)
drop_one k [] m = m
drop_one k (_ ∷ q) m = insert k q m

-- (SEND-WAKE): the longest-waiting receiver of the channel.
unfoldable pub sched_wake_one : ℕ → Emulator → Emulator
sched_wake_one chan e =
    let q = queue chan e.sched.blocked in
    if e.sched.active
    then with_sched
        (record (e.sched) {
          run = e.sched.run ++ woken_one q;
          blocked = drop_one chan q e.sched.blocked;
        })
        e
    else e

-- (RECV-WAKE): the longest-waiting sender.
unfoldable pub sched_wake_one_sender : ℕ → Emulator → Emulator
sched_wake_one_sender chan e =
    let q = queue chan e.sched.blocked_send in
    if e.sched.active
    then with_sched
        (record (e.sched) {
          run = e.sched.run ++ woken_one q;
          blocked_send = drop_one chan q e.sched.blocked_send;
        })
        e
    else e

-- (CLOSE): every receiver of the channel, then every sender.
unfoldable pub sched_wake_all : ℕ → Emulator → Emulator
sched_wake_all chan e =
    if e.sched.active
    then with_sched
        (record (e.sched) {
          run = (e.sched.run ++ queue chan e.sched.blocked) ++ queue chan e.sched.blocked_send;
          blocked = drain chan (lookup chan e.sched.blocked) e.sched.blocked;
          blocked_send = drain chan (lookup chan e.sched.blocked_send) e.sched.blocked_send;
        })
        e
    else e

-- Every task but the running one is saved.
unfoldable pub live_task_count : Sched → ℕ
live_task_count s = length s.saved + (if leb 1 (length s.run) then 1 else 0)
