-- ===== src/Emulator/Channels/Bounded.antt =====
-- The capacities of the channels of src/codegen_t3/emulator/syscall_proc.rs.
use mani_tc.Prelude.{
  ℕ, ◌≡◌, refl, Bool, true, false, Option, none, some, List, [], ◌∷◌, if◌then◌else◌, arith,
}
use mani_tc.Prelude.Int.{ℤ, pos, ltb_ℤ, ◌==ℤ◌}
use mani_tc.Prelude.Maps.{lookup}
use mani_tc.Emulator.State.{vec, task_result, as_usize, channel_capacity, Emulator}
use mani_tc.Emulator.Sched.{
  sched_fork, sched_done_value, sched_yield, sched_task_exit, sched_task_exit_value, sched_await,
}
use mani_tc.Emulator.Channels.{
  task_join, async_spawn_task, async_select, select_block_on, channel_try_recv, heap_alloc_obj,
  channel_new, channel_bounded, channel_send, channel_recv, channel_len, channel_close,
  store_awaited, task_fork, task_await, task_exit_value, task_done_value, do_syscall_tasks,
}
use mani_tc.Emulator.Channels.Frame.{channels, task-channels, wake-channels}
use mani_tc.Emulator.Channels.Fits.{
  IsBounded, kept, insert-FitsCaps, bounded-FitsCaps, empty-FitsCaps, trap-IsBounded, if-IsBounded,
  send-FitsCaps, recv-FitsCaps, try_recv-FitsCaps, close-FitsCaps, no_channel,
}

awaited :
    (p : Emulator × Option ℤ) (e : Emulator)
    → channels p.0 ≡ channels e
    → IsBounded e
    → IsBounded (store_awaited p)
awaited (f, none) e p b = kept e f p b
awaited (f, some v) e p b = unfold IsBounded in (kept e f p b)

module _ (e : Emulator) (b : IsBounded e) where
  new-IsBounded : IsBounded (channel_new e)
  unfolding channel_new heap_alloc_obj IsBounded
  new-IsBounded = empty-FitsCaps e.heap_objs e.sched.chan_cap _ b

  bounded-IsBounded : IsBounded (channel_bounded e)
  unfolding channel_bounded heap_alloc_obj IsBounded
  bounded-IsBounded =
      if-IsBounded (ltb_ℤ (e.regs 1) (pos 1)) _ _ (trap-IsBounded channel_capacity e b)
        λ _. bounded-FitsCaps e.heap_objs e.sched.chan_cap _ (as_usize (e.regs 1)) b

  -- The objects of 124 and 125 are no channels.
  async-IsBounded : IsBounded (async_spawn_task e) × IsBounded (async_select e)
  unfolding async_spawn_task async_select heap_alloc_obj IsBounded
  async-IsBounded = (
    insert-FitsCaps e.heap_objs e.sched.chan_cap _ _ b
        λ cap q x y. no_channel (task_result _) q refl x,
    insert-FitsCaps e.heap_objs e.sched.chan_cap _ _ b λ cap q x y. no_channel (vec _) q refl x,
  )

  close-IsBounded : IsBounded (channel_close e)
  unfolding channel_close
  close-IsBounded =
      let h = as_usize (e.regs 1) in
      kept _ _ (wake-channels h _).2 (close-FitsCaps h (lookup h e.heap_objs) e b)

  -- The operations that leave the channels alone.
  tasks-IsBounded :
      IsBounded (channel_len e)
      × IsBounded (task_fork e)
      × IsBounded (sched_yield e)
      × IsBounded (sched_task_exit e)
      × IsBounded (task_await e)
      × IsBounded (task_exit_value e)
      × IsBounded (task_done_value e)
      × IsBounded (task_join e)
      × IsBounded (select_block_on e)
  unfolding task_join select_block_on channel_len task_fork task_await task_exit_value
      task_done_value IsBounded
  tasks-IsBounded =
      let (fork, yields, exits, value, awaits, dones) =
        task-channels (as_usize (e.regs 1)) (e.regs 1) e in
      (
        b,
        kept e (sched_fork e).0 fork b,
        kept e (sched_yield e) yields b,
        kept e (sched_task_exit e) exits b,
        awaited (sched_await (as_usize (e.regs 1)) e) e awaits b,
        kept e (sched_task_exit_value (e.regs 1) e) value b,
        kept e (sched_done_value (e.regs 1) e).0 dones b,
        b,
        b,
      )

-- The syscalls of channels and tasks that the dispatch names.
abbrev pub task_syscalls : List ℕ
task_syscalls =
    70 ∷ 71 ∷ 72 ∷ 73 ∷ 74 ∷ 80 ∷ 81 ∷ 82 ∷ 108 ∷ 122 ∷ 123 ∷ 124 ∷ 125 ∷ 126 ∷ 137 ∷ 138 ∷ 139
    ∷ 140 ∷ []

abbrev pub is_one_of : ℤ → List ℕ → Bool
is_one_of n [] = false
is_one_of n (m ∷ ms) = if n ==ℤ pos m then true else is_one_of n ms

-- A dispatch on the first of several numbers.
on_first :
    (c t : Bool) (x y : Emulator)
    → IsBounded x
    → (t ≡ true → IsBounded y)
    → (if c then true else t) ≡ true
    → IsBounded (if c then x else y)
on_first true t x y h k p = h
on_first false t x y h k p = k p

-- Each of the syscalls 70 to 74, 80 to 82, 108, 122 to 126 and 137 to 140 (channel_new, send, recv,
-- len, close, bounded and try_recv; task_fork, yield, exit, join, await, exit_value and done_value;
-- async_sleep, spawn_task and select, and select_block_on) keeps each open channel within its
-- capacity, where it was before, whichever way it ends: with a value, a trap or the task set aside.
-- Nothing is assumed or said of the syscalls with other numbers.
pub do_syscall_tasks-IsBounded :
    (other : ℤ → Emulator → Emulator) (n : ℤ) (e : Emulator)
    → is_one_of n task_syscalls ≡ true
    → IsBounded e
    → IsBounded (do_syscall_tasks other n e)
unfolding do_syscall_tasks channel_send channel_recv channel_try_recv
do_syscall_tasks-IsBounded other n e named b =
    let h = as_usize (e.regs 1) in
    let o = lookup h e.heap_objs in
    let (lens, fork, yields, exits, awaits, values, dones, joins, selected) = tasks-IsBounded e b in
    let (spawned, select) = async-IsBounded e b in
    let absurd : false ≡ true → IsBounded (other n e) = λ p. ground arith in
    on_first (n ==ℤ pos 70) _ _ _ (new-IsBounded e b)
      (on_first (n ==ℤ pos 71) _ _ _ (send-FitsCaps h (e.regs 2) o e refl b) (
        on_first (n ==ℤ pos 72) _ _ _ (recv-FitsCaps h o e refl b) (
          on_first (n ==ℤ pos 73) _ _ _ lens (
            on_first (n ==ℤ pos 74) _ _ _ (close-IsBounded e b) (
              on_first (n ==ℤ pos 80) _ _ _ fork (
                on_first (n ==ℤ pos 81) _ _ _ yields (
                  on_first (n ==ℤ pos 82) _ _ _ exits (
                    on_first (n ==ℤ pos 108) _ _ _ (try_recv-FitsCaps h o e refl b) (
                      on_first (n ==ℤ pos 122) _ _ _ joins (
                        on_first (n ==ℤ pos 123) _ _ _ b (
                          on_first (n ==ℤ pos 124) _ _ _ spawned (
                            on_first (n ==ℤ pos 125) _ _ _ select (
                              on_first (n ==ℤ pos 126) _ _ _ selected (
                                on_first (n ==ℤ pos 137) _ _ _ (bounded-IsBounded e b) (
                                  on_first (n ==ℤ pos 138) _ _ _ awaits (
                                    on_first (n ==ℤ pos 139) _ _ _ values (
                                      on_first (n ==ℤ pos 140) _ _ _ dones (absurd))))))))))))))))))
      named
