-- ===== src/Emulator/Channels/Frame.antt =====
-- What the scheduler of src/codegen_t3/emulator/sched.rs leaves alone: the collection objects and the
-- capacities of channels.
use mani_tc.Prelude.{
  ℕ, ◌≡◌, refl, ap, ◌∙◌, Bool, true, false, Bool-cases, Option, none, some, Option-cases, List, inl,
  inr, if◌then◌else◌, ◌==◌,
}
use mani_tc.Prelude.Int.{ℤ}
use mani_tc.Prelude.Maps.{lookup}
use mani_tc.Emulator.State.{HeapObj, TaskVal, running, done, taken, Sched, Emulator, trap}
use mani_tc.Emulator.Switch
use mani_tc.Emulator.Sched

-- The objects and the capacities.
abbrev pub channels : Emulator → List (ℕ × HeapObj) × List (ℕ × ℕ)
channels e = (e.heap_objs, e.sched.chan_cap)

take_saved-channels : (now : ℕ) (e : Emulator) → channels (Switch.take_saved now e) ≡ channels e
unfolding Switch.take_saved Switch.restore
take_saved-channels now e = elim (Option-cases (lookup now e.sched.saved)) [
  | inl p ↦ rw p refl
  | inr (t, p) ↦ rw p refl
]

swap_tasks-channels :
    (was now : ℕ) (e : Emulator) → channels (Switch.swap_tasks was now e) ≡ channels e
unfolding Switch.swap_tasks Switch.put_saved
swap_tasks-channels was now e = take_saved-channels now _

switch_to-channels :
    (was : ℕ) (o : Option ℕ) (e : Emulator) → channels (Switch.switch_to was o e) ≡ channels e
switch_to-channels was none e = refl
switch_to-channels was (some now) e = elim (Bool-cases (now == was)) [
  | inl p ↦ rw p refl
  | inr p ↦ rw p (swap_tasks-channels was now e)
]

nothing_runnable-channels : (e : Emulator) → channels (Switch.nothing_runnable e) ≡ channels e
unfolding Switch.nothing_runnable
nothing_runnable-channels e = elim (Bool-cases (Switch.anyone_awaiting e.sched)) [
  | inl p ↦ rw p (unfold trap in refl)
  | inr p ↦ elim (Bool-cases (Switch.anyone_blocked e.sched)) [
    | inl q ↦ elim (Bool-cases (Switch.any_waiting e.sched.blocked_send)) [
      | inl r ↦ rw (p, q, r) (unfold trap in refl)
      | inr r ↦ rw (p, q, r) (unfold trap in refl)
    ]
    | inr q ↦ rw (p, q) refl
  ]
]

end_at-channels : (o : Option ℕ) (e : Emulator) → channels (Switch.end_at o e).0 ≡ channels e
end_at-channels none e = nothing_runnable-channels e
end_at-channels (some t) e = refl

leave_to-channels : (o : Option ℕ) (e : Emulator) → channels (Switch.leave_to o e) ≡ channels e
leave_to-channels none e = refl
leave_to-channels (some t) e = take_saved-channels t e

finish_exit-channels : (p : Emulator × Bool) → channels (Sched.finish_exit p) ≡ channels p.0
unfolding Switch.switch_away_forever
finish_exit-channels (e, true) = refl
finish_exit-channels (e, false) = leave_to-channels (Switch.current e.sched) e

run_front-channels :
    (me : ℕ) (o : Option ℕ) (e : Emulator) → channels (Sched.run_front me o e) ≡ channels e
run_front-channels me none e = refl
run_front-channels me (some now) e = swap_tasks-channels me now _

finish_block-channels :
    (me : ℕ) (p : Emulator × Bool) → channels (Sched.finish_block me p).0 ≡ channels p.0
finish_block-channels me (e, true) = refl
finish_block-channels me (e, false) = run_front-channels me (Switch.current e.sched) e

exit_head-channels : (o : Option ℕ) (e : Emulator) → channels (Sched.exit_head o e) ≡ channels e
unfolding Switch.end_of_program
exit_head-channels none e = refl
exit_head-channels (some me) e = finish_exit-channels _ ∙ end_at-channels _ _

block_head-channels :
    (wait : ℕ → Sched → Sched) (o : Option ℕ) (e : Emulator)
    → ((me : ℕ) (s : Sched) → (wait me s).chan_cap ≡ s.chan_cap)
    → channels (Sched.block_head wait o e).0 ≡ channels e
unfolding Switch.end_of_program
block_head-channels wait none e h = refl
block_head-channels wait (some me) e h =
    finish_block-channels me _ ∙ end_at-channels _ _ ∙ ap (λ c. (e.heap_objs, c)) (h me _)

-- The blocking operations, for every channel or task.
pub block-channels :
    (h : ℕ) (e : Emulator)
    → (channels (Sched.sched_block_on h e).0 ≡ channels e)
      × (channels (Sched.sched_block_on_send h e).0 ≡ channels e)
unfolding Sched.sched_block_on Sched.sched_block_on_send
block-channels h e = (
  block_head-channels (Sched.wait_value h) (Switch.current e.sched) e λ me s. refl,
  block_head-channels (Sched.wait_room h) (Switch.current e.sched) e λ me s. refl,
)

await-channels :
    (h : ℕ) (o : Option TaskVal) (e : Emulator) → channels (Sched.await_value h o e).0 ≡ channels e
await-channels h none e = unfold trap in refl
await-channels h (some running) e = block_head-channels (Sched.wait_end h) _ e λ me s. refl
await-channels h (some (done v)) e = refl
await-channels h (some taken) e = unfold trap in refl

yield_head-channels : (o : Option ℕ) (e : Emulator) → channels (Sched.yield_head o e) ≡ channels e
unfolding Switch.switch_if_needed
yield_head-channels none e = refl
yield_head-channels (some was) e = switch_to-channels was _ _

if-channels :
    (b : Bool) (x y e : Emulator)
    → channels x ≡ channels e
    → channels y ≡ channels e
    → channels (if b then x else y) ≡ channels e
if-channels true x y e p q = p
if-channels false x y e p q = q

done_at-cap : (v : ℤ) (o : Option ℕ) (s : Sched) → (Sched.done_at v o s).chan_cap ≡ s.chan_cap
done_at-cap v none s = refl
done_at-cap v (some me) s = refl

exits : (e : Emulator) → channels (Sched.sched_task_exit e) ≡ channels e
unfolding Sched.sched_task_exit
exits e = if-channels e.sched.active _ _ e (exit_head-channels (Switch.current e.sched) e) refl

-- The operations on tasks.
pub task-channels :
    (h : ℕ) (v : ℤ) (e : Emulator)
    → (channels (Sched.sched_fork e).0 ≡ channels e)
      × (channels (Sched.sched_yield e) ≡ channels e)
      × (channels (Sched.sched_task_exit e) ≡ channels e)
      × (channels (Sched.sched_task_exit_value v e) ≡ channels e)
      × (channels (Sched.sched_await h e).0 ≡ channels e)
      × (channels (Sched.sched_done_value v e).0 ≡ channels e)
unfolding Sched.sched_fork Sched.sched_yield Sched.sched_await Sched.sched_done_value
    Sched.sched_task_exit_value
task-channels h v e = (
  refl,
  if-channels e.sched.active _ _ e (yield_head-channels (Switch.current e.sched) e) refl,
  exits e,
  exits _ ∙ ap (λ c. (e.heap_objs, c)) (done_at-cap v (Switch.current e.sched) e.sched),
  await-channels h _ e,
  refl,
)

-- Waking up.
pub wake-channels :
    (h : ℕ) (e : Emulator)
    → (channels (Sched.sched_wake_one h e) ≡ channels e)
      × (channels (Sched.sched_wake_one_sender h e) ≡ channels e)
      × (channels (Sched.sched_wake_all h e) ≡ channels e)
unfolding Sched.sched_wake_one Sched.sched_wake_one_sender Sched.sched_wake_all
wake-channels h e = (
  if-channels e.sched.active _ _ e refl refl,
  if-channels e.sched.active _ _ e refl refl,
  if-channels e.sched.active _ _ e refl refl,
)
