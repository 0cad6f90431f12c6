-- ===== src/Emulator/Sched/Held.antt =====
-- Blocking, awaiting and ending a task in src/codegen_t3/emulator/sched.rs, and the saved states.
use mani_tc.Prelude.{
  ℕ, ◌+◌, ◌≤◌, ◌≡◌, refl, ◌∙◌, ap, ◌⊎◌, inl, inr, Bool, Bool-cases, Option, none, some, List, [],
  ◌∷◌, true, false, arith, ◌==◌, if◌then◌else◌,
}
use mani_tc.Prelude.Int.{ℤ}
use mani_tc.Prelude.Maps.{lookup}
use mani_tc.Emulator.State.{TaskVal, running, done, taken, Sched, Emulator, trap}
use mani_tc.Emulator.Switch
use mani_tc.Emulator.Sched
use mani_tc.Emulator.Sched.Tasks.{population, waiting-enqueue, population-take_saved}
use mani_tc.Emulator.Sched.Moves.{population-pop_front}
use mani_tc.Emulator.Sched.Saved.{
  IsHeld, present, is_saved, led, same_task, swap_tasks-IsHeld, is_saved-take_saved,
  sched-take_saved, yield-IsHeld, fork-IsHeld, wake_one-IsHeld, wake_one_sender-IsHeld,
  wake_all-IsHeld,
}

halted-nothing_runnable : (e : Emulator) → (Switch.nothing_runnable e).halted ≡ true
unfolding Switch.nothing_runnable trap
halted-nothing_runnable e = ground arith

-- The program has ended, or the task is held.
abbrev pub EndsOrHeld : ℕ → Emulator → Type 0
EndsOrHeld t e = (e.halted ≡ true) ⊎ IsHeld t e.sched

module _ (t : ℕ) (wait : ℕ → Sched → Sched) (e : Emulator)
    (hp : (me : ℕ) (s : Sched)
      → population t (wait me s) ≡ population t s + (if me == t then 1 else 0))
    (hs : (me : ℕ) (s : Sched) → (wait me s).saved ≡ s.saved) where
  block_head-EndsOrHeld :
      IsHeld t e.sched → EndsOrHeld t (Sched.block_head wait (Switch.current e.sched) e).0
  unfolding Switch.current Switch.end_of_program
  block_head-EndsOrHeld h = from_run e.sched.run refl
    where
      from_run :
          (ts : List ℕ)
          → e.sched.run ≡ ts
          → EndsOrHeld t (Sched.block_head wait (Switch.front ts) e).0
      from_run [] r = inr h
      from_run (me ∷ ts) r =
          by_next
            (Switch.front (wait me (record (e.sched) { run = Switch.pop_front e.sched.run })).run)
            refl
        where
          s1 : Sched
          s1 = wait me (record (e.sched) { run = Switch.pop_front e.sched.run })

          kept :
              (population t e.sched ≡ 0) ⊎ (((me == t) ≡ true) ⊎ (is_saved t e.sched ≡ true))
              → (population t s1 ≡ 0) ⊎ (((me == t) ≡ true) ⊎ (is_saved t s1 ≡ true))
          kept (inl z) = inl (hp me _ ∙ population-pop_front t me ts e.sched r ∙ z)
          kept (inr (inl q)) = inr (inl q)
          kept (inr (inr q)) = inr (inr (ap (λ m. present (lookup t m)) (hs me _) ∙ q))

          by_next :
              (o : Option ℕ)
              → Switch.front s1.run ≡ o
              → EndsOrHeld t (Sched.finish_block me (Switch.end_at o (Switch.with_sched s1 e))).0
          by_next none f = inl (halted-nothing_runnable _)
          by_next (some now) f =
              rw f (
                inr
                  (swap_tasks-IsHeld t me now _ f (kept (led t me e.sched (ap Switch.front r) h))))

module _ (t : ℕ) (e : Emulator) (h : IsHeld t e.sched) where
  block_on-EndsOrHeld : (chan : ℕ) → EndsOrHeld t (Sched.sched_block_on chan e).0
  unfolding Sched.sched_block_on
  block_on-EndsOrHeld chan =
      block_head-EndsOrHeld t (Sched.wait_value chan) e
        (λ me s. unfold population in omega (arith, waiting-enqueue t chan me s.blocked))
        (λ me s. refl) h

  block_on_send-EndsOrHeld : (chan : ℕ) → EndsOrHeld t (Sched.sched_block_on_send chan e).0
  unfolding Sched.sched_block_on_send
  block_on_send-EndsOrHeld chan =
      block_head-EndsOrHeld t (Sched.wait_room chan) e
        (λ me s. unfold population in omega (arith, waiting-enqueue t chan me s.blocked_send))
        (λ me s. refl) h

  await-EndsOrHeld : (handle : ℕ) → EndsOrHeld t (Sched.sched_await handle e).0
  unfolding Sched.sched_await trap
  await-EndsOrHeld handle = from_state (lookup handle e.sched.tstate)
    where
      from_state : (o : Option TaskVal) → EndsOrHeld t (Sched.await_value handle o e).0
      from_state none = inl refl
      from_state (some taken) = inl refl
      from_state (some (done v)) = inr (unfold population in h)
      from_state (some running) =
          block_head-EndsOrHeld t (Sched.wait_end handle) e
            (λ me s.
              unfold population in omega (arith, waiting-enqueue t handle me s.blocked_await))
            (λ me s. refl) h

  -- Of a task that stands in no queue, leads the run queue or has its state saved, the same holds
  -- after a yield, a fork and a wake-up; after the running task blocks on a channel or awaits another
  -- it holds too, or the machine has halted.
  pub operations-EndsOrHeld :
      (k : ℕ)
      → IsHeld t (Sched.sched_yield e).sched
        × IsHeld t (Sched.sched_fork e).0.sched
        × IsHeld t (Sched.sched_wake_one k e).sched
        × IsHeld t (Sched.sched_wake_one_sender k e).sched
        × IsHeld t (Sched.sched_wake_all k e).sched
        × EndsOrHeld t (Sched.sched_block_on k e).0
        × EndsOrHeld t (Sched.sched_block_on_send k e).0
        × EndsOrHeld t (Sched.sched_await k e).0
  operations-EndsOrHeld k = (
    yield-IsHeld t e h,
    fork-IsHeld t e h,
    wake_one-IsHeld t e h k,
    wake_one_sender-IsHeld t e h k,
    wake_all-IsHeld t e h k,
    block_on-EndsOrHeld k,
    block_on_send-EndsOrHeld k,
    await-EndsOrHeld k,
  )

population_but_exit :
    (t : ℕ) (c : Option ℤ) (run : List ℕ) (s : Sched)
    → population t (record s { main_exit = c; run = run }) ≡ population t (record s { run = run })
unfolding population
population_but_exit t c run s = refl

-- Of a task that stands at most once in the queues and that stands in none, leads the run queue or
-- has its state saved, the same holds after the running task ends, or the machine has halted.
pub sched_task_exit-EndsOrHeld :
    (t : ℕ) (e : Emulator)
    → population t e.sched ≤ 1
    → IsHeld t e.sched
    → EndsOrHeld t (Sched.sched_task_exit e)
unfolding Sched.sched_task_exit Switch.current Switch.end_of_program Switch.switch_away_forever
sched_task_exit-EndsOrHeld t e one h = by_active e.sched.active
  where
    left : (me : ℕ) (ts : List ℕ) → e.sched.run ≡ me ∷ ts → Sched
    left me ts r = record (e.sched) {
      main_exit = if me == 0 then some (e.regs 1) else e.sched.main_exit;
      run = Switch.pop_front e.sched.run;
    }

    gone :
        (me : ℕ) (ts : List ℕ) (r : e.sched.run ≡ me ∷ ts)
        → (population t e.sched ≡ 0) ⊎ (((me == t) ≡ true) ⊎ (is_saved t e.sched ≡ true))
        → (population t (left me ts r) ≡ 0) ⊎ (is_saved t (left me ts r) ≡ true)
    gone me ts r (inl z) =
        inl
          (omega (arith, population_but_exit t _ _ e.sched, population-pop_front t me ts e.sched r))
    gone me ts r (inr (inl q)) = inl (
        ground (
          arith,
          q,
          population_but_exit t (if me == 0 then some (e.regs 1) else e.sched.main_exit)
              (Switch.pop_front e.sched.run) e.sched,
          population-pop_front t me ts e.sched r,
        ))
    gone me ts r (inr (inr q)) = inr q

    resumed :
        (now : ℕ) (e1 : Emulator)
        → Switch.front e1.sched.run ≡ some now
        → (population t e1.sched ≡ 0) ⊎ (is_saved t e1.sched ≡ true)
        → IsHeld t (Switch.take_saved now e1).sched
    resumed now e1 f k = elim (Bool-cases (now == t)) [
      | inl p ↦ inr (
          inl (
            ap (λ (s : Sched). Switch.front s.run) (sched-take_saved now e1)
            ∙ f
            ∙ same_task now t p))
      | inr p ↦ elim k [
        | inl z ↦ inl (population-take_saved t now e1 ∙ z)
        | inr q ↦ inr (inr (rw (is_saved-take_saved t now e1, p) q))
      ]
    ]

    by_next :
        (e1 : Emulator) (o : Option ℕ)
        → Switch.front e1.sched.run ≡ o
        → (population t e1.sched ≡ 0) ⊎ (is_saved t e1.sched ≡ true)
        → EndsOrHeld t (Sched.finish_exit (Switch.end_at o e1))
    by_next e1 none f k = inl (halted-nothing_runnable _)
    by_next e1 (some now) f k = rw f (inr (resumed now e1 f k))

    from_run : (ts : List ℕ) → e.sched.run ≡ ts → EndsOrHeld t (Sched.exit_head (Switch.front ts) e)
    from_run [] r = inl refl
    from_run (me ∷ ts) r =
        by_next (record e { sched = left me ts r }) _ refl
          (gone me ts r (led t me e.sched (ap Switch.front r) h))

    by_active :
        (b : Bool)
        → EndsOrHeld t
            (if b then Sched.exit_head (Switch.front e.sched.run) e else record e { halted = true })
    by_active true = from_run e.sched.run refl
    by_active false = inl refl
