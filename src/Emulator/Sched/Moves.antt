-- ===== src/Emulator/Sched/Moves.antt =====
-- The moves of tasks between the queues of src/codegen_t3/emulator/sched.rs.
use mani_tc.Prelude.{
  ℕ, ◌+◌, ◌≡◌, refl, ◌∙◌, ap, Bool, Option, none, some, List, [], ◌∷◌, ◌++◌, true, false, arith,
  ◌==◌, if◌then◌else◌,
}
use mani_tc.Prelude.Maps.{lookup, count, count-append}
use mani_tc.Emulator.State.{TaskVal, running, done, taken, Sched, Emulator, trap}
use mani_tc.Emulator.Switch
use mani_tc.Emulator.Sched
use mani_tc.Emulator.Sched.Tasks.{
  waiting-enqueue, waiting-drop_one, waiting-drain, population, population-switch_if_needed,
  sched-end_of_program, population-finish_block,
}

pub population-pop_front :
    (t me : ℕ) (ts : List ℕ) (s : Sched)
    → s.run ≡ me ∷ ts
    → population t (record s { run = Switch.pop_front s.run }) + (if me == t then 1 else 0)
      ≡ population t s
unfolding population count
population-pop_front t me ts s p =
    omega (arith, ap (λ (r : List ℕ). count t (Switch.pop_front r)) p, ap (count t) p)

pub population-push_back :
    (t : ℕ) (ts : List ℕ) (s : Sched)
    → population t (record s { run = s.run ++ ts }) ≡ population t s + count t ts
unfolding population
population-push_back t ts s = omega (arith, count-append t s.run ts)

-- Blocking moves the head of the run queue into the map where it waits.
module _ (t : ℕ) (wait : ℕ → Sched → Sched) (e : Emulator) where
  population-block_head :
      ((me : ℕ) (s : Sched)
        → population t (wait me s) ≡ population t s + (if me == t then 1 else 0))
      → population t (Sched.block_head wait (Switch.current e.sched) e).0.sched
        ≡ population t e.sched
  unfolding Switch.current
  population-block_head h = from_run e.sched.run refl
    where
      from_run :
          (ts : List ℕ)
          → e.sched.run ≡ ts
          → population t (Sched.block_head wait (Switch.front ts) e).0.sched ≡ population t e.sched
      from_run [] p = refl
      from_run (me ∷ ts) p =
          population-finish_block t me _
          ∙ ap (population t) (sched-end_of_program _)
          ∙ h me _
          ∙ population-pop_front t me ts e.sched p

population-if :
    (t : ℕ) (b : Bool) (x y : Emulator)
    → population t x.sched ≡ population t y.sched
    → population t y.sched ≡ population t y.sched
    → population t (if b then x else y).sched ≡ population t y.sched
population-if t true x y h k = h
population-if t false x y h k = k

-- Moving the head of the run queue to its back.
pub population-rotate :
    (t me : ℕ) (ts : List ℕ) (s : Sched)
    → s.run ≡ me ∷ ts
    → population t (record s { run = Switch.pop_front s.run ++ me ∷ [] }) ≡ population t s
population-rotate t me ts s p =
    population-push_back t (me ∷ []) (record s { run = Switch.pop_front s.run })
    ∙ once
    ∙ population-pop_front t me ts s p
  where
    once :
        population t (record s { run = Switch.pop_front s.run }) + count t (me ∷ [])
        ≡ population t (record s { run = Switch.pop_front s.run }) + (if me == t then 1 else 0)
    once = unfold count in omega arith

module _ (t : ℕ) (e : Emulator) where
  population-yield : population t (Sched.sched_yield e).sched ≡ population t e.sched
  unfolding Sched.sched_yield Switch.current
  population-yield = population-if t e.sched.active _ e (from_run e.sched.run refl) refl
    where
      from_run :
          (ts : List ℕ)
          → e.sched.run ≡ ts
          → population t (Sched.yield_head (Switch.front ts) e).sched ≡ population t e.sched
      from_run [] p = refl
      from_run (me ∷ ts) p =
          population-switch_if_needed t me _ ∙ population-rotate t me ts e.sched p

  pub population-wake_one :
      (chan : ℕ) → population t (Sched.sched_wake_one chan e).sched ≡ population t e.sched
  unfolding Sched.sched_wake_one
  population-wake_one chan =
      population-if t e.sched.active _ e
        (unfold population in
          omega (
            arith,
            count-append t e.sched.run (Sched.woken_one (Switch.queue chan e.sched.blocked)),
            waiting-drop_one t chan (Switch.queue chan e.sched.blocked) e.sched.blocked refl,
          ))
        refl

  pub population-wake_one_sender :
      (chan : ℕ) → population t (Sched.sched_wake_one_sender chan e).sched ≡ population t e.sched
  unfolding Sched.sched_wake_one_sender
  population-wake_one_sender chan =
      population-if t e.sched.active _ e
        (unfold population in
          omega (
            arith,
            count-append t e.sched.run (Sched.woken_one (Switch.queue chan e.sched.blocked_send)),
            waiting-drop_one t chan (Switch.queue chan e.sched.blocked_send) e.sched.blocked_send
                refl,
          ))
        refl

  pub population-wake_all :
      (chan : ℕ) → population t (Sched.sched_wake_all chan e).sched ≡ population t e.sched
  unfolding Sched.sched_wake_all
  population-wake_all chan =
      population-if t e.sched.active _ e
        (unfold population in
          omega (
            arith,
            count-append t (e.sched.run ++ Switch.queue chan e.sched.blocked)
                (Switch.queue chan e.sched.blocked_send),
            count-append t e.sched.run (Switch.queue chan e.sched.blocked),
            waiting-drain t chan e.sched.blocked,
            waiting-drain t chan e.sched.blocked_send,
          ))
        refl

  population-block_on :
      (chan : ℕ) → population t (Sched.sched_block_on chan e).0.sched ≡ population t e.sched
  unfolding Sched.sched_block_on
  population-block_on chan =
      population-block_head t (Sched.wait_value chan) e
        (λ me s. unfold population in omega (arith, waiting-enqueue t chan me s.blocked))

  population-block_on_send :
      (chan : ℕ) → population t (Sched.sched_block_on_send chan e).0.sched ≡ population t e.sched
  unfolding Sched.sched_block_on_send
  population-block_on_send chan =
      population-block_head t (Sched.wait_room chan) e
        (λ me s. unfold population in omega (arith, waiting-enqueue t chan me s.blocked_send))

  population-await : (h : ℕ) → population t (Sched.sched_await h e).0.sched ≡ population t e.sched
  unfolding Sched.sched_await trap
  population-await h = from_state (lookup h e.sched.tstate)
    where
      from_state :
          (o : Option TaskVal)
          → population t (Sched.await_value h o e).0.sched ≡ population t e.sched
      from_state none = refl
      from_state (some running) =
          population-block_head t (Sched.wait_end h) e
            (λ me s. unfold population in omega (arith, waiting-enqueue t h me s.blocked_await))
      from_state (some (done v)) = unfold population in refl
      from_state (some taken) = refl

  -- Yielding, blocking on a channel or a task, and waking move tasks between the run queue and the
  -- waiting maps: each task stands in them, taken together, as often as before.
  pub population_kept :
      (k : ℕ)
      → (population t (Sched.sched_yield e).sched ≡ population t e.sched)
        × (population t (Sched.sched_block_on k e).0.sched ≡ population t e.sched)
        × (population t (Sched.sched_block_on_send k e).0.sched ≡ population t e.sched)
        × (population t (Sched.sched_await k e).0.sched ≡ population t e.sched)
        × (population t (Sched.sched_wake_one k e).sched ≡ population t e.sched)
        × (population t (Sched.sched_wake_one_sender k e).sched ≡ population t e.sched)
        × (population t (Sched.sched_wake_all k e).sched ≡ population t e.sched)
  population_kept k = (
    population-yield,
    population-block_on k,
    population-block_on_send k,
    population-await k,
    population-wake_one k,
    population-wake_one_sender k,
    population-wake_all k,
  )

  -- After a fork the new task stands in the queues once more than before, and every other task as
  -- often as before.
  pub population-fork :
      population t (Sched.sched_fork e).0.sched
      ≡ population t e.sched + (if e.sched.next_id == t then 1 else 0)
  unfolding Sched.sched_fork population count
  population-fork = omega (arith, count-append t e.sched.run (e.sched.next_id ∷ []))
