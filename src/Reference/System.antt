-- ===== src/Reference/System.antt =====
-- A step of a program of src/reference/eval.rs, and its run: the task at the head of the run
-- queue does the next operation that it asks for. The threads of the code have no part of their own:
-- at most one of them is not waiting for its turn, so a task is what it has left to do.
pub mod Valid
pub mod Updates
pub mod Operations
pub mod Progress
pub mod Runs
pub mod Sound
pub mod Alone
mod Tests
use Prim.Native.String.{String}
use package.text.Mathlib.Text.{◌==◌ as str_eq}
use mani_tc.Prelude.{
  ℕ, zero, suc, ◌+◌, ◌-◌, ◌==◌, ltb, Bool, true, false, ◌||◌, not, Option, none, some, List, [],
  ◌∷◌, ◌++◌, length, if◌then◌else◌,
}
use mani_tc.Prelude.Maps
use mani_tc.Prelude.Int.{pos}
use mani_tc.Reference.Ops.{Lang, Val, int}
use mani_tc.Reference.Syntax.{Stmts, Fn}
use mani_tc.Reference.Comp.{
  Why, Abort, trap, propagate, Env, Comp, done, abort, exhausted, tick, yield_now, emit,
  new_channel, spawn, send, recv, close, handle, ◌>>=◌,
}
use mani_tc.Reference.Rules.{scoped}
use mani_tc.Reference.Calls.{call_body, find_fn}
use mani_tc.Reference.Eval.{evaluator}
use mani_tc.Reference.Scheduler.{
  Outcome, Row, System, Task, any_row, check_end, close_on, deadlock, enqueue_new_task, finish,
  first, goes, hangs, has_room, is_empty, on_row, open_channel, or_why, out_of_fuel, over, panics,
  pop_front, record_trap, recv_on, remove_first, resume, row_at, send_on, set_row,
}

module _ (lang : Lang) (fns : List Fn) (fuel : ℕ) where
  -- `Work::Main` and `Work::Spawned`.
  unfoldable pub main_task : Fn → Comp Unit
  main_task f = call_body (evaluator lang fns fuel) f [] >>= λ v. done tt

  unfoldable pub spawned_task : Stmts → Env → Comp Unit
  spawned_task body env = scoped (evaluator lang fns fuel) body env >>= λ r. done tt

  -- The next operation of the running task.
  unfoldable pub act : ℕ → Bool → Comp Unit → System → Outcome
  act id main (done a) g = goes (finish id g)
  act id main (abort (trap w)) g = goes (record_trap w g)
  act id main (abort (propagate v)) g =
      goes (record_trap (if main then Why.propagated_out_of_main else Why.propagated_out_of_task) g)
  act id main exhausted g = out_of_fuel
  act id main (tick k) g =
      if g.budget == 0
      then goes (record_trap Why.budget_exhausted g)
      else goes (resume id main k (record g { budget = g.budget - 1 }))
  act id main (yield_now k) g =
      goes (resume id main k (record g { run = pop_front g.run ++ id ∷ [] }))
  act id main (emit s k) g = goes (resume id main k (record g { out = g.out ++ s }))
  act id main (new_channel cap k) g = goes (resume id main (k (length g.rows)) (open_channel cap g))
  act id main (spawn body env k) g =
      goes (resume id main k (enqueue_new_task (spawned_task body env) g))
  act id main (send c v k) g = on_row (send_on id main c v k g) (row_at g.rows c)
  act id main (recv c k) g = on_row (λ row. recv_on id main c k g row row.values) (row_at g.rows c)
  act id main (close c k) g = on_row (λ row. resume id main k (close_on c g row)) (row_at g.rows c)

  abbrev pub act_of : ℕ → Option Task → System → Outcome
  act_of id none g = hangs
  act_of id (some t) g = act id t.is_main t.rest g

  abbrev pub turn : List ℕ → System → Outcome
  turn [] g = hangs
  turn (id ∷ ids) g = act_of id (Maps.lookup id g.tasks) g

  unfoldable pub step : System → Outcome
  step g = if g.stopping then over g else turn g.run g

  -- A program with a budget, before its first step.
  unfoldable pub start : ℕ → Fn → System
  start budget f = record {
    out = [];
    budget = budget;
    run = 0 ∷ [];
    rows = [];
    trapped = none;
    stopping = false;
    next_id = 1;
    tasks = (0, record { is_main = true; rest = main_task f }) ∷ [];
  }

  -- At most n steps.
  unfoldable pub steps : ℕ → System → Outcome
  steps zero g = goes g
  steps (suc n) g = elim (step g) [
    | goes next ↦ steps n next
    | over end ↦ over end
    | panics ↦ panics
    | hangs ↦ hangs
    | out_of_fuel ↦ out_of_fuel
  ]

-- `run_with`: the budget of the code, and a program that it refuses.
abbrev pub step_budget : ℕ
step_budget = 200000000

unfoldable pub has_fn : String → List Fn → Bool
has_fn name [] = false
has_fn name (f ∷ fs) = str_eq f.name name || has_fn name fs

-- The first function whose name is one of those before it.
unfoldable pub first_duplicate : List Fn → List Fn → Option String
first_duplicate before [] = none
first_duplicate before (f ∷ fs) =
    let rest = first_duplicate (f ∷ before) fs in if has_fn f.name before then some f.name else rest

pub data Observed : Type 0 where
  duplicate_function : String → Observed
  no_main : Observed
  ran : Outcome → Observed

abbrev pub run_main : Lang → List Fn → ℕ → Option Fn → Observed
run_main lang fns n none = no_main
run_main lang fns n (some f) =
    ran (steps lang fns (suc step_budget) n (start lang fns (suc step_budget) step_budget f))

unfoldable pub run_with : Lang → List Fn → ℕ → Observed
run_with lang fns n = elim (first_duplicate [] fns) [
  | some name ↦ duplicate_function name
  | none ↦ run_main lang fns n (find_fn "main" fns)
]
