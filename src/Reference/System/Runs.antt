-- ===== src/Reference/System/Runs.antt =====
-- Whole runs of `run_with` of src/reference/eval.rs.
use Prim.Native.String.{String}
use mani_tc.Prelude.{ℕ, suc, Option, none, some, List, [], arith}
use mani_tc.Reference.Ops.{Lang, Val}
use mani_tc.Reference.Syntax.{Fn}
use mani_tc.Reference.Comp.{
  Abort, trap, propagate, Env, Comp, done, abort, exhausted, tick, yield_now, emit, new_channel,
  spawn, send, recv, close, handle, ◌>>=◌,
}
use mani_tc.Reference.Rules.{Flow, normal, return, value, Evaluator}
use mani_tc.Reference.Calls.{call_body, find_fn, returned, caught}
use mani_tc.Reference.Eval.{evaluator}
use mani_tc.Reference.Valid.{LiteralsB, LiteralsF}
use mani_tc.Reference.Valid.Scopes.{IsFound}
use mani_tc.Reference.Behaves.Calls.{find_fn-Literals}
use mani_tc.Reference.System.{
  step_budget, first_duplicate, Observed, duplicate_function, no_main, ran, run_main, run_with,
  main_task,
}
use mani_tc.Reference.System.Valid.{IsFine}
use mani_tc.Reference.System.Progress.{steps-IsFine, start-IsSystem}

abbrev pub IsObserved : ℕ → Observed → Type 0
IsObserved fuel (duplicate_function name) = Unit
IsObserved fuel no_main = Unit
IsObserved fuel (ran o) = IsFine fuel o

run_main-IsObserved :
    (lang : Lang) (fns : List Fn) (n : ℕ) (f : Option Fn)
    → LiteralsF fns
    → IsFound (λ f. LiteralsB f.body) f
    → IsObserved (suc step_budget) (run_main lang fns n f)
run_main-IsObserved lang fns n none l h = tt
run_main-IsObserved lang fns n (some f) l h =
    let fuel = suc step_budget in
    steps-IsFine lang fns fuel l n _ (start-IsSystem lang fns fuel l step_budget f (omega arith) h)

pub run_with-IsObserved :
    (lang : Lang) (fns : List Fn) (n : ℕ)
    → LiteralsF fns
    → IsObserved (suc step_budget) (run_with lang fns n)
unfolding run_with
run_with-IsObserved lang fns n l =
    cases (first_duplicate [] fns)
      (run_main-IsObserved lang fns n (find_fn "main" fns) l (find_fn-Literals "main" fns l))
  where
    cases :
        (d : Option String)
        → IsObserved (suc step_budget) (run_main lang fns n (find_fn "main" fns))
        → IsObserved (suc step_budget) (elim d [
          | some name ↦ duplicate_function name
          | none ↦ run_main lang fns n (find_fn "main" fns)
        ])
    cases none h = h
    cases (some name) h = tt

-- A task that no `?` leaves.
unfoldable pub NoPropagate : {A : Type 0} → Comp A → Type 0
NoPropagate (done a) = Unit
NoPropagate (abort (trap w)) = Unit
NoPropagate (abort (propagate v)) = ⊥
NoPropagate exhausted = Unit
NoPropagate (tick k) = NoPropagate k
NoPropagate (yield_now k) = NoPropagate k
NoPropagate (emit s k) = NoPropagate k
NoPropagate (new_channel cap k) = (c : ℕ) → NoPropagate (k c)
NoPropagate (spawn b env k) = NoPropagate k
NoPropagate (send c v k) = NoPropagate k
NoPropagate (recv c k) = (v : Val) → NoPropagate (k v)
NoPropagate (close c k) = NoPropagate k

module _ {A B : Type 0} (f : A → Comp B) (g : Abort → Comp B) where
  handle-NoPropagate :
      (c : Comp A)
      → ((a : A) → NoPropagate (f a))
      → ((w : Abort) → NoPropagate (g w))
      → NoPropagate (handle c f g)
  unfolding NoPropagate handle
  handle-NoPropagate (done a) p q = p a
  handle-NoPropagate (abort w) p q = q w
  handle-NoPropagate exhausted p q = tt
  handle-NoPropagate (tick k) p q = handle-NoPropagate k p q
  handle-NoPropagate (yield_now k) p q = handle-NoPropagate k p q
  handle-NoPropagate (emit s k) p q = handle-NoPropagate k p q
  handle-NoPropagate (new_channel cap k) p q = λ c. handle-NoPropagate (k c) p q
  handle-NoPropagate (spawn b env k) p q = handle-NoPropagate k p q
  handle-NoPropagate (send c v k) p q = handle-NoPropagate k p q
  handle-NoPropagate (recv c k) p q = λ v. handle-NoPropagate (k v) p q
  handle-NoPropagate (close c k) p q = handle-NoPropagate k p q

returned-NoPropagate : (flow : Flow) (env : Env) → NoPropagate (returned (flow, env))
unfolding NoPropagate
returned-NoPropagate normal env = tt
returned-NoPropagate (return v) env = tt
returned-NoPropagate (value v) env = tt

caught-NoPropagate : (w : Abort) → NoPropagate (caught w)
unfolding NoPropagate
caught-NoPropagate (trap w) = tt
caught-NoPropagate (propagate v) = tt

call_body-NoPropagate : (ev : Evaluator) (f : Fn) (vs : List Val) → NoPropagate (call_body ev f vs)
unfolding call_body
call_body-NoPropagate ev f vs =
    handle-NoPropagate returned caught _ (λ r. returned-NoPropagate r.0 r.1) caught-NoPropagate

-- What follows a computation that no `?` leaves may pass its aborts on.
bind-NoPropagate :
    {A B : Type 0} (c : Comp A) (f : A → Comp B)
    → NoPropagate c
    → ((a : A) → NoPropagate (f a))
    → NoPropagate (c >>= f)
unfolding NoPropagate handle
bind-NoPropagate (done a) f h p = p a
bind-NoPropagate (abort (trap w)) f h p = tt
bind-NoPropagate (abort (propagate v)) f h p = h
bind-NoPropagate exhausted f h p = tt
bind-NoPropagate (tick k) f h p = bind-NoPropagate k f h p
bind-NoPropagate (yield_now k) f h p = bind-NoPropagate k f h p
bind-NoPropagate (emit s k) f h p = bind-NoPropagate k f h p
bind-NoPropagate (new_channel cap k) f h p = λ c. bind-NoPropagate (k c) f (h c) p
bind-NoPropagate (spawn b env k) f h p = bind-NoPropagate k f h p
bind-NoPropagate (send c v k) f h p = bind-NoPropagate k f h p
bind-NoPropagate (recv c k) f h p = λ v. bind-NoPropagate (k v) f (h v) p
bind-NoPropagate (close c k) f h p = bind-NoPropagate k f h p

-- The task of `main` never ends with a `?` that has left `main`, whatever the other tasks send it: it
-- ends with a value or a trap.
pub main_task-NoPropagate :
    (lang : Lang) (fns : List Fn) (fuel : ℕ) (f : Fn) → NoPropagate (main_task lang fns fuel f)
unfolding main_task
main_task-NoPropagate lang fns fuel f =
    bind-NoPropagate (call_body (evaluator lang fns fuel) f []) (λ v. done tt)
      (call_body-NoPropagate (evaluator lang fns fuel) f []) (λ v. unfold NoPropagate in tt)
