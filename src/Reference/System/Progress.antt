-- ===== src/Reference/System/Progress.antt =====
-- Every step of a program that src/reference/eval.rs runs.
use mani_tc.Prelude.{
  ℕ, zero, suc, ◌-◌, ◌<◌, ◌==◌, ◌≡◌, ◌≢◌, refl, sym, subst, Bool, false, Bool-cases, Option, none,
  some, List, [], ◌∷◌, ◌++◌, All, length, length-append, if◌then◌else◌, inl, inr, arith,
}
use mathlib.Core.Option.{some-injective}
use mani_tc.Prelude.Maps
use mani_tc.Reference.Ops.{Lang}
use mani_tc.Reference.Syntax.{Stmts, Fn}
use mani_tc.Reference.Comp.{
  Why, trap, propagate, Env, Comp, done, abort, exhausted, tick, yield_now, emit, new_channel,
  spawn, send, recv, close,
}
use mani_tc.Reference.Rules.{scoped}
use mani_tc.Reference.Calls.{call_body}
use mani_tc.Reference.Eval.{evaluator}
use mani_tc.Reference.Valid.{IsEnv, LiteralsB, LiteralsF}
use mani_tc.Reference.Behaves.{Behaves, Behaves-bind, Behaves-done}
use mani_tc.Reference.Behaves.Rules.{FlowEnv, scoped-Behaves}
use mani_tc.Reference.Behaves.Calls.{IsReturned, call_body-Behaves}
use mani_tc.Reference.Behaves.Statements.{evaluator-IsEvaluator}
use mani_tc.Reference.System.{main_task, spawned_task, act, act_of, turn, step, start, steps}
use mani_tc.Reference.Scheduler.{
  Task, System, row_at, pop_front, first, record_trap, resume, open_channel, enqueue_new_task,
  Outcome, panics, hangs, out_of_fuel, over, goes, send_on, recv_on, close_on, on_row,
}
use mani_tc.Reference.System.Valid.{Ends, Present, IsCore, IsSystem, IsFine}
use mani_tc.Reference.System.Valid.Rows.{All-append, All-pop_front, row_at-some, All-row_at}
use mani_tc.Reference.System.Operations.{
  nonempty-back, on_row-IsFine, send_on-IsSystem, recv_on-IsSystem, close_on-IsSystem,
}
use mani_tc.Reference.System.Updates.{
  at_work-IsSystem, record_trap-IsSystem, resume-IsSystem, with_run, finish-IsSystem, with_budget,
  open_channel-IsCore, enqueue-IsCore,
}

module _ (lang : Lang) (fns : List Fn) (fuel : ℕ) (lits : LiteralsF fns) where
  spawned-Behaves :
      (budget m : ℕ) (body : Stmts) (env : Env)
      → budget < fuel
      → LiteralsB body
      → IsEnv m env
      → Behaves Ends budget m (spawned_task lang fns fuel body env)
  unfolding spawned_task
  spawned-Behaves budget m body env lt l h =
      let good = evaluator-IsEvaluator lang fns fuel budget lits lt in
      Behaves-bind FlowEnv Ends budget m (scoped (evaluator lang fns fuel) body env) _
        (scoped-Behaves budget (evaluator lang fns fuel) good m body env l h)
        (λ p r le q. Behaves-done Ends budget p tt tt)

  main-Behaves :
      (budget : ℕ) (f : Fn)
      → budget < fuel
      → LiteralsB f.body
      → Behaves Ends budget 0 (main_task lang fns fuel f)
  unfolding main_task
  main-Behaves budget f lt l =
      let good = evaluator-IsEvaluator lang fns fuel budget lits lt in
      Behaves-bind IsReturned Ends budget 0 (call_body (evaluator lang fns fuel) f []) _
        (call_body-Behaves budget (evaluator lang fns fuel) good 0 f [] l tt)
        (λ p r le q. Behaves-done Ends budget p tt tt)

  module _ (id : ℕ) (main : Bool) (g : System) (h : IsCore fuel g) (w : g.run ≢ [])
      (here : Present g.tasks id) where
    ticked :
        (k : Comp Unit) (n : ℕ)
        → g.budget ≡ n
        → Behaves Ends n (length g.rows) (tick k)
        → IsFine fuel (
            if n == 0
            then goes (record_trap Why.budget_exhausted g)
            else goes (resume id main k (record g { budget = n - 1 })))
    ticked k zero e b = record_trap-IsSystem fuel Why.budget_exhausted g h
    ticked k (suc n) e b = rw (more n) (
        resume-IsSystem fuel id main k (record g { budget = suc n - 1 })
          (with_budget fuel g (suc n - 1) (omega (arith, e)) h) w
          (subst (λ x. Behaves Ends x (length g.rows) k) (less n) (unfold Behaves in b)))
      where
        less : (n : ℕ) → n ≡ suc n - 1
        less n = omega arith

        more : (n : ℕ) → (suc n == 0) ≡ false
        more n = ground arith

    act-IsFine :
        (k : Comp Unit)
        → Behaves Ends g.budget (length g.rows) k
        → IsFine fuel (act lang fns fuel id main k g)
    unfolding act
    act-IsFine (done a) b = finish-IsSystem fuel id g h
    act-IsFine (abort (trap x)) b = record_trap-IsSystem fuel x g h
    act-IsFine (abort (propagate v)) b = record_trap-IsSystem fuel _ g h
    act-IsFine exhausted b = unfold Behaves in b
    act-IsFine (tick k) b = ticked k g.budget refl b
    act-IsFine (yield_now k) b =
        resume-IsSystem fuel id main k _
          (with_run fuel g (pop_front g.run ++ id ∷ []) h (
            All-append (Present g.tasks) (pop_front g.run) (id ∷ [])
              (All-pop_front (Present g.tasks) g.run h.queue_ok) (here, tt)))
          (nonempty-back (pop_front g.run) id) (yielded b)
      where
        yielded :
            Behaves Ends g.budget (length g.rows) (yield_now k)
            → Behaves Ends g.budget (length g.rows) k
        yielded b = unfold Behaves in (b (length g.rows) (omega arith))
    act-IsFine (emit s k) b =
        resume-IsSystem fuel id main k (record g { out = g.out ++ s })
          (record {
            fuel_left = h.fuel_left;
            tasks_ok = h.tasks_ok;
            rows_ok = h.rows_ok;
            queue_ok = h.queue_ok;
          })
          w (unfold Behaves in b)
    act-IsFine (new_channel cap k) b =
        resume-IsSystem fuel id main (k (length g.rows)) (open_channel cap g)
          (open_channel-IsCore fuel cap g h) (unfold open_channel in w) (opened b)
      where
        opened :
            Behaves Ends g.budget (length g.rows) (new_channel cap k)
            → Behaves Ends
                (open_channel cap g).budget
                (length (open_channel cap g).rows)
                (k (length g.rows))
        opened b =
            unfold Behaves open_channel in
            (b _ (length g.rows) (omega (arith, length-append g.rows (_ ∷ [])))
              (omega (arith, length-append g.rows (_ ∷ []))))
    act-IsFine (spawn body env k) b = begun b
      where
        begun :
            Behaves Ends g.budget (length g.rows) (spawn body env k)
            → IsSystem fuel
                (resume id main k (enqueue_new_task (spawned_task lang fns fuel body env) g))
        begun b =
            unfold Behaves enqueue_new_task in
            (resume-IsSystem fuel id main k _
              (enqueue-IsCore fuel _ g h
                (spawned-Behaves g.budget (length g.rows) body env h.fuel_left b.0 b.1))
              (nonempty-back g.run g.next_id) b.2)
    act-IsFine (send c v k) b = sent b
      where
        sent :
            Behaves Ends g.budget (length g.rows) (send c v k)
            → IsFine fuel (on_row (send_on id main c v k g) (row_at g.rows c))
        sent b =
            unfold Behaves in
            (let (row, e) = row_at-some g.rows c b.0 in
              on_row-IsFine fuel _ _ row e (
                send_on-IsSystem fuel id main g h w here c row
                  (All-row_at _ g.rows c row e h.rows_ok) v k b.1
                  (b.2 (length g.rows) (omega arith))))
    act-IsFine (recv c k) b = received b
      where
        received :
            Behaves Ends g.budget (length g.rows) (recv c k)
            → IsFine fuel (on_row (λ row. recv_on id main c k g row row.values) (row_at g.rows c))
        received b =
            unfold Behaves in
            (let (row, e) = row_at-some g.rows c b.0 in
              on_row-IsFine fuel _ _ row e (
                recv_on-IsSystem fuel id main g h w here c row
                  (All-row_at _ g.rows c row e h.rows_ok) k
                  (λ v valid. b.1 (length g.rows) v (omega arith) valid)))
    act-IsFine (close c k) b = shut b
      where
        shut :
            Behaves Ends g.budget (length g.rows) (close c k)
            → IsFine fuel (on_row (λ row. resume id main k (close_on c g row)) (row_at g.rows c))
        shut b =
            unfold Behaves in
            (let (row, e) = row_at-some g.rows c b.0 in
              on_row-IsFine fuel _ _ row e (
                close_on-IsSystem fuel id main g h w here c row
                  (All-row_at _ g.rows c row e h.rows_ok) k b.1))

  -- A step of a program under the invariant keeps it, or the program has ended; no index is out of
  -- range, some task has the turn, and the fuel of the evaluator is not used up.
  pub step-IsFine : (g : System) → IsSystem fuel g → IsFine fuel (step lang fns fuel g)
  unfolding step
  step-IsFine g h = elim (Bool-cases g.stopping) [
    | inl ended ↦
        subst (λ b. IsFine fuel (if b then Outcome.over g else turn lang fns fuel g.run g))
          (sym ended) (ended, h)
    | inr running ↦
        subst (λ b. IsFine fuel (if b then Outcome.over g else turn lang fns fuel g.run g))
          (sym running) (turns g.run refl h.core.queue_ok (h.somebody running))
  ]
    where
      acts :
          (id : ℕ) (t : Option Task)
          → g.run ≢ []
          → Present g.tasks id
          → Maps.lookup id g.tasks ≡ t
          → IsFine fuel (act_of lang fns fuel id t g)
      acts id none w (t, e) f = cc (e, f)
      acts id (some t) w here f =
          act-IsFine id t.is_main g h.core w here t.rest (h.core.tasks_ok id t f)

      turns :
          (run : List ℕ)
          → g.run ≡ run
          → All (Present g.tasks) run
          → run ≢ []
          → IsFine fuel (turn lang fns fuel run g)
      turns [] e p w = absurd (w refl)
      turns (id ∷ ids) e p w =
          acts id (Maps.lookup id g.tasks) (subst (λ r. r ≢ []) (sym e) w) p.0 refl

  pub steps-IsFine : (n : ℕ) (g : System) → IsSystem fuel g → IsFine fuel (steps lang fns fuel n g)
  unfolding steps
  steps-IsFine zero g h = h
  steps-IsFine (suc n) g h = next (λ t. steps-IsFine n t) (step lang fns fuel g) (step-IsFine g h)
    where
      next :
          ((t : System) → IsSystem fuel t → IsFine fuel (steps lang fns fuel n t))
          → (o : Outcome) → IsFine fuel o
          → IsFine fuel (elim o [
            | goes g ↦ steps lang fns fuel n g
            | over g ↦ over g
            | panics ↦ panics
            | hangs ↦ hangs
            | out_of_fuel ↦ out_of_fuel
          ])
      next ih (goes g) k = ih g k
      next ih (over g) k = k
      next ih panics k = k
      next ih hangs k = k
      next ih out_of_fuel k = k

  only_task :
      (first : Task) (budget id : ℕ) (t : Task)
      → Behaves Ends budget 0 first.rest
      → (if 0 == id then some first else none) ≡ some t
      → Behaves Ends budget 0 t.rest
  only_task first budget id t b e = elim (Bool-cases (0 == id)) [
    | inl same ↦ subst (λ x. Behaves Ends budget 0 x.rest) (some-injective first t (rw same at e)) b
    | inr other ↦ cc (rw other at e)
  ]

  pub start-IsSystem :
      (budget : ℕ) (f : Fn)
      → budget < fuel
      → LiteralsB f.body
      → IsSystem fuel (start lang fns fuel budget f)
  unfolding start Maps.lookup
  start-IsSystem budget f lt l =
      at_work-IsSystem fuel _
        (record {
          fuel_left = lt;
          tasks_ok = λ id t e. only_task _ budget id t (main-Behaves budget f lt l) e;
          rows_ok = tt;
          queue_ok = ((_, refl), tt);
        })
        (λ e. cc e)
