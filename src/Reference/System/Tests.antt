-- ===== src/Reference/System/Tests.antt =====
-- Programs of the core language, run by the model of src/reference/eval.rs.
use mani_tc.Prelude.{ℕ, ◌≡◌, refl, arith, true, false, Option, none, some, List, [], ◌∷◌}
use mani_tc.Prelude.Int.{pos, negsuc}
use mani_tc.Reference.Env
use mani_tc.Reference.Rules
use mani_tc.Reference.Calls
use mani_tc.Reference.Eval
use mani_tc.Reference.System
use mani_tc.Reference.Scheduler
use mani_tc.Reference.Cast
use mani_tc.Reference.Ops
use mani_tc.Reference.Comp
use mani_tc.Prelude.Maps
use mani_tc.Prelude.Int
use mani_tc.Reference.Bin
use mani_tc.Reference.Ty
use mani_tc.Reference.Ops.{Val, v2}
use mani_tc.Reference.Syntax.{
  Expr, no_args, arg, no_cases, match_arm, Stmt, declare, return_none, yield, eval, spawn, Stmts,
  empty, next, Fn,
}
use mani_tc.Reference.Comp.{Why, Env}
use mani_tc.Reference.Eval.{evaluator}
use mani_tc.Reference.Valid.{LiteralsE, LiteralsF, IsVal, IsEnv}
use mani_tc.Reference.System.Runs.{NoPropagate, main_task-NoPropagate}
use mani_tc.Reference.System.Alone.{sound_alone, sound_alone-expr}
use mani_tc.Reference.System.Sound.{sound_observed, sound_observed-run_with}
use mani_tc.Reference.System.{main_task, Observed, ran, run_with}
use mani_tc.Reference.Scheduler.{System, Outcome, over, goes}

-- What a program shown_then and how it ended, if it has ended.
data Seen : Type 0 where
  shown_then : List ℕ → Option Why → Seen
  other : Seen

abbrev seen : Observed → Seen
seen (ran (over g)) = shown_then g.out g.trapped
seen _ = other

abbrev main_of : Stmts → List Fn
main_of body = record { name = "main"; params = []; ret = Ty.void; body = body } ∷ []

abbrev print_int : Expr → Stmt
print_int e = eval (Expr.call "io::print_int" (arg e no_args))

abbrev channel_program : List Fn
channel_program = main_of (
    next (declare "c" false none (Expr.call "channel" no_args)) (
      next
        (spawn
          (next (eval (Expr.method (Expr.var "c") "send" (arg (Expr.int (pos 42)) no_args))) empty))
        (next (print_int (Expr.method (Expr.var "c") "recv" no_args)) empty)))

abbrev deadlock_program : List Fn
deadlock_program = main_of (
    next (declare "c" false none (Expr.call "channel" no_args))
      (next (eval (Expr.method (Expr.var "c") "recv" no_args)) empty))

-- A `return` in an arm of a match, in a spawned block.
abbrev returning_program : List Fn
returning_program = main_of (
    next
      (spawn (
        next
          (eval (
            Expr.match (Expr.call "Ok" (arg (Expr.int (pos 1)) no_args))
              (match_arm "_" none (next return_none empty) no_cases)))
          empty))
      (next yield (next (print_int (Expr.int (pos 7))) empty)))

abbrev plain_return_program : List Fn
plain_return_program =
    main_of (
      next (spawn (next return_none empty))
        (next yield (next (print_int (Expr.int (pos 7))) empty)))

-- A value sent to the task that waits; nobody to send; a `return` in an arm of a match of a spawned
-- block, and one that stands in the block itself.
programs_run :
    (seen (run_with v2 channel_program 100) ≡ shown_then (52 ∷ 50 ∷ []) none)
    × (seen (run_with v2 deadlock_program 100) ≡ shown_then [] (some Why.deadlock_fill))
    × (seen (run_with v2 returning_program 100) ≡ shown_then [] (some Why.propagated_out_of_task))
    × (seen (run_with v2 plain_return_program 100) ≡ shown_then (55 ∷ []) none)
unfolding Env.find Env.put Env.read Env.declare_in Env.assign_in Env.pop Comp.handle Rules.trit_of
    Rules.word_of Rules.unary Rules.scoped Rules.block_value Rules.if_value Rules.arguments
    Rules.digits Rules.to_string Rules.shown Rules.print_values Rules.print_texts Rules.try_value
    Rules.find_arm Rules.match_value Calls.send_method Calls.recv_method Calls.close_method
    Calls.chan_method Calls.unwrap Calls.unwrap_or Calls.result_method Calls.method_value
    Calls.first_argument Calls.bounded_channel Calls.unbounded_channel Calls.bind_params
    Calls.call_body Calls.find_fn Calls.call Eval.truth_of Eval.and_also Eval.or_also Eval.operate
    Eval.binop Eval.expr_step Eval.if_stmt Eval.stmt_step Eval.stmts_loop Eval.loop_step
    Eval.evaluator Scheduler.row_at Scheduler.set_row Scheduler.remove_first Scheduler.any_row
    Scheduler.check_end Scheduler.record_trap Scheduler.resume Scheduler.finish
    Scheduler.open_channel Scheduler.enqueue_new_task System.main_task System.spawned_task
    System.act System.step System.start System.steps System.has_fn System.first_duplicate
    System.run_with Cast.cast Cast.coerce_decl Cast.reshape Ops.as_print_int Ops.checked
    Ops.trit_operand Ops.truthy Ops.apply Maps.lookup Maps.insert Int.neg_ℤ
programs_run = (refl, refl, refl, refl)

channel_program-Literals : LiteralsF channel_program
unfolding LiteralsE
channel_program-Literals = omega arith

sound_observed-run_with_example : sound_observed (run_with v2 channel_program 100) ≡ true
sound_observed-run_with_example =
    sound_observed-run_with v2 channel_program 100 channel_program-Literals

main_task-NoPropagate_example : NoPropagate (
    main_task v2 returning_program 9
      (record { name = "main"; params = []; ret = Ty.void; body = empty }))
main_task-NoPropagate_example =
    main_task-NoPropagate v2 returning_program 9
      (record { name = "main"; params = []; ret = Ty.void; body = empty })

-- Half of what a channel sends.
abbrev quotient : Expr
quotient = Expr.bin Bin.div (Expr.method (Expr.var "c") "recv" no_args) (Expr.int (pos 2))

abbrev with_channel : Env
with_channel = (("c", record { value = Ops.chan 0; mutable = false }) ∷ []) ∷ []

abbrev sevens : ℕ → Val
sevens j = Ops.int (pos 7)

quotient-Literals : LiteralsE quotient
unfolding LiteralsE
quotient-Literals = omega arith

with_channel-IsEnv : IsEnv 1 with_channel
unfolding IsVal
with_channel-IsEnv = omega arith

sevens-IsVal : (j : ℕ) → IsVal 1 (sevens j)
unfolding IsVal
sevens-IsVal j = omega arith

sound_alone-expr_example :
    sound_alone sevens 0 10 1 ((evaluator v2 channel_program 11).expr quotient with_channel) ≡ true
sound_alone-expr_example =
    sound_alone-expr v2 channel_program 11 10 1 quotient with_channel sevens
      channel_program-Literals quotient-Literals (omega arith) with_channel-IsEnv sevens-IsVal
