-- ===== src/Semantic/ConstEval/Ends.antt =====
-- Every evaluation of src/semantic/const_eval.rs comes to an end, and gives its scopes back.
use mani_tc.Prelude.{ℕ, zero, suc, ◌<◌, ◌≡◌, refl, Bool, true, false, Option, none, some, arith}
use mani_tc.Prelude.Int.{ℤ, pos, ◌==ℤ◌}
use mani_tc.Semantic.Syntax.{
  Expr, Block, end, next, Stmt, let_none, let_some, assign, assign_other, return_some, return_none,
  other_stmt,
}
use mani_tc.Semantic.ConstEval.{
  Eval, ConstCtx, Out, step, assign_in, Flow, normal, return, unless_return,
}
use mani_tc.Semantic.ConstEval.Run.{
  Evaluator, expr_step, expr_stmt, stmt_step, last_value, after_stmt, block_inner, run_stmts,
  while_step, evaluator, eval_int, const_eval_budget,
}
use mani_tc.Semantic.ConstEval.Settles.{
  Settles, Spends, Spends-step, Spends-bind, Settles-Spends, Follows-refl, Settles-bind, Settles-if,
  Settles-scoped, Settles-swallowed, Settles-kept,
}
use mani_tc.Semantic.ConstEval.Parts.{
  IsEvaluator, declare-Follows, assign_in-IsAsLong, assigned-Settles, branch-Settles,
  flow_of-Settles, chosen-Settles, expr_step-Settles,
}

module _ (n : ℕ) (ctx : ConstCtx) (ev : Evaluator) (good : IsEvaluator n ev) where
  expr_stmt-Settles : (e : Expr) (s : Eval) → s.budget < n → Settles s (expr_stmt ctx ev e s)
  unfolding expr_stmt
  expr_stmt-Settles (Expr.if_only c b elifs) s lt =
      chosen-Settles n ctx ev good c b elifs none s _ lt (flow_of-Settles n ctx ev good)
  expr_stmt-Settles (Expr.if_else c b elifs els) s lt =
      chosen-Settles n ctx ev good c b elifs (some els) s _ lt (flow_of-Settles n ctx ev good)
  expr_stmt-Settles (Expr.while c b) s lt = good.loop_ok c b s lt
  expr_stmt-Settles e s lt = Settles-swallowed s (ev.expr e s) (good.expr_ok e s lt)

  stmt_step-Settles : (st : Stmt) (s : Eval) → s.budget < n → Settles s (stmt_step ctx ev st s)
  unfolding stmt_step
  stmt_step-Settles (let_none x) s lt = Follows-refl s
  stmt_step-Settles (let_some x e) s lt =
      branch-Settles n ctx ev good e s _ lt (λ v t k. declare-Follows x v t)
  stmt_step-Settles (assign x e) s lt =
      branch-Settles n ctx ev good e s _ lt
        (λ v t k. assigned-Settles x t (assign_in x v t.scopes) (assign_in-IsAsLong x v t.scopes))
  stmt_step-Settles (assign_other e) s lt = Follows-refl s
  stmt_step-Settles (return_some e) s lt =
      branch-Settles n ctx ev good e s _ lt (λ v t k. Follows-refl t)
  stmt_step-Settles return_none s lt = Follows-refl s
  stmt_step-Settles (Stmt.expr e) s lt = expr_stmt-Settles e s lt
  stmt_step-Settles other_stmt s lt = Follows-refl s

  last_value-Settles :
      (st : Stmt) (last : Option ℤ) (s : Eval)
      → s.budget < n
      → Settles s (last_value ctx ev st last s)
  unfolding last_value
  last_value-Settles (Stmt.expr (Expr.if_only c b elifs)) last s lt = Follows-refl s
  last_value-Settles (Stmt.expr (Expr.if_else c b elifs els)) last s lt = Follows-refl s
  last_value-Settles (Stmt.expr (Expr.while c b)) last s lt = Follows-refl s
  last_value-Settles (Stmt.expr e) last s lt = Settles-kept s (ev.expr e s) (good.expr_ok e s lt)
  last_value-Settles st last s lt = Follows-refl s

  after_stmt-Settles :
      (rest : Option ℤ → Eval → Out ℤ) (st : Stmt) (last : Option ℤ) (flow : Flow) (s : Eval)
      → s.budget < n
      → ((o : Option ℤ) (t : Eval) → t.budget < n → Settles t (rest o t))
      → Settles s (after_stmt ctx ev rest st last flow s)
  after_stmt-Settles rest st last (return v) s lt h = Follows-refl s
  after_stmt-Settles rest st last normal s lt h =
      Settles-bind s (last_value ctx ev st last s) rest (last_value-Settles st last s lt)
        (λ o t k. h o t (omega (arith, k.spent, lt)))

  stmt-Spends :
      (st : Stmt) (s : Eval) → s.budget < suc n → Spends n s (step s (stmt_step ctx ev st))
  stmt-Spends st s lt = Spends-step n s (stmt_step ctx ev st) lt (stmt_step-Settles st)

  block_inner-Settles :
      (b : Block) (last : Option ℤ) (s : Eval)
      → s.budget < suc n
      → Settles s (block_inner ctx ev b last s)
  unfolding block_inner
  block_inner-Settles end last s lt = Follows-refl s
  block_inner-Settles (next st rest) last s lt =
      Spends-bind n s (step s (stmt_step ctx ev st)) _ (stmt-Spends st s lt) (λ flow t k.
        after_stmt-Settles (block_inner ctx ev rest) st last flow t k
          (λ o u m. block_inner-Settles rest o u (omega (arith, m))))

  unless_return-Settles :
      (rest : Eval → Out Flow) (flow : Flow) (s : Eval)
      → Settles s (rest s)
      → Settles s (unless_return rest flow s)
  unless_return-Settles rest (return v) s h = Follows-refl s
  unless_return-Settles rest normal s h = h

  run_stmts-Settles : (b : Block) (s : Eval) → s.budget < suc n → Settles s (run_stmts ctx ev b s)
  unfolding run_stmts
  run_stmts-Settles end s lt = Follows-refl s
  run_stmts-Settles (next st rest) s lt =
      Spends-bind n s (step s (stmt_step ctx ev st)) _ (stmt-Spends st s lt) (λ flow t k.
        unless_return-Settles (run_stmts ctx ev rest) flow t
          (run_stmts-Settles rest t (omega (arith, k))))

  while_step-Settles :
      (c : Expr) (b : Block) (s : Eval) → s.budget < n → Settles s (while_step ctx ev c b s)
  unfolding while_step
  while_step-Settles c b s lt = branch-Settles n ctx ev good c s _ lt (λ v t k.
      Settles-if (v ==ℤ pos 0) t _ _ (Follows-refl t) (
        Settles-bind t (ev.run b t) _ (good.run_ok b t k) (λ flow u m.
          unless_return-Settles (ev.loop c b) flow u
            (good.loop_ok c b u (omega (arith, m.spent, k))))))

evaluator-IsEvaluator : (ctx : ConstCtx) (n : ℕ) → IsEvaluator n (evaluator ctx n)
unfolding evaluator
evaluator-IsEvaluator ctx zero = record {
  expr_ok = λ e s lt. absurd (omega (arith, lt));
  value_ok = λ b s lt. absurd (omega (arith, lt));
  run_ok = λ b s lt. absurd (omega (arith, lt));
  loop_ok = λ c b s lt. absurd (omega (arith, lt));
}
evaluator-IsEvaluator ctx (suc n) =
    let ev = evaluator ctx n in
    let good = evaluator-IsEvaluator ctx n in
    record {
      expr_ok = λ e s lt.
          Settles-Spends n s _
            (Spends-step n s (expr_step ctx ev e) lt (expr_step-Settles n ctx ev good e));
      value_ok = λ b s lt.
          Settles-scoped s (block_inner ctx ev b none)
            (λ t e. block_inner-Settles n ctx ev good b none t (omega (arith, lt, e)));
      run_ok = λ b s lt.
          Settles-scoped s (run_stmts ctx ev b)
            (λ t e. run_stmts-Settles n ctx ev good b t (omega (arith, lt, e)));
      loop_ok = λ c b s lt.
          Settles-Spends n s _
            (Spends-step n s (while_step ctx ev c b) lt (while_step-Settles n ctx ev good c b));
    }

-- On a budget of fewer steps than there is fuel, the evaluation of an expression comes to an end, with a
-- value or an error; either way it leaves as many scopes open as there were, at the same depth of calls,
-- and no more budget than before.
pub expr-Settles :
    (ctx : ConstCtx) (fuel : ℕ) (e : Expr) (s : Eval)
    → s.budget < fuel
    → Settles s ((evaluator ctx fuel).expr e s)
expr-Settles ctx fuel e s lt = (evaluator-IsEvaluator ctx fuel).expr_ok e s lt

-- Whether an evaluation has a result, the value of a constant or an error.
abbrev pub is_answered : {A : Type 0} → Out A → Bool
is_answered none = false
is_answered (some r) = true

is_answered-Settles : {A : Type 0} (s : Eval) (o : Out A) → Settles s o → is_answered o ≡ true
is_answered-Settles s none h = absurd h
is_answered-Settles s (some r) h = refl

-- The compile-time evaluation of every expression, in every context, comes to an end: on the code's
-- budget of 100000 steps it gives a value or an error, whatever loops and calls the constant has.
pub eval_int-answered : (e : Expr) (ctx : ConstCtx) → is_answered (eval_int e ctx) ≡ true
unfolding eval_int
eval_int-answered e ctx =
    is_answered-Settles _ _ (expr-Settles ctx (suc const_eval_budget) e _ (omega arith))
