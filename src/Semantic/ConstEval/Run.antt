-- ===== src/Semantic/ConstEval/Run.antt =====
-- The evaluator of src/semantic/const_eval.rs, over the evaluator of the parts. Each unit of the model's
-- fuel but those of `value` and `run` is a step of the budget.
use mani_tc.Prelude.{
  ℕ, zero, suc, ◌+◌, ◌==◌, leb, not, Option, none, some, List, [], ◌∷◌, length, if◌then◌else◌,
}
use mani_tc.Prelude.Maps
use mani_tc.Prelude.Int.{ℤ, pos, ◌==ℤ◌}
use mani_tc.Semantic.Syntax.{
  Expr, Args, arg, Elifs, no_elifs, elif, Block, end, next, Stmt, let_none, let_some, assign,
  assign_other, return_some, return_none, other_stmt, FnDef,
}
use mani_tc.Semantic.ConstEval.{
  Eval, ConstCtx, Flow, Out, ◌>>=◌, step, ok_or, bin, unary, literal_value, lookup, assign_in,
  declare, scoped, count_args, returned, max_depth, assigned, swallowed, kept, unless_return, err,
  ok, not_constant, budget, unbound, normal, return, not_const_fn, wrong_arguments, no_body,
  indirect, no_else, while_value, no_value, let_uninit, assign_target, return_empty, fragment,
}

-- The evaluator of the parts: `expr`, `block_value`, `run_block` and `run_while`.
pub record Evaluator : Type 0 where
  pub expr : Expr → Eval → Out ℤ
  pub value : Block → Eval → Out ℤ
  pub run : Block → Eval → Out Flow
  pub loop : Expr → Block → Eval → Out Flow

module _ (ctx : ConstCtx) (ev : Evaluator) where
  -- `pick_branch`, after the condition of the `if`.
  unfoldable pub pick_elifs : Elifs → Option Block → Eval → Out (Option Block)
  pick_elifs no_elifs els s = some (ok els, s)
  pick_elifs (elif c b rest) els s =
      ev.expr c s >>= λ v t. if v ==ℤ pos 0 then pick_elifs rest els t else some (ok (some b), t)

  unfoldable pub pick_branch : Expr → Block → Elifs → Option Block → Eval → Out (Option Block)
  pick_branch c b elifs els s =
      ev.expr c s >>= λ v t. if v ==ℤ pos 0 then pick_elifs elifs els t else some (ok (some b), t)

  abbrev pub value_of : Option Block → Eval → Out ℤ
  value_of none s = some (err (not_constant no_else), s)
  value_of (some b) s = ev.value b s

  abbrev pub flow_of : Option Block → Eval → Out Flow
  flow_of none s = some (ok normal, s)
  flow_of (some b) s = ev.run b s

  -- The arguments of a call, left to right, in the frame of its parameters.
  unfoldable pub bind_args : List ℕ → Args → List (ℕ × ℤ) → Eval → Out (List (ℕ × ℤ))
  bind_args (p ∷ ps) (arg e rest) frame s =
      ev.expr e s >>= λ v t. bind_args ps rest (Maps.insert p v frame) t
  bind_args _ _ frame s = some (ok frame, s)

  abbrev pub in_frame : ℕ → Option Block → List (ℕ × ℤ) → Eval → Out ℤ
  in_frame name none frame s = some (err (not_constant (no_body name)), s)
  in_frame name (some b) frame s =
      returned s (ev.value b (record s { scopes = frame ∷ []; depth = s.depth + 1 }))

  abbrev pub call_fn : ℕ → Option FnDef → Args → Eval → Out ℤ
  call_fn name none args s = some (err (not_constant (not_const_fn name)), s)
  call_fn name (some f) args s =
      if leb max_depth s.depth
      then some (err budget, s)
      else if not (length f.params == count_args args)
      then some (err (not_constant (wrong_arguments name)), s)
      else (bind_args f.params args [] s >>= λ frame t. in_frame name f.body frame t)

  -- The match of `expr`, after its step.
  unfoldable pub expr_step : Expr → Eval → Out ℤ
  expr_step (Expr.lit l) s = some (literal_value l, s)
  expr_step (Expr.ident n) s = some (ok_or (lookup ctx.ints n s.scopes) (unbound n), s)
  expr_step (Expr.un_op op e) s = ev.expr e s >>= λ v t. some (unary op v, t)
  expr_step (Expr.bin_op a op b) s =
      ev.expr a s >>= λ x t. ev.expr b t >>= λ y u. some (bin x op y, u)
  expr_step (Expr.cast e) s = ev.expr e s
  expr_step (Expr.if_only c b elifs) s = pick_branch c b elifs none s >>= value_of
  expr_step (Expr.if_else c b elifs els) s = pick_branch c b elifs (some els) s >>= value_of
  expr_step (Expr.while c b) s =
      ev.loop c b s >>= λ flow t. some (err (not_constant while_value), t)
  expr_step (Expr.block b) s = ev.value b s
  expr_step (Expr.call name args) s = call_fn name (Maps.lookup name ctx.fns) args s
  expr_step (Expr.call_indirect e args) s = some (err (not_constant indirect), s)
  expr_step Expr.other_expr s = some (err (not_constant fragment), s)

  unfoldable pub expr_stmt : Expr → Eval → Out Flow
  expr_stmt (Expr.if_only c b elifs) s = pick_branch c b elifs none s >>= flow_of
  expr_stmt (Expr.if_else c b elifs els) s = pick_branch c b elifs (some els) s >>= flow_of
  expr_stmt (Expr.while c b) s = ev.loop c b s
  expr_stmt e s = swallowed (ev.expr e s)

  -- The match of `stmt`, after its step.
  unfoldable pub stmt_step : Stmt → Eval → Out Flow
  stmt_step (let_none n) s = some (err (not_constant let_uninit), s)
  stmt_step (let_some n e) s =
      ev.expr e s >>= λ v t. some (ok normal, record t { scopes = declare n v t.scopes })
  stmt_step (assign n e) s = ev.expr e s >>= λ v t. assigned n t (assign_in n v t.scopes)
  stmt_step (assign_other e) s = some (err (not_constant assign_target), s)
  stmt_step (return_some e) s = ev.expr e s >>= λ v t. some (ok (return v), t)
  stmt_step return_none s = some (err (not_constant return_empty), s)
  stmt_step (Stmt.expr e) s = expr_stmt e s
  stmt_step other_stmt s = some (err (not_constant fragment), s)

  -- What `block_inner` does after a statement: an expression is evaluated once more for its value.
  unfoldable pub last_value : Stmt → Option ℤ → Eval → Out (Option ℤ)
  last_value (Stmt.expr (Expr.if_only c b elifs)) last s = some (ok last, s)
  last_value (Stmt.expr (Expr.if_else c b elifs els)) last s = some (ok last, s)
  last_value (Stmt.expr (Expr.while c b)) last s = some (ok last, s)
  last_value (Stmt.expr e) last s = kept (ev.expr e s)
  last_value st last s = some (ok last, s)

  abbrev pub after_stmt : (Option ℤ → Eval → Out ℤ) → Stmt → Option ℤ → Flow → Eval → Out ℤ
  after_stmt rest st last (return v) s = some (ok v, s)
  after_stmt rest st last normal s = last_value st last s >>= rest

  -- The loop of `block_inner`.
  unfoldable pub block_inner : Block → Option ℤ → Eval → Out ℤ
  block_inner end last s = some (ok_or last (not_constant no_value), s)
  block_inner (next st rest) last s =
      step s (stmt_step st) >>= after_stmt (block_inner rest) st last

  -- The loop of `run_block`.
  unfoldable pub run_stmts : Block → Eval → Out Flow
  run_stmts end s = some (ok normal, s)
  run_stmts (next st rest) s = step s (stmt_step st) >>= unless_return (run_stmts rest)

  -- A round of `run_while`, after its step.
  unfoldable pub while_step : Expr → Block → Eval → Out Flow
  while_step c b s = ev.expr c s >>= λ v t.
      if v ==ℤ pos 0 then some (ok normal, t) else (ev.run b t >>= unless_return (ev.loop c b))

unfoldable pub evaluator : ConstCtx → ℕ → Evaluator
evaluator ctx zero = record {
  expr = λ e s. none;
  value = λ b s. none;
  run = λ b s. none;
  loop = λ c b s. none;
}
evaluator ctx (suc n) =
    let ev = evaluator ctx n in
    record {
      expr = λ e s. step s (expr_step ctx ev e);
      value = λ b s. scoped (block_inner ctx ev b none) s;
      run = λ b s. scoped (run_stmts ctx ev b) s;
      loop = λ c b s. step s (while_step ctx ev c b);
    }

abbrev pub const_eval_budget : ℕ
const_eval_budget = 100000

unfoldable pub eval_int : Expr → ConstCtx → Out ℤ
eval_int e ctx =
    (evaluator ctx (suc const_eval_budget)).expr e
      (record { scopes = []; budget = const_eval_budget; depth = 0 })
