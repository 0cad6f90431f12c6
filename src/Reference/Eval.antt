-- ===== src/Reference/Eval.antt =====
-- The evaluator of src/reference/eval.rs, for a language version and the functions of a program. A
-- call of `expr`, of `stmts_inner` and each round of a loop takes a unit of fuel.
use Prim.Native.String.{String}
use mani_tc.Prelude.{ℕ, zero, suc, true, false, Option, none, some, List, if◌then◌else◌}
use mani_tc.Prelude.Int.{pos, ltb_ℤ, ◌==ℤ◌}
use mani_tc.Reference.Bin.{Bin}
use mani_tc.Reference.Ty.{Ty}
use mani_tc.Reference.Ops.{Lang, Val, trit, bool, bool3, text, truthy, checked, apply}
use mani_tc.Reference.Cast.{cast, coerce_decl}
use mani_tc.Reference.Syntax.{
  Expr, Arms, no_arms, arm, Stmt, declare, assign, if_then, if_else, tif, while, return_none, yield,
  return_some, eval, tail, spawn, Stmts, empty, next, Fn,
}
use mani_tc.Reference.Comp.{Why, Env, Comp, done, exhausted, tick, ◌>>=◌}
use mani_tc.Reference.Env.{Assigned, unbound, immutable, stored, read, declare_in, assign_in}
use mani_tc.Reference.Rules.{
  Flow, normal, return, value, Evaluator, fail, lift, trit_of, unary, scoped, if_value, try_value,
  match_value,
}
use mani_tc.Reference.Calls.{call, method_value}

abbrev pub read_or_fail : String → Option Val → Comp Val
read_or_fail name none = fail (Why.unbound name)
read_or_fail name (some v) = done v

unfoldable pub truth_of : Evaluator → Expr → Env → Comp (Val × Env)
truth_of ev e env = ev.expr e env >>= λ (v, after). done (bool (truthy v), after)

-- `&&` and `||`, whose right operand may stay unevaluated.
unfoldable pub and_also : Evaluator → Expr → Expr → Env → Comp (Val × Env)
and_also ev l r env =
    ev.expr l env >>= λ (a, mid). if truthy a then truth_of ev r mid else done (bool false, mid)

unfoldable pub or_also : Evaluator → Expr → Expr → Env → Comp (Val × Env)
or_also ev l r env =
    ev.expr l env >>= λ (a, mid). if truthy a then done (bool true, mid) else truth_of ev r mid

unfoldable pub operate : Lang → Evaluator → Bin → Expr → Expr → Env → Comp (Val × Env)
operate lang ev op l r env = ev.expr l env >>= λ (a, mid).
    ev.expr r mid >>= λ (b, after). lift (apply lang op a b) >>= λ v. done (v, after)

unfoldable pub binop : Lang → Evaluator → Bin → Expr → Expr → Env → Comp (Val × Env)
binop lang ev Bin.and_and l r env = and_also ev l r env
binop lang ev Bin.or_or l r env = or_also ev l r env
binop lang ev op l r env = operate lang ev op l r env

module _ (lang : Lang) (fns : List Fn) (ev : Evaluator) where
  -- The match of `expr`, after its tick.
  unfoldable pub expr_step : Expr → Env → Comp (Val × Env)
  expr_step (Expr.if_expr arms els) env = if_value ev arms els env
  expr_step (Expr.int n) env = lift (checked n) >>= λ v. done (v, env)
  expr_step (Expr.trit_lit t) env = done (trit t, env)
  expr_step (Expr.bool_lit b) env = done (bool b, env)
  expr_step (Expr.bool3_lit t) env = done (bool3 t, env)
  expr_step (Expr.str t) env = done (text t, env)
  expr_step (Expr.var name) env = read_or_fail name (read name env) >>= λ v. done (v, env)
  expr_step (Expr.cast e ty) env = ev.expr e env >>= λ (v, after). done (cast v ty, after)
  expr_step (Expr.un op e) env = ev.expr e env >>= λ (v, after). unary op v >>= λ u. done (u, after)
  expr_step (Expr.bin op l r) env = binop lang ev op l r env
  expr_step (Expr.call name args) env = call ev fns name args env
  expr_step (Expr.method e name args) env =
      ev.expr e env >>= λ (v, after). method_value ev v name args after
  expr_step (Expr.try e) env = ev.expr e env >>= λ (v, after). try_value v >>= λ u. done (u, after)
  expr_step (Expr.match e cases) env = ev.expr e env >>= λ (v, after). match_value ev v cases after

abbrev pub declared : Option Ty → Val → Val
declared none v = v
declared (some ty) v = coerce_decl v ty

abbrev pub assigned_flow : String → Assigned → Comp (Flow × Env)
assigned_flow name unbound = fail (Why.unbound_assignment name)
assigned_flow name immutable = fail (Why.immutable name)
assigned_flow name (stored env) = done (normal, env)

-- What a loop does after its body.
abbrev pub round_end : Comp (Flow × Env) → Flow → Env → Comp (Flow × Env)
round_end again (return v) env = done (return v, env)
round_end again normal env = again
round_end again (value v) env = again

module _ (ev : Evaluator) where
  -- `Stmt::If`; `els` is what happens where no condition holds.
  unfoldable pub if_stmt : Arms → (Env → Comp (Flow × Env)) → Env → Comp (Flow × Env)
  if_stmt no_arms els env = els env
  if_stmt (arm c body rest) els env = ev.expr c env >>= λ (v, after).
      if truthy v then scoped ev body after else if_stmt rest els after

  -- The match of `stmts_inner`, after its tick. A flow that is not normal leaves the block.
  unfoldable pub stmt_step : Stmt → Env → Comp (Flow × Env)
  stmt_step (tail e) env = ev.expr e env >>= λ (v, after). done (value v, after)
  stmt_step (declare name mutable ty e) env =
      ev.expr e env >>= λ (v, after). done (normal, declare_in name (declared ty v) mutable after)
  stmt_step (assign name e) env =
      ev.expr e env >>= λ (v, after). assigned_flow name (assign_in name v after)
  stmt_step (if_then arms) env = if_stmt arms (λ after. done (normal, after)) env
  stmt_step (if_else arms els) env = if_stmt arms (scoped ev els) env
  stmt_step (tif e p z n) env = ev.expr e env >>= λ (v, after). trit_of v >>= λ t.
      if ltb_ℤ (pos 0) t
      then scoped ev p after
      else if t ==ℤ pos 0
      then scoped ev z after
      else scoped ev n after
  stmt_step (spawn body) env = Comp.spawn body env (done (normal, env))
  stmt_step yield env = Comp.yield_now (done (normal, env))
  stmt_step (while c body) env = ev.loop c body env
  stmt_step return_none env = done (return none, env)
  stmt_step (return_some e) env = ev.expr e env >>= λ (v, after). done (return (some v), after)
  stmt_step (eval e) env = ev.expr e env >>= λ (v, after). done (normal, after)

  abbrev pub then_rest : (Env → Comp (Flow × Env)) → Flow → Env → Comp (Flow × Env)
  then_rest rest normal env = rest env
  then_rest rest flow env = done (flow, env)

  -- The loop of `stmts_inner`.
  unfoldable pub stmts_loop : Stmts → Env → Comp (Flow × Env)
  stmts_loop empty env = done (normal, env)
  stmts_loop (next s rest) env =
      tick (stmt_step s env >>= λ (flow, after). then_rest (stmts_loop rest) flow after)

  -- A round of `Stmt::While`.
  unfoldable pub loop_step : Expr → Stmts → Env → Comp (Flow × Env)
  loop_step c body env = ev.expr c env >>= λ (v, after).
      if truthy v
      then (scoped ev body after >>= λ (flow, last). round_end (ev.loop c body last) flow last)
      else done (normal, after)

-- The evaluator on n units of fuel.
unfoldable pub evaluator : Lang → List Fn → ℕ → Evaluator
evaluator lang fns zero = record {
  expr = λ e env. exhausted;
  inner = λ body env. exhausted;
  loop = λ c body env. exhausted;
}
evaluator lang fns (suc n) = record {
  expr = λ e env. tick (expr_step lang fns (evaluator lang fns n) e env);
  inner = λ body env. stmts_loop (evaluator lang fns n) body env;
  loop = λ c body env. tick (loop_step (evaluator lang fns n) c body env);
}
