-- ===== src/Reference/Behaves/Statements.antt =====
-- The statements and loops of src/reference/eval.rs, and the evaluator on its fuel.
use mani_tc.Prelude.{ℕ, zero, suc, ◌≤◌, ◌<◌, Option, none, some, List, arith}
use Prim.Native.String.{String}
use mani_tc.Prelude.Int.{pos, ltb_ℤ, ◌==ℤ◌}
use mani_tc.Isa.Word.{IsTrit}
use mani_tc.Reference.Ty.{Ty}
use mani_tc.Reference.Ops.{Lang, Val, truthy}
use mani_tc.Reference.Syntax.{
  Expr, Arms, no_arms, arm, Stmt, declare, assign, if_then, if_else, tif, while, return_none, yield,
  return_some, eval, tail, spawn, Stmts, empty, next, Fn,
}
use mani_tc.Reference.Comp.{Env, Comp}
use mani_tc.Reference.Env.{Assigned, unbound, immutable, stored, declare_in, assign_in}
use mani_tc.Reference.Rules.{Flow, normal, return, value, Evaluator, trit_of, scoped}
use mani_tc.Reference.Eval.{
  declared, assigned_flow, round_end, if_stmt, stmt_step, then_rest, stmts_loop, loop_step,
  evaluator,
}
use mani_tc.Reference.Valid.{IsVal, IsEnv, LiteralsE, LiteralsI, LiteralsS, LiteralsB, LiteralsF}
use mani_tc.Reference.Valid.Casts.{coerce_decl-IsVal}
use mani_tc.Reference.Valid.Scopes.{IsEnv-more, declare_in-IsEnv, IsStored, assign_in-IsEnv}
use mani_tc.Reference.Behaves.{
  Behaves, Behaves-fewer, Behaves-bind, Behaves-if, Behaves-done, Behaves-fail,
}
use mani_tc.Reference.Behaves.Rules.{ValEnv, IsFlow, FlowEnv, IsEvaluator, scoped-Behaves}
use mani_tc.Reference.Behaves.Operators.{trit_of-Behaves}
use mani_tc.Reference.Behaves.Expressions.{after_expr, expr_step-Behaves}

declared-IsVal : (m : ℕ) (ty : Option Ty) (v : Val) → IsVal m v → IsVal m (declared ty v)
declared-IsVal m none v h = h
declared-IsVal m (some ty) v h = coerce_decl-IsVal m v ty h

assigned-Behaves :
    (n m : ℕ) (name : String) (a : Assigned)
    → IsStored m a
    → Behaves FlowEnv n m (assigned_flow name a)
assigned-Behaves n m name unbound h = Behaves-fail FlowEnv n m _
assigned-Behaves n m name immutable h = Behaves-fail FlowEnv n m _
assigned-Behaves n m name (stored env) h = Behaves-done FlowEnv n m (normal, env) (tt, h)

round_end-Behaves :
    (n m : ℕ) (again : Comp (Flow × Env)) (flow : Flow) (env : Env)
    → Behaves FlowEnv n m again
    → IsFlow m flow
    → IsEnv m env
    → Behaves FlowEnv n m (round_end again flow env)
round_end-Behaves n m again (return v) env a f h = Behaves-done FlowEnv n m (return v, env) (f, h)
round_end-Behaves n m again normal env a f h = a
round_end-Behaves n m again (value v) env a f h = a

module _ (n : ℕ) (ev : Evaluator) (good : IsEvaluator n ev) where
  if_stmt-Behaves :
      (m : ℕ) (arms : Arms) (els : Env → Comp (Flow × Env)) (env : Env)
      → LiteralsI arms
      → ((p : ℕ) (after : Env) → m ≤ p → IsEnv p after → Behaves FlowEnv n p (els after))
      → IsEnv m env
      → Behaves FlowEnv n m (if_stmt ev arms els env)
  unfolding if_stmt LiteralsE
  if_stmt-Behaves m no_arms els env l k h = k m env (omega arith) h
  if_stmt-Behaves m (arm c body rest) els env (lc, lbody, lrest) k h =
      after_expr n ev good FlowEnv m c env _ lc h (λ p r le q.
        Behaves-if FlowEnv n p (truthy r.0) _ _ (scoped-Behaves n ev good p body r.1 lbody q.1)
          (if_stmt-Behaves p rest els r.1 lrest (λ s after more t. k s after (omega arith) t) q.1))

  stmt_step-Behaves :
      (m : ℕ) (s : Stmt) (env : Env)
      → LiteralsS s
      → IsEnv m env
      → Behaves FlowEnv n m (stmt_step ev s env)
  unfolding stmt_step LiteralsE
  stmt_step-Behaves m (tail e) env l h =
      after_expr n ev good FlowEnv m e env _ l h
        (λ p r le q. Behaves-done FlowEnv n p (value r.0, r.1) q)
  stmt_step-Behaves m (declare name mutable ty e) env l h =
      after_expr n ev good FlowEnv m e env _ l h (λ p r le q.
        Behaves-done FlowEnv n p (normal, declare_in name (declared ty r.0) mutable r.1)
          (tt, declare_in-IsEnv p name _ mutable r.1 (declared-IsVal p ty r.0 q.0) q.1))
  stmt_step-Behaves m (assign name e) env l h =
      after_expr n ev good FlowEnv m e env _ l h (λ p r le q.
        assigned-Behaves n p name (assign_in name r.0 r.1) (assign_in-IsEnv p name r.0 r.1 q.0 q.1))
  stmt_step-Behaves m (if_then arms) env l h =
      if_stmt-Behaves m arms _ env l
        (λ p after le q. Behaves-done FlowEnv n p (normal, after) (tt, q)) h
  stmt_step-Behaves m (if_else arms els) env l h =
      if_stmt-Behaves m arms _ env l.0 (λ p after le q. scoped-Behaves n ev good p els after l.1 q)
        h
  stmt_step-Behaves m (tif e pb zb nb) env (le, lp, lz, ln) h =
      after_expr n ev good FlowEnv m e env _ le h (λ p r up q.
        Behaves-bind (λ s t. IsTrit t) FlowEnv n p (trit_of r.0) _ (trit_of-Behaves n p r.0 q.0)
          (λ s t more k.
            let env_ok = IsEnv-more p s r.1 more q.1 in
            Behaves-if FlowEnv n s (ltb_ℤ (pos 0) t) _ _
              (scoped-Behaves n ev good s pb r.1 lp env_ok)
              (Behaves-if FlowEnv n s (t ==ℤ pos 0) _ _
                (scoped-Behaves n ev good s zb r.1 lz env_ok)
                (scoped-Behaves n ev good s nb r.1 ln env_ok))))
  stmt_step-Behaves m (spawn body) env l h = unfold Behaves in (l, h, (tt, h))
  stmt_step-Behaves m yield env l h = unfold Behaves in (λ p le. (tt, IsEnv-more m p env le h))
  stmt_step-Behaves m (while c body) env l h = good.loop_ok m c body env l.0 l.1 h
  stmt_step-Behaves m return_none env l h = Behaves-done FlowEnv n m (return none, env) (tt, h)
  stmt_step-Behaves m (return_some e) env l h =
      after_expr n ev good FlowEnv m e env _ l h
        (λ p r le q. Behaves-done FlowEnv n p (return (some r.0), r.1) q)
  stmt_step-Behaves m (eval e) env l h =
      after_expr n ev good FlowEnv m e env _ l h
        (λ p r le q. Behaves-done FlowEnv n p (normal, r.1) (tt, q.1))

  then_rest-Behaves :
      (m : ℕ) (rest : Env → Comp (Flow × Env)) (flow : Flow) (env : Env)
      → Behaves FlowEnv n m (rest env)
      → IsFlow m flow
      → IsEnv m env
      → Behaves FlowEnv n m (then_rest ev rest flow env)
  then_rest-Behaves m rest normal env k f h = k
  then_rest-Behaves m rest (return v) env k f h = Behaves-done FlowEnv n m (return v, env) (f, h)
  then_rest-Behaves m rest (value v) env k f h = Behaves-done FlowEnv n m (value v, env) (f, h)

  loop_step-Behaves :
      (m : ℕ) (c : Expr) (body : Stmts) (env : Env)
      → LiteralsE c
      → LiteralsB body
      → IsEnv m env
      → Behaves FlowEnv n m (loop_step ev c body env)
  unfolding loop_step
  loop_step-Behaves m c body env lc lb h = after_expr n ev good FlowEnv m c env _ lc h (λ p r le q.
      Behaves-if FlowEnv n p (truthy r.0) _ _
        (Behaves-bind FlowEnv FlowEnv n p (scoped ev body r.1) _
          (scoped-Behaves n ev good p body r.1 lb q.1)
          (λ s f more t.
            round_end-Behaves n s (ev.loop c body f.1) f.0 f.1 (good.loop_ok s c body f.1 lc lb t.1)
              t.0 t.1))
        (Behaves-done FlowEnv n p (normal, r.1) (tt, q.1)))

  stmts_loop-Behaves :
      (m : ℕ) (body : Stmts) (env : Env)
      → LiteralsB body
      → IsEnv m env
      → Behaves FlowEnv (suc n) m (stmts_loop ev body env)
  unfolding stmts_loop LiteralsE Behaves
  stmts_loop-Behaves m empty env l h = (tt, h)
  stmts_loop-Behaves m (next s rest) env (ls, lrest) h =
      Behaves-bind FlowEnv FlowEnv n m (stmt_step ev s env) _ (stmt_step-Behaves m s env ls h)
        (λ p r le q.
          then_rest-Behaves p (stmts_loop ev rest) r.0 r.1
            (Behaves-fewer FlowEnv n p (stmts_loop ev rest r.1)
              (stmts_loop-Behaves p rest r.1 lrest q.1))
            q.0 q.1)

stmts_loop-zero :
    (ev : Evaluator) (m : ℕ) (body : Stmts) (env : Env)
    → IsEnv m env
    → Behaves FlowEnv 0 m (stmts_loop ev body env)
unfolding stmts_loop Behaves
stmts_loop-zero ev m empty env h = (tt, h)
stmts_loop-zero ev m (next s rest) env h = tt

-- On more fuel than the budget has ticks, the evaluator of a program whose trit literals are trits
-- behaves: its fuel lasts, and its values and channels are valid.
pub evaluator-IsEvaluator :
    (lang : Lang) (fns : List Fn) (fuel budget : ℕ)
    → LiteralsF fns
    → budget < fuel
    → IsEvaluator budget (evaluator lang fns fuel)
unfolding evaluator
evaluator-IsEvaluator lang fns zero budget l h = absurd (omega arith)
evaluator-IsEvaluator lang fns (suc f) zero l h = record {
  expr_ok = λ m e env le k. unfold Behaves in tt;
  inner_ok = λ m b env lb k. stmts_loop-zero (evaluator lang fns f) m b env k;
  loop_ok = λ m c b env lc lb k. unfold Behaves in tt;
}
evaluator-IsEvaluator lang fns (suc f) (suc n) l h =
    below (evaluator-IsEvaluator lang fns f n l (omega arith))
  where
    below : IsEvaluator n (evaluator lang fns f) → IsEvaluator (suc n) (evaluator lang fns (suc f))
    below good = record {
      expr_ok = λ m e env le k.
          unfold Behaves in
          (expr_step-Behaves n (evaluator lang fns f) good lang fns m e env l le k);
      inner_ok = λ m b env lb k. stmts_loop-Behaves n (evaluator lang fns f) good m b env lb k;
      loop_ok = λ m c b env lc lb k.
          unfold Behaves in (loop_step-Behaves n (evaluator lang fns f) good m c b env lc lb k);
    }

-- With trit literals that are trits, on a budget of fewer ticks than there is fuel, the evaluation of
-- an expression in scopes with valid values never comes to the end of the fuel; what it sends, what it
-- gives to a task that it spawns and its value are valid, an integer in the range of a word, a trit
-- that is one, a channel that exists.
pub expr-Behaves :
    (lang : Lang) (fns : List Fn) (fuel budget m : ℕ) (e : Expr) (env : Env)
    → LiteralsF fns
    → budget < fuel
    → LiteralsE e
    → IsEnv m env
    → Behaves ValEnv budget m ((evaluator lang fns fuel).expr e env)
expr-Behaves lang fns fuel budget m e env l lt le h =
    (evaluator-IsEvaluator lang fns fuel budget l lt).expr_ok m e env le h
