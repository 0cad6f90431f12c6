-- ===== src/Reference/Behaves/Expressions.antt =====
-- The expressions of src/reference/eval.rs, over an evaluator of the parts that behaves.
use mani_tc.Prelude.{ℕ, ◌≤◌, true, false, Option, none, some, List}
use Prim.Native.String.{String}
use mani_tc.Reference.Bin.{Bin}
use mani_tc.Reference.Ops.{Lang, Val, trit, bool, bool3, text, truthy}
use mani_tc.Reference.Cast.{cast}
use mani_tc.Reference.Syntax.{Expr, Fn}
use mani_tc.Reference.Comp.{Env, Comp, done, ◌>>=◌}
use mani_tc.Reference.Env.{read}
use mani_tc.Reference.Rules.{Evaluator}
use mani_tc.Reference.Eval.{read_or_fail, truth_of, and_also, or_also, operate, binop, expr_step}
use mani_tc.Reference.Valid.{IsVal, IsEnv, IsVal-more, LiteralsE, LiteralsF}
use mani_tc.Reference.Valid.Casts.{cast-IsVal}
use mani_tc.Reference.Valid.Operators.{checked-IsVal, apply-IsVal}
use mani_tc.Reference.Valid.Scopes.{IsEnv-more, IsFound, read-IsVal}
use mani_tc.Reference.Behaves.{
  Behaves, Behaves-bind, Behaves-if, Behaves-lift, Behaves-done, Behaves-fail,
}
use mani_tc.Reference.Behaves.Rules.{
  ValEnv, IsEvaluator, try_value-Behaves, if_value-Behaves, match_value-Behaves,
}
use mani_tc.Reference.Behaves.Operators.{unary-Behaves}
use mani_tc.Reference.Behaves.Calls.{call-Behaves}
use mani_tc.Reference.Behaves.Methods.{method_value-Behaves, bool-IsVal}

read_or_fail-Behaves :
    (n m : ℕ) (name : String) (v : Option Val)
    → IsFound (IsVal m) v
    → Behaves IsVal n m (read_or_fail name v)
read_or_fail-Behaves n m name none h = Behaves-fail IsVal n m _
read_or_fail-Behaves n m name (some v) h = Behaves-done IsVal n m v h

-- A value beside the scopes.
beside :
    (n m : ℕ) (c : Comp Val) (env : Env)
    → Behaves IsVal n m c
    → IsEnv m env
    → Behaves ValEnv n m (c >>= λ v. done (v, env))
beside n m c env h k =
    Behaves-bind IsVal ValEnv n m c _ h
      (λ p v le q. Behaves-done ValEnv n p (v, env) (q, IsEnv-more m p env le k))

module _ (n : ℕ) (ev : Evaluator) (good : IsEvaluator n ev) where
  -- The evaluation of a part, and what follows it.
  pub after_expr :
      {B : Type 0} (R : ℕ → B → Type 0) (m : ℕ) (e : Expr) (env : Env) (f : Val × Env → Comp B)
      → LiteralsE e
      → IsEnv m env
      → ((p : ℕ) (r : Val × Env) → m ≤ p → ValEnv p r → Behaves R n p (f r))
      → Behaves R n m (ev.expr e env >>= f)
  after_expr R m e env f l h k =
      Behaves-bind ValEnv R n m (ev.expr e env) f (good.expr_ok m e env l h) k

  truth_of-Behaves :
      (m : ℕ) (e : Expr) (env : Env)
      → LiteralsE e
      → IsEnv m env
      → Behaves ValEnv n m (truth_of ev e env)
  unfolding truth_of
  truth_of-Behaves m e env l h = after_expr ValEnv m e env _ l h (λ p r le q.
      Behaves-done ValEnv n p (bool (truthy r.0), r.1) (bool-IsVal p (truthy r.0), q.1))

  binop-Behaves :
      (lang : Lang) (m : ℕ) (op : Bin) (l r : Expr) (env : Env)
      → LiteralsE l
      → LiteralsE r
      → IsEnv m env
      → Behaves ValEnv n m (binop lang ev op l r env)
  unfolding binop and_also or_also
  binop-Behaves lang m Bin.and_and l r env ll lr h = after_expr ValEnv m l env _ ll h (λ p a le q.
      Behaves-if ValEnv n p (truthy a.0) _ _ (truth_of-Behaves p r a.1 lr q.1)
        (Behaves-done ValEnv n p (bool false, a.1) (bool-IsVal p false, q.1)))
  binop-Behaves lang m Bin.or_or l r env ll lr h = after_expr ValEnv m l env _ ll h (λ p a le q.
      Behaves-if ValEnv n p (truthy a.0) _ _
        (Behaves-done ValEnv n p (bool true, a.1) (bool-IsVal p true, q.1))
        (truth_of-Behaves p r a.1 lr q.1))
  binop-Behaves lang m op l r env ll lr h = operation
    where
      operation : Behaves ValEnv n m (operate lang ev op l r env)
      operation =
          unfold operate in
          after_expr ValEnv m l env _ ll h (λ p a le q.
            after_expr ValEnv p r a.1 _ lr q.1 (λ s b more t.
              beside n s _ b.1
                (Behaves-lift IsVal n s _
                  (apply-IsVal s lang op a.0 b.0 (IsVal-more p s a.0 more q.0) t.0))
                t.1))

  pub expr_step-Behaves :
      (lang : Lang) (fns : List Fn) (m : ℕ) (e : Expr) (env : Env)
      → LiteralsF fns
      → LiteralsE e
      → IsEnv m env
      → Behaves ValEnv n m (expr_step lang fns ev e env)
  unfolding expr_step LiteralsE IsVal
  expr_step-Behaves lang fns m (Expr.if_expr arms els) env lf l h =
      if_value-Behaves n ev good m arms els env l.0 l.1 h
  expr_step-Behaves lang fns m (Expr.int x) env lf l h =
      beside n m _ env (Behaves-lift IsVal n m _ (checked-IsVal m x)) h
  expr_step-Behaves lang fns m (Expr.trit_lit t) env lf l h =
      Behaves-done ValEnv n m (trit t, env) (l, h)
  expr_step-Behaves lang fns m (Expr.bool_lit b) env lf l h =
      Behaves-done ValEnv n m (bool b, env) (tt, h)
  expr_step-Behaves lang fns m (Expr.bool3_lit t) env lf l h =
      Behaves-done ValEnv n m (bool3 t, env) (l, h)
  expr_step-Behaves lang fns m (Expr.str t) env lf l h =
      Behaves-done ValEnv n m (text t, env) (tt, h)
  expr_step-Behaves lang fns m (Expr.var name) env lf l h =
      beside n m _ env (read_or_fail-Behaves n m name (read name env) (read-IsVal m name env h)) h
  expr_step-Behaves lang fns m (Expr.cast e ty) env lf l h =
      after_expr ValEnv m e env _ l h
        (λ p r le q. Behaves-done ValEnv n p (cast r.0 ty, r.1) (cast-IsVal p r.0 ty q.0, q.1))
  expr_step-Behaves lang fns m (Expr.un op e) env lf l h =
      after_expr ValEnv m e env _ l h
        (λ p r le q. beside n p _ r.1 (unary-Behaves n p op r.0 q.0) q.1)
  expr_step-Behaves lang fns m (Expr.bin op a b) env lf l h =
      binop-Behaves lang m op a b env l.0 l.1 h
  expr_step-Behaves lang fns m (Expr.call name args) env lf l h =
      call-Behaves n ev good fns m name args env lf l h
  expr_step-Behaves lang fns m (Expr.method e name args) env lf l h =
      after_expr ValEnv m e env _ l.0 h
        (λ p r le q. method_value-Behaves n ev good p r.0 name args r.1 l.1 q.0 q.1)
  expr_step-Behaves lang fns m (Expr.try e) env lf l h =
      after_expr ValEnv m e env _ l h
        (λ p r le q. beside n p _ r.1 (try_value-Behaves n p r.0 q.0) q.1)
  expr_step-Behaves lang fns m (Expr.match e cases) env lf l h =
      after_expr ValEnv m e env _ l.0 h
        (λ p r le q. match_value-Behaves n ev good p r.0 cases r.1 l.1 q.0 q.1)
