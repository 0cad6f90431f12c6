-- ===== src/Reference/Behaves/Rules.antt =====
-- The rules for one expression of src/reference/eval.rs: blocks, conditionals, arguments, printers and
-- matches, over an evaluator of the parts that behaves.
use Prim.Native.String.{String}
use package.text.Mathlib.Text.{◌==◌ as str_eq}
use mani_tc.Prelude.{
  ℕ, Bool, true, false, Option, none, some, List, [], ◌∷◌, All, if◌then◌else◌, arith,
}
use mani_tc.Prelude.Int.{ℤ, pos, ◌==ℤ◌}
use mani_tc.Reference.Ops.{Val, int, res, text, Payload, absent, present, truthy}
use mani_tc.Reference.Syntax.{
  Expr, Exprs, no_args, arg, Arms, no_arms, arm, Cases, no_cases, match_arm, Stmts,
}
use mani_tc.Reference.Comp.{Why, Env, Comp, done, abort, propagate}
use mani_tc.Reference.Env.{pop}
use mani_tc.Reference.Rules.{
  Flow, normal, return, value, Evaluator, scoped, carried, value_of, block_value, if_value,
  arguments, shown, print_values, payload, try_value, variant, find_arm, or_else, bind_payload,
  run_arm, match_value,
}
use mani_tc.Reference.Valid.{
  IsVal, IsPayload, IsEnv, IsVal-more, LiteralsE, LiteralsA, LiteralsI, LiteralsC, LiteralsB,
}
use mani_tc.Reference.Valid.Scopes.{IsFound, declare_in-IsEnv, pop-IsEnv}
use mani_tc.Reference.Behaves.{
  Behaves, Behaves-bind, Behaves-if, Behaves-done, Behaves-fail, Behaves-emit,
}

abbrev pub ValEnv : ℕ → Val × Env → Type 0
ValEnv m r = IsVal m r.0 × IsEnv m r.1

abbrev pub IsFlow : ℕ → Flow → Type 0
IsFlow m normal = Unit
IsFlow m (return v) = IsFound (IsVal m) v
IsFlow m (value v) = IsVal m v

abbrev pub FlowEnv : ℕ → Flow × Env → Type 0
FlowEnv m r = IsFlow m r.0 × IsEnv m r.1

abbrev pub ValsEnv : ℕ → List Val × Env → Type 0
ValsEnv m r = All (IsVal m) r.0 × IsEnv m r.1

-- An evaluator whose computations behave on a budget of n ticks.
pub record IsEvaluator (n : ℕ) (ev : Evaluator) : Type 0 where
  pub expr_ok :
      (m : ℕ) (e : Expr) (env : Env)
      → LiteralsE e
      → IsEnv m env
      → Behaves ValEnv n m (ev.expr e env)
  pub inner_ok :
      (m : ℕ) (b : Stmts) (env : Env)
      → LiteralsB b
      → IsEnv m env
      → Behaves FlowEnv n m (ev.inner b env)
  pub loop_ok :
      (m : ℕ) (c : Expr) (b : Stmts) (env : Env)
      → LiteralsE c
      → LiteralsB b
      → IsEnv m env
      → Behaves FlowEnv n m (ev.loop c b env)

pub zero-IsVal : (m : ℕ) → IsVal m (int (pos 0))
unfolding IsVal
zero-IsVal m = omega arith

carried-IsVal : (m : ℕ) (v : Option Val) → IsFound (IsVal m) v → IsVal m (carried v)
unfolding IsVal
carried-IsVal m none h = omega arith
carried-IsVal m (some v) h = h

value_of-Behaves :
    (n m : ℕ) (otherwise : Comp (Val × Env)) (flow : Flow) (env : Env)
    → Behaves ValEnv n m otherwise
    → IsFlow m flow
    → IsEnv m env
    → Behaves ValEnv n m (value_of otherwise flow env)
unfolding Behaves
value_of-Behaves n m otherwise normal env o f h = o
value_of-Behaves n m otherwise (return v) env o f h = carried-IsVal m v f
value_of-Behaves n m otherwise (value v) env o f h = (f, h)

payload-IsVal : (m : ℕ) (p : Payload) → IsPayload m p → IsVal m (payload p)
unfolding IsVal
payload-IsVal m absent h = omega arith
payload-IsVal m (present v) h = h

pub if-IsVal : (m : ℕ) (b : Bool) (x y : Val) → IsVal m x → IsVal m y → IsVal m (if b then x else y)
if-IsVal m true x y h k = h
if-IsVal m false x y h k = k

pub payload_of-IsVal :
    (m : ℕ) (tag : ℤ) (p : Payload) (msg : List ℕ) → IsVal m (res tag p msg) → IsVal m (payload p)
unfolding IsVal
payload_of-IsVal m tag p msg h = payload-IsVal m p h.1

pub try_value-Behaves : (n m : ℕ) (v : Val) → IsVal m v → Behaves IsVal n m (try_value v)
unfolding Behaves try_value
try_value-Behaves n m (res tag p msg) h =
    Behaves-if IsVal n m (tag ==ℤ pos 1) (done (payload p)) (abort (propagate (res tag p msg)))
      (payload_of-IsVal m tag p msg h) h
try_value-Behaves n m _ h = tt

find_arm-Literals :
    (want : String) (cases : Cases)
    → LiteralsC cases
    → IsFound (λ found. LiteralsB found.1) (find_arm want cases)
unfolding LiteralsE find_arm
find_arm-Literals want no_cases h = tt
find_arm-Literals want (match_arm name binding body rest) (here, later) =
    either (str_eq name want) (find_arm want rest) (find_arm-Literals want rest later)
  where
    either :
        (b : Bool) (x : Option (Option String × Stmts))
        → IsFound (λ found. LiteralsB found.1) x
        → IsFound (λ found. LiteralsB found.1) (if b then some (binding, body) else x)
    either true x h = here
    either false x h = h

or_else-Literals :
    (x y : Option (Option String × Stmts))
    → IsFound (λ found. LiteralsB found.1) x
    → IsFound (λ found. LiteralsB found.1) y
    → IsFound (λ found. LiteralsB found.1) (or_else x y)
or_else-Literals none y h k = k
or_else-Literals (some x) y h k = h

bind_payload-IsEnv :
    (m : ℕ) (binding : Option String) (v : Val) (env : Env)
    → IsVal m v
    → IsEnv m env
    → IsEnv m (bind_payload binding v env)
bind_payload-IsEnv m none v env p h = (tt, h)
bind_payload-IsEnv m (some name) v env p h = declare_in-IsEnv m name v false ([] ∷ env) p (tt, h)

module _ (n : ℕ) (ev : Evaluator) (good : IsEvaluator n ev) where
  pub scoped-Behaves :
      (m : ℕ) (b : Stmts) (env : Env)
      → LiteralsB b
      → IsEnv m env
      → Behaves FlowEnv n m (scoped ev b env)
  unfolding scoped
  scoped-Behaves m b env lits h =
      Behaves-bind FlowEnv FlowEnv n m (ev.inner b ([] ∷ env)) _
        (good.inner_ok m b ([] ∷ env) lits (tt, h))
        (λ p r le q. unfold Behaves in (q.0, pop-IsEnv p r.1 q.1))

  pub block_value-Behaves :
      (m : ℕ) (b : Stmts) (env : Env)
      → LiteralsB b
      → IsEnv m env
      → Behaves ValEnv n m (block_value ev b env)
  unfolding block_value
  block_value-Behaves m b env lits h =
      Behaves-bind FlowEnv ValEnv n m (scoped ev b env) _ (scoped-Behaves m b env lits h)
        (λ p r le q. value_of-Behaves n p _ r.0 r.1 (Behaves-fail ValEnv n p Why.no_value) q.0 q.1)

  pub if_value-Behaves :
      (m : ℕ) (arms : Arms) (els : Stmts) (env : Env)
      → LiteralsI arms
      → LiteralsB els
      → IsEnv m env
      → Behaves ValEnv n m (if_value ev arms els env)
  unfolding if_value LiteralsE
  if_value-Behaves m no_arms els env li lb h = block_value-Behaves m els env lb h
  if_value-Behaves m (arm c body rest) els env (lc, lbody, lrest) lb h =
      Behaves-bind ValEnv ValEnv n m (ev.expr c env) _ (good.expr_ok m c env lc h) (λ p r le q.
        Behaves-if ValEnv n p (truthy r.0) _ _ (block_value-Behaves p body r.1 lbody q.1)
          (if_value-Behaves p rest els r.1 lrest lb q.1))

  pub arguments-Behaves :
      (m : ℕ) (args : Exprs) (env : Env)
      → LiteralsA args
      → IsEnv m env
      → Behaves ValsEnv n m (arguments ev args env)
  unfolding arguments LiteralsE
  arguments-Behaves m no_args env l h = unfold Behaves in (tt, h)
  arguments-Behaves m (arg e rest) env (le, lrest) h =
      Behaves-bind ValEnv ValsEnv n m (ev.expr e env) _ (good.expr_ok m e env le h) (λ p r up q.
        Behaves-bind ValsEnv ValsEnv n p (arguments ev rest r.1) _
          (arguments-Behaves p rest r.1 lrest q.1)
          (λ s rs more t.
            Behaves-done ValsEnv n s (r.0 ∷ rs.0, rs.1) ((IsVal-more p s r.0 more q.0, t.0), t.1)))

  pub print_values-Behaves :
      (m : ℕ) (args : Exprs) (env : Env)
      → LiteralsA args
      → IsEnv m env
      → Behaves IsEnv n m (print_values ev args env)
  unfolding print_values LiteralsE
  print_values-Behaves m no_args env l h = unfold Behaves in h
  print_values-Behaves m (arg e rest) env (le, lrest) h =
      Behaves-bind ValEnv IsEnv n m (ev.expr e env) _ (good.expr_ok m e env le h) (λ p r up q.
        Behaves-emit IsEnv n p (shown r.0) _ (print_values-Behaves p rest r.1 lrest q.1))

  pub match_value-Behaves :
      (m : ℕ) (v : Val) (cases : Cases) (env : Env)
      → LiteralsC cases
      → IsVal m v
      → IsEnv m env
      → Behaves ValEnv n m (match_value ev v cases env)
  unfolding match_value
  match_value-Behaves m (res tag p msg) cases env lits v h =
      run (or_else (find_arm (variant tag) cases) (find_arm "_" cases)) (
        or_else-Literals _ _ (find_arm-Literals (variant tag) cases lits)
          (find_arm-Literals "_" cases lits))
    where
      bound : Val
      bound = if tag ==ℤ pos 1 then payload p else text msg

      bound-IsVal : IsVal m bound
      bound-IsVal =
          if-IsVal m (tag ==ℤ pos 1) (payload p) (text msg) (payload_of-IsVal m tag p msg v)
            (unfold IsVal in tt)

      run :
          (found : Option (Option String × Stmts))
          → IsFound (λ found. LiteralsB found.1) found
          → Behaves ValEnv n m (run_arm ev found bound env)
      run none l = unfold Behaves in tt
      run (some (binding, body)) l =
          Behaves-bind FlowEnv ValEnv n m (ev.inner body (bind_payload binding bound env)) _
            (good.inner_ok m body _ l (bind_payload-IsEnv m binding bound env bound-IsVal h))
            (λ s r le q.
              value_of-Behaves n s _ r.0 (pop r.1)
                (Behaves-done ValEnv n s (int (pos 0), pop r.1) (zero-IsVal s, pop-IsEnv s r.1 q.1))
                q.0 (pop-IsEnv s r.1 q.1))
  match_value-Behaves m _ cases env lits v h = unfold Behaves in tt
