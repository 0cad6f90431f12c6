-- ===== src/Reference/Behaves/Calls.antt =====
-- Methods and calls of src/reference/eval.rs, over an evaluator of the parts that behaves.
use Prim.Native.String.{String}
use package.text.Mathlib.Text.{◌==◌ as str_eq}
use mani_tc.Prelude.{
  ℕ, ◌<◌, ◌==◌, Bool, true, false, Option, none, some, List, [], ◌∷◌, All, length, if◌then◌else◌,
  arith,
}
use mani_tc.Prelude.Int.{pos, negsuc, pos_part, ltb_ℤ}
use mani_tc.Reference.Ty.{Ty}
use mani_tc.Reference.Ops.{Val, int, res, text, chan, present, absent, as_print_int}
use mani_tc.Reference.Cast.{coerce_decl}
use mani_tc.Reference.Syntax.{Expr, Exprs, no_args, arg, Fn}
use mani_tc.Reference.Comp.{Abort, trap, propagate, Scope, Env, Comp, done, new_channel, ◌>>=◌}
use mani_tc.Reference.Rules.{
  Flow, normal, return, value, Evaluator, scoped, arguments, shown, print_values, print_texts,
}
use mani_tc.Reference.Calls.{
  first_argument, constructed, bounded_channel, unbounded_channel, printed, bind_params, returned,
  caught, call_body, coerced, find_fn, call_fn, is_one_of, call,
}
use mani_tc.Reference.Valid.{IsVal, IsScope, IsEnv, LiteralsE, LiteralsA, LiteralsB, LiteralsF}
use mani_tc.Reference.Valid.Casts.{coerce_decl-IsVal}
use mani_tc.Reference.Valid.Scopes.{IsEnv-more, IsFound, put-IsScope}
use mani_tc.Reference.Behaves.{
  Behaves, Behaves-bind, Behaves-handle, Behaves-if, Behaves-done, Behaves-fail, Behaves-emit,
  IsAbort,
}
use mani_tc.Reference.Behaves.Rules.{
  ValEnv, IsFlow, FlowEnv, ValsEnv, IsEvaluator, zero-IsVal, if-IsVal, scoped-Behaves,
  arguments-Behaves, print_values-Behaves,
}

chan-IsVal : (m c : ℕ) → c < m → IsVal m (chan c)
unfolding IsVal
chan-IsVal m c h = h

constructed-IsVal : (m : ℕ) (name : String) (v : Val) → IsVal m v → IsVal m (constructed name v)
unfolding IsVal
constructed-IsVal m name v h =
    if-IsVal m (str_eq name "Ok") (res (pos 1) (present v) []) _ (omega arith, h)
      (if-IsVal m (str_eq name "Unknown") (res (pos 0) absent (shown v))
        (res (negsuc 0) absent (shown v)) (omega arith, tt) (omega arith, tt))

bind_params-IsScope :
    (m : ℕ) (ps : List (String × Ty)) (vs : List Val) (scope : Scope)
    → All (IsVal m) vs
    → IsScope m scope
    → IsScope m (bind_params ps vs scope)
unfolding bind_params
bind_params-IsScope m [] vs scope p h = h
bind_params-IsScope m (q ∷ ps) [] scope p h = h
bind_params-IsScope m ((name, ty) ∷ ps) (v ∷ vs) scope p h = bind_params-IsScope m ps vs _ p.1 (
    put-IsScope m name (record { value = coerce_decl v ty; mutable = false }) scope
      (coerce_decl-IsVal m v ty p.0) h)

abbrev pub IsReturned : ℕ → Option Val → Type 0
IsReturned m = IsFound (IsVal m)

coerced-IsVal : (m : ℕ) (ty : Ty) (v : Option Val) → IsReturned m v → IsVal m (coerced ty v)
coerced-IsVal m ty none h = zero-IsVal m
coerced-IsVal m ty (some v) h = coerce_decl-IsVal m v ty h

returned-Behaves :
    (n m : ℕ) (flow : Flow) (env : Env)
    → IsFlow m flow
    → Behaves IsReturned n m (returned (flow, env))
returned-Behaves n m normal env h = Behaves-done IsReturned n m none tt
returned-Behaves n m (return v) env h = Behaves-done IsReturned n m v h
returned-Behaves n m (value v) env h = Behaves-done IsReturned n m (some v) h

caught-Behaves : (n m : ℕ) (w : Abort) → IsAbort m w → Behaves IsReturned n m (caught w)
caught-Behaves n m (propagate v) h = Behaves-done IsReturned n m (some v) h
caught-Behaves n m (trap w) h = Behaves-fail IsReturned n m w

pub find_fn-Literals :
    (name : String) (fns : List Fn)
    → LiteralsF fns
    → IsFound (λ f. LiteralsB f.body) (find_fn name fns)
unfolding find_fn
find_fn-Literals name [] h = tt
find_fn-Literals name (f ∷ fs) h =
    either (str_eq f.name name) (find_fn name fs) (find_fn-Literals name fs h.1)
  where
    either :
        (b : Bool) (x : Option Fn)
        → IsFound (λ f. LiteralsB f.body) x
        → IsFound (λ f. LiteralsB f.body) (if b then some f else x)
    either true x k = h.0
    either false x k = k

printed-Behaves :
    (n m : ℕ) (line : Bool) (env : Env) → IsEnv m env → Behaves ValEnv n m (printed line env)
printed-Behaves n m line env h =
    let zero = Behaves-done ValEnv n m (int (pos 0), env) (zero-IsVal m, h) in
    Behaves-if ValEnv n m line _ _ (Behaves-emit ValEnv n m (10 ∷ []) _ zero) zero

module _ (n : ℕ) (ev : Evaluator) (good : IsEvaluator n ev) where
  first_argument-Behaves :
      (m : ℕ) (args : Exprs) (env : Env)
      → LiteralsA args
      → IsEnv m env
      → Behaves ValEnv n m (first_argument ev args env)
  unfolding first_argument LiteralsE
  first_argument-Behaves m no_args env l h = Behaves-done ValEnv n m _ (zero-IsVal m, h)
  first_argument-Behaves m (arg e rest) env l h = good.expr_ok m e env l.0 h

  opened :
      (m cap : ℕ) (env : Env)
      → IsEnv m env
      → Behaves ValEnv n m (new_channel cap (λ c. done (chan c, env)))
  unfolding Behaves
  opened m cap env h = λ p c le lt. (chan-IsVal p c lt, IsEnv-more m p env le h)

  bounded_channel-Behaves :
      (m : ℕ) (args : Exprs) (env : Env)
      → LiteralsA args
      → IsEnv m env
      → Behaves ValEnv n m (bounded_channel ev args env)
  unfolding bounded_channel LiteralsE
  bounded_channel-Behaves m no_args env l h = Behaves-fail ValEnv n m _
  bounded_channel-Behaves m (arg e no_args) env l h =
      Behaves-bind ValEnv ValEnv n m (ev.expr e env) _ (good.expr_ok m e env l.0 h) (λ p r le q.
        Behaves-if ValEnv n p (ltb_ℤ (as_print_int r.0) (pos 1)) _ _ (Behaves-fail ValEnv n p _)
          (opened p (pos_part (as_print_int r.0)) r.1 q.1))
  bounded_channel-Behaves m (arg e (arg f rest)) env l h = Behaves-fail ValEnv n m _

  unbounded_channel-Behaves :
      (m : ℕ) (args : Exprs) (env : Env)
      → IsEnv m env
      → Behaves ValEnv n m (unbounded_channel args env)
  unfolding unbounded_channel
  unbounded_channel-Behaves m no_args env h = opened m 0 env h
  unbounded_channel-Behaves m (arg e rest) env h = Behaves-fail ValEnv n m _

  pub call_body-Behaves :
      (m : ℕ) (f : Fn) (vs : List Val)
      → LiteralsB f.body
      → All (IsVal m) vs
      → Behaves IsReturned n m (call_body ev f vs)
  unfolding call_body
  call_body-Behaves m f vs l h =
      let env = bind_params f.params vs [] ∷ [] in
      Behaves-handle FlowEnv IsReturned returned caught n m (scoped ev f.body env)
        (scoped-Behaves n ev good m f.body env l (bind_params-IsScope m f.params vs [] h tt, tt))
        (λ p r le q. returned-Behaves n p r.0 r.1 q.0) (λ p w le q. caught-Behaves n p w q)

  call_fn-Behaves :
      (m : ℕ) (name : String) (f : Option Fn) (args : Exprs) (env : Env)
      → IsFound (λ f. LiteralsB f.body) f
      → LiteralsA args
      → IsEnv m env
      → Behaves ValEnv n m (call_fn ev name f args env)
  call_fn-Behaves m name none args env lf l h = Behaves-fail ValEnv n m _
  call_fn-Behaves m name (some f) args env lf l h =
      Behaves-bind ValsEnv ValEnv n m (arguments ev args env) _
        (arguments-Behaves n ev good m args env l h)
        (λ p r le q.
          Behaves-if ValEnv n p (length r.0 == length f.params) _ _
            (Behaves-bind IsReturned ValEnv n p (call_body ev f r.0) _
              (call_body-Behaves p f r.0 lf q.0)
              (λ s v more t.
                Behaves-done ValEnv n s (coerced f.ret v, r.1)
                  (coerced-IsVal s f.ret v t, IsEnv-more p s r.1 more q.1)))
            (Behaves-fail ValEnv n p _))

  result-Behaves :
      (m : ℕ) (name : String) (args : Exprs) (env : Env)
      → LiteralsA args
      → IsEnv m env
      → Behaves ValEnv n m
          (first_argument ev args env >>= λ (v, after). done (constructed name v, after))
  result-Behaves m name args env l h =
      Behaves-bind ValEnv ValEnv n m (first_argument ev args env) _
        (first_argument-Behaves m args env l h)
        (λ p r le q.
          Behaves-done ValEnv n p (constructed name r.0, r.1)
            (constructed-IsVal p name r.0 q.0, q.1))

  print_texts-Behaves :
      (m : ℕ) (args : Exprs) (env : Env)
      → LiteralsA args
      → IsEnv m env
      → Behaves IsEnv n m (print_texts ev args env)
  unfolding print_texts LiteralsE
  print_texts-Behaves m no_args env l h = Behaves-done IsEnv n m env h
  print_texts-Behaves m (arg (Expr.str s) rest) env l h =
      Behaves-emit IsEnv n m s _ (print_texts-Behaves m rest env l.1 h)
  print_texts-Behaves m (arg e rest) env l h =
      Behaves-bind ValEnv IsEnv n m (ev.expr e env) _ (good.expr_ok m e env l.0 h)
        (λ p r up q. Behaves-emit IsEnv n p (shown r.0) _ (print_texts-Behaves p rest r.1 l.1 q.1))

  line :
      (m : ℕ) (b : Bool) (c : Comp Env) → Behaves IsEnv n m c → Behaves ValEnv n m (c >>= printed b)
  line m b c h =
      Behaves-bind IsEnv ValEnv n m c (printed b) h (λ p env le q. printed-Behaves n p b env q)

  pub call-Behaves :
      (fns : List Fn) (m : ℕ) (name : String) (args : Exprs) (env : Env)
      → LiteralsF fns
      → LiteralsA args
      → IsEnv m env
      → Behaves ValEnv n m (call ev fns name args env)
  unfolding call
  call-Behaves fns m name args env lf l h =
      Behaves-if ValEnv n m (is_one_of name "Ok" "Unknown") _ _ (result-Behaves m name args env l h)
        (Behaves-if ValEnv n m (str_eq name "Err") _ _ (result-Behaves m name args env l h) (
          Behaves-if ValEnv n m (str_eq name "channel") _ _ (unbounded_channel-Behaves m args env h)
            (Behaves-if ValEnv n m (str_eq name "channel_bounded") _ _
              (bounded_channel-Behaves m args env l h)
              (Behaves-if ValEnv n m (is_one_of name "io::print" "io::println") _ _
                (line m _ (print_texts ev args env) (print_texts-Behaves m args env l h))
                (Behaves-if ValEnv n m (is_one_of name "io::print_int" "io::println_int") _ _
                  (line m _ (print_values ev args env)
                    (print_values-Behaves n ev good m args env l h))
                  (call_fn-Behaves m name (find_fn name fns) args env (find_fn-Literals name fns lf)
                    l h))))))
