-- ===== src/Reference/Behaves/Methods.antt =====
-- The methods of channels and of results in src/reference/eval.rs keep to the interface.
use Prim.Native.String.{String}
use package.text.Mathlib.Text.{◌==◌ as str_eq}
use mani_tc.Prelude.{ℕ, ◌<◌, Bool, List, arith}
use mani_tc.Prelude.Int.{ℤ, pos, ◌==ℤ◌}
use mani_tc.Reference.Ty.{Ty}
use mani_tc.Reference.Ops.{Val, int, trit, bool3, bool, res, text, chan}
use mani_tc.Reference.Cast.{cast}
use mani_tc.Reference.Syntax.{Exprs, no_args, arg}
use mani_tc.Reference.Comp.{Why, Env, done, send}
use mani_tc.Reference.Rules.{Evaluator, payload}
use mani_tc.Reference.Calls.{
  send_method, recv_method, close_method, chan_method, unwrap, default_of, unwrap_or, result_method,
  method_value,
}
use mani_tc.Reference.Valid.{IsVal, IsEnv, IsVal-more, LiteralsE, LiteralsA}
use mani_tc.Reference.Valid.Casts.{cast-IsVal}
use mani_tc.Reference.Valid.Scopes.{IsEnv-more}
use mani_tc.Reference.Behaves.{Behaves, Behaves-bind, Behaves-if, Behaves-done, Behaves-fail}
use mani_tc.Reference.Behaves.Rules.{ValEnv, IsEvaluator, zero-IsVal, payload_of-IsVal, if-IsVal}

trit-IsVal : (m : ℕ) (tag : ℤ) (p : _) (msg : List ℕ) → IsVal m (res tag p msg) → IsVal m (trit tag)
unfolding IsVal
trit-IsVal m tag p msg h = h.0

pub bool-IsVal : (m : ℕ) (b : Bool) → IsVal m (bool b)
unfolding IsVal
bool-IsVal m b = tt

chan-lt : (m c : ℕ) → IsVal m (chan c) → c < m
unfolding IsVal
chan-lt m c h = h

unwrap-Behaves :
    (n m : ℕ) (tag : ℤ) (p : _) (msg : List ℕ)
    → IsVal m (res tag p msg)
    → Behaves IsVal n m (unwrap (res tag p msg))
unfolding unwrap
unwrap-Behaves n m tag p msg h =
    Behaves-if IsVal n m (tag ==ℤ pos 1) _ _
      (Behaves-done IsVal n m (payload p) (payload_of-IsVal m tag p msg h))
      (Behaves-if IsVal n m (tag ==ℤ pos 0) _ _ (Behaves-fail IsVal n m Why.unwrap_unknown)
        (Behaves-fail IsVal n m Why.unwrap_err))

default_of-IsVal : (m : ℕ) (r d : Val) → IsVal m r → IsVal m d → IsVal m (default_of r d)
default_of-IsVal m (res tag p msg) d h k =
    if-IsVal m (tag ==ℤ pos 1) (payload p) d (payload_of-IsVal m tag p msg h) k
default_of-IsVal m (int _) d h k = k
default_of-IsVal m (trit _) d h k = k
default_of-IsVal m (bool3 _) d h k = k
default_of-IsVal m (bool _) d h k = k
default_of-IsVal m (text _) d h k = k
default_of-IsVal m (chan _) d h k = k

module _ (n : ℕ) (ev : Evaluator) (good : IsEvaluator n ev) where
  send_method-Behaves :
      (m c : ℕ) (args : Exprs) (env : Env)
      → LiteralsA args
      → c < m
      → IsEnv m env
      → Behaves ValEnv n m (send_method ev c args env)
  unfolding send_method LiteralsE
  send_method-Behaves m c no_args env l lt h = Behaves-fail ValEnv n m _
  send_method-Behaves m c (arg e no_args) env l lt h =
      Behaves-bind ValEnv ValEnv n m (ev.expr e env) _ (good.expr_ok m e env l.0 h)
        (λ p r le q. sent p r (omega arith) q)
    where
      sent :
          (p : ℕ) (r : Val × Env)
          → c < p
          → ValEnv p r
          → Behaves ValEnv n p (send c (cast r.0 Ty.int) (done (int (pos 0), r.1)))
      sent p r lt q =
          unfold Behaves in
          (lt, cast-IsVal p r.0 Ty.int q.0, λ s le. (zero-IsVal s, IsEnv-more p s r.1 le q.1))
  send_method-Behaves m c (arg e (arg f rest)) env l lt h = Behaves-fail ValEnv n m _

  recv_method-Behaves :
      (m c : ℕ) (args : Exprs) (env : Env)
      → c < m
      → IsEnv m env
      → Behaves ValEnv n m (recv_method c args env)
  unfolding recv_method Behaves
  recv_method-Behaves m c no_args env lt h = (lt, λ p v le q. (q, IsEnv-more m p env le h))
  recv_method-Behaves m c (arg e rest) env lt h = tt

  close_method-Behaves :
      (m c : ℕ) (args : Exprs) (env : Env)
      → c < m
      → IsEnv m env
      → Behaves ValEnv n m (close_method c args env)
  unfolding close_method Behaves
  close_method-Behaves m c no_args env lt h = (lt, (zero-IsVal m, h))
  close_method-Behaves m c (arg e rest) env lt h = tt

  chan_method-Behaves :
      (m c : ℕ) (name : String) (args : Exprs) (env : Env)
      → LiteralsA args
      → c < m
      → IsEnv m env
      → Behaves ValEnv n m (chan_method ev c name args env)
  unfolding chan_method
  chan_method-Behaves m c name args env l lt h =
      Behaves-if ValEnv n m (str_eq name "send") _ _ (send_method-Behaves m c args env l lt h) (
        Behaves-if ValEnv n m (str_eq name "recv") _ _ (recv_method-Behaves m c args env lt h) (
          Behaves-if ValEnv n m (str_eq name "close") _ _ (close_method-Behaves m c args env lt h)
            (Behaves-fail ValEnv n m _)))

  unwrap_or-Behaves :
      (m : ℕ) (r : Val) (args : Exprs) (env : Env)
      → LiteralsA args
      → IsVal m r
      → IsEnv m env
      → Behaves ValEnv n m (unwrap_or ev r args env)
  unfolding unwrap_or LiteralsE
  unwrap_or-Behaves m r no_args env l v h = Behaves-fail ValEnv n m _
  unwrap_or-Behaves m r (arg e rest) env l v h =
      Behaves-bind ValEnv ValEnv n m (ev.expr e env) _ (good.expr_ok m e env l.0 h) (λ p d le q.
        Behaves-done ValEnv n p (default_of r d.0, d.1)
          (default_of-IsVal p r d.0 (IsVal-more m p r le v) q.0, q.1))

  result_method-Behaves :
      (m : ℕ) (v : Val) (name : String) (args : Exprs) (env : Env)
      → LiteralsA args
      → IsVal m v
      → IsEnv m env
      → Behaves ValEnv n m (result_method ev v name args env)
  unfolding result_method
  result_method-Behaves m (res tag p msg) name args env l v h =
      Behaves-if ValEnv n m (str_eq name "tag") _ _
        (Behaves-done ValEnv n m (trit tag, env) (trit-IsVal m tag p msg v, h))
        (Behaves-if ValEnv n m (str_eq name "is_ok") _ _ (flag _) (
          Behaves-if ValEnv n m (str_eq name "is_unknown") _ _ (flag _) (
            Behaves-if ValEnv n m (str_eq name "is_err") _ _ (flag _) (
              Behaves-if ValEnv n m (str_eq name "unwrap") _ _
                (Behaves-bind IsVal ValEnv n m (unwrap (res tag p msg)) _
                  (unwrap-Behaves n m tag p msg v)
                  (λ s u le q. Behaves-done ValEnv n s (u, env) (q, IsEnv-more m s env le h)))
                (Behaves-if ValEnv n m (str_eq name "unwrap_or") _ _
                  (unwrap_or-Behaves m (res tag p msg) args env l v h)
                  (Behaves-fail ValEnv n m _))))))
    where
      flag : (b : Bool) → Behaves ValEnv n m (done (bool b, env))
      flag b = Behaves-done ValEnv n m (bool b, env) (bool-IsVal m b, h)
  result_method-Behaves m _ name args env l v h = Behaves-fail ValEnv n m _

  pub method_value-Behaves :
      (m : ℕ) (v : Val) (name : String) (args : Exprs) (env : Env)
      → LiteralsA args
      → IsVal m v
      → IsEnv m env
      → Behaves ValEnv n m (method_value ev v name args env)
  unfolding method_value
  method_value-Behaves m (chan c) name args env l v h =
      chan_method-Behaves m c name args env l (chan-lt m c v) h
  method_value-Behaves m v name args env l w h = result_method-Behaves m v name args env l w h
