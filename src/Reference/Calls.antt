-- ===== src/Reference/Calls.antt =====
-- Methods and calls of src/reference/eval.rs, over the evaluator of their parts.
use Prim.Native.String.{String}
use package.text.Mathlib.Text.{◌==◌ as str_eq}
use mani_tc.Prelude.{
  ℕ, ◌==◌, Bool, true, false, Option, none, some, List, [], ◌∷◌, if◌then◌else◌, length,
}
use mani_tc.Prelude.Int.{pos, negsuc, ltb_ℤ, ◌==ℤ◌, pos_part}
use mani_tc.Reference.Ty.{Ty}
use mani_tc.Reference.Ops.{Val, int, trit, bool, res, text, chan, absent, present, as_print_int}
use mani_tc.Reference.Cast.{cast, coerce_decl}
use mani_tc.Reference.Syntax.{Exprs, no_args, arg, Fn}
use mani_tc.Reference.Comp.{
  Why, Abort, trap, propagate, Scope, Env, Comp, done, abort, emit, new_channel, send, recv, close,
  handle, ◌>>=◌,
}
use mani_tc.Reference.Env.{put}
use mani_tc.Reference.Rules.{
  Evaluator, Flow, normal, return, value, fail, scoped, arguments, shown, print_values, print_texts,
  payload,
}

unfoldable pub send_method : Evaluator → ℕ → Exprs → Env → Comp (Val × Env)
send_method ev c (arg e no_args) env =
    ev.expr e env >>= λ (v, after). send c (cast v Ty.int) (done (int (pos 0), after))
send_method ev c _ env = fail (Why.wrong_arguments "send")

unfoldable pub recv_method : ℕ → Exprs → Env → Comp (Val × Env)
recv_method c no_args env = recv c (λ v. done (v, env))
recv_method c _ env = fail (Why.wrong_arguments "recv")

unfoldable pub close_method : ℕ → Exprs → Env → Comp (Val × Env)
close_method c no_args env = close c (done (int (pos 0), env))
close_method c _ env = fail (Why.wrong_arguments "close")

unfoldable pub chan_method : Evaluator → ℕ → String → Exprs → Env → Comp (Val × Env)
chan_method ev c name args env =
    if str_eq name "send"
    then send_method ev c args env
    else if str_eq name "recv"
    then recv_method c args env
    else if str_eq name "close"
    then close_method c args env
    else fail (Why.not_a_channel_operation name)

-- `unwrap` on a result.
unfoldable pub unwrap : Val → Comp Val
unwrap (res tag val msg) =
    if tag ==ℤ pos 1
    then done (payload val)
    else if tag ==ℤ pos 0
    then fail Why.unwrap_unknown
    else fail Why.unwrap_err
unwrap v = fail (Why.not_a_result v)

abbrev pub default_of : Val → Val → Val
default_of (res tag val msg) d = if tag ==ℤ pos 1 then payload val else d
default_of v d = d

-- `unwrap_or` on a result, whose default is evaluated either way.
unfoldable pub unwrap_or : Evaluator → Val → Exprs → Env → Comp (Val × Env)
unwrap_or ev r no_args env = fail (Why.wrong_arguments "unwrap_or")
unwrap_or ev r (arg e _) env = ev.expr e env >>= λ (d, after). done (default_of r d, after)

unfoldable pub result_method : Evaluator → Val → String → Exprs → Env → Comp (Val × Env)
result_method ev (res tag val msg) name args env =
    if str_eq name "tag"
    then done (trit tag, env)
    else if str_eq name "is_ok"
    then done (bool (tag ==ℤ pos 1), env)
    else if str_eq name "is_unknown"
    then done (bool (tag ==ℤ pos 0), env)
    else if str_eq name "is_err"
    then done (bool (tag ==ℤ negsuc 0), env)
    else if str_eq name "unwrap"
    then (unwrap (res tag val msg) >>= λ v. done (v, env))
    else if str_eq name "unwrap_or"
    then unwrap_or ev (res tag val msg) args env
    else fail (Why.no_such_method (res tag val msg))
result_method ev v name args env = fail (Why.not_a_result v)

-- `Expr::Method` on the evaluated receiver.
unfoldable pub method_value : Evaluator → Val → String → Exprs → Env → Comp (Val × Env)
method_value ev (chan c) name args env = chan_method ev c name args env
method_value ev v name args env = result_method ev v name args env

-- The payload of a constructor of `Result`: its first argument, or 0.
unfoldable pub first_argument : Evaluator → Exprs → Env → Comp (Val × Env)
first_argument ev no_args env = done (int (pos 0), env)
first_argument ev (arg e _) env = ev.expr e env

abbrev pub constructed : String → Val → Val
constructed name v =
    if str_eq name "Ok"
    then res (pos 1) (present v) []
    else if str_eq name "Unknown"
    then res (pos 0) absent (shown v)
    else res (negsuc 0) absent (shown v)

unfoldable pub bounded_channel : Evaluator → Exprs → Env → Comp (Val × Env)
bounded_channel ev (arg e no_args) env = ev.expr e env >>= λ (v, after).
    if ltb_ℤ (as_print_int v) (pos 1)
    then fail Why.capacity_below_one
    else new_channel (pos_part (as_print_int v)) (λ c. done (chan c, after))
bounded_channel ev _ env = fail (Why.wrong_arguments "channel_bounded")

unfoldable pub unbounded_channel : Exprs → Env → Comp (Val × Env)
unbounded_channel no_args env = new_channel 0 (λ c. done (chan c, env))
unbounded_channel _ env = fail (Why.wrong_arguments "channel")

-- `io::println` and its like end with a line feed.
abbrev pub printed : Bool → Env → Comp (Val × Env)
printed line env =
    if line then emit (10 ∷ []) (done (int (pos 0), env)) else done (int (pos 0), env)

-- The scope of a call: each parameter with its argument, cast to the declared type.
unfoldable pub bind_params : List (String × Ty) → List Val → Scope → Scope
bind_params [] vs scope = scope
bind_params (p ∷ ps) [] scope = scope
bind_params ((name, ty) ∷ ps) (v ∷ vs) scope =
    bind_params ps vs (put name (record { value = coerce_decl v ty; mutable = false }) scope)

abbrev pub returned : Flow × Env → Comp (Option Val)
returned (normal, env) = done none
returned (return v, env) = done v
returned (value v, env) = done (some v)

-- `?` ends here, and the rest of the aborts goes on.
abbrev pub caught : Abort → Comp (Option Val)
caught (propagate v) = done (some v)
caught (trap w) = abort (trap w)

unfoldable pub call_body : Evaluator → Fn → List Val → Comp (Option Val)
call_body ev f vs = handle (scoped ev f.body (bind_params f.params vs [] ∷ [])) returned caught

abbrev pub coerced : Ty → Option Val → Val
coerced ty none = int (pos 0)
coerced ty (some v) = coerce_decl v ty

unfoldable pub find_fn : String → List Fn → Option Fn
find_fn name [] = none
find_fn name (f ∷ fs) = if str_eq f.name name then some f else find_fn name fs

abbrev pub call_fn : Evaluator → String → Option Fn → Exprs → Env → Comp (Val × Env)
call_fn ev name none args env = fail (Why.undefined name)
call_fn ev name (some f) args env = arguments ev args env >>= λ (vs, after).
    if length vs == length f.params
    then (call_body ev f vs >>= λ v. done (coerced f.ret v, after))
    else fail (Why.wrong_arguments name)

abbrev pub is_one_of : String → String → String → Bool
is_one_of name a b = if str_eq name a then true else str_eq name b

unfoldable pub call : Evaluator → List Fn → String → Exprs → Env → Comp (Val × Env)
call ev fns name args env =
    if is_one_of name "Ok" "Unknown"
    then (first_argument ev args env >>= λ (v, after). done (constructed name v, after))
    else if str_eq name "Err"
    then (first_argument ev args env >>= λ (v, after). done (constructed name v, after))
    else if str_eq name "channel"
    then unbounded_channel args env
    else if str_eq name "channel_bounded"
    then bounded_channel ev args env
    else if is_one_of name "io::print" "io::println"
    then (print_texts ev args env >>= printed (str_eq name "io::println"))
    else if is_one_of name "io::print_int" "io::println_int"
    then (print_values ev args env >>= printed (str_eq name "io::println_int"))
    else call_fn ev name (find_fn name fns) args env
