-- ===== src/Reference/Rules.antt =====
-- The rules of src/reference/eval.rs for one expression, over the evaluator of its parts: operands,
-- methods, calls and matches.
use Prim.Native.String.{String}
use package.text.Mathlib.Text.{◌==◌ as str_eq}
use mani_tc.Prelude.{
  ℕ, zero, suc, ◌+◌, ◌/◌, ◌%◌, false, Option, none, some, List, [], ◌∷◌, if◌then◌else◌, ltb,
}
use mani_tc.Prelude.Int.{ℤ, pos, negsuc, neg_ℤ, leb_ℤ, ◌==ℤ◌}
use mani_tc.Reference.Bin.{Bin}
use mani_tc.Reference.Ops.{
  Lang, Val, int, trit, bool3, bool, res, text, chan, Payload, absent, present, Result, ok, Fault,
  as_print_int, checked, trit_operand, word_operand, truthy, apply,
}
use mani_tc.Reference.Ops
use mani_tc.Reference.Syntax.{
  Un, neg, tnot, tposs, tnec, tnotw, Expr, Exprs, no_args, arg, Arms, no_arms, arm, Cases, no_cases,
  match_arm, Stmts,
}
use mani_tc.Reference.Comp.{Why, trap, propagate, Env, Comp, done, abort, emit, ◌>>=◌}
use mani_tc.Reference.Env.{declare_in, pop}

-- `Flow`.
pub data Flow : Type 0 where
  normal : Flow
  return : Option Val → Flow
  value : Val → Flow

-- What the rules ask of the evaluator: `expr`, `stmts_inner` and the loop of `Stmt::While`.
pub record Evaluator : Type 0 where
  pub expr : Expr → Env → Comp (Val × Env)
  pub inner : Stmts → Env → Comp (Flow × Env)
  pub loop : Expr → Stmts → Env → Comp (Flow × Env)

abbrev pub fail : {A : Type 0} → Why → Comp A
fail w = abort (trap w)

-- An operator of Ops.
abbrev pub lift : {A : Type 0} → Result A → Comp A
lift (ok a) = done a
lift (Ops.trap f) = fail (Why.operator f)

-- `trit_operand` and `word_operand` where the message names no binary operator.
unfoldable pub trit_of : Val → Comp ℤ
trit_of v = elim (trit_operand Bin.tand v) [
  | ok t ↦ done t
  | Ops.trap f ↦ fail (Why.not_three_valued v)
]

unfoldable pub word_of : Val → Comp ℤ
word_of v = elim (word_operand Bin.tandw v) [ ok n ↦ done n | Ops.trap f ↦ fail (Why.not_a_word v) ]

-- The form of `tnot`'s result.
abbrev pub negated : Val → ℤ → Val
negated (bool3 _) t = bool3 (neg_ℤ t)
negated v t = trit (neg_ℤ t)

unfoldable pub unary : Un → Val → Comp Val
unary neg v = lift (checked (neg_ℤ (as_print_int v)))
unary tnot v = trit_of v >>= λ t. done (negated v t)
unary tposs v = trit_of v >>= λ t. done (bool (leb_ℤ (pos 0) t))
unary tnec v = trit_of v >>= λ t. done (bool (t ==ℤ pos 1))
unary tnotw v = word_of v >>= λ n. lift (checked (neg_ℤ n))

-- A block in its own scope: `env.push`, the statements, `env.pop`.
unfoldable pub scoped : Evaluator → Stmts → Env → Comp (Flow × Env)
scoped ev body env = ev.inner body ([] ∷ env) >>= λ (flow, after). done (flow, pop after)

abbrev pub carried : Option Val → Val
carried none = int (pos 0)
carried (some v) = v

-- The end of `block_value`, and with `otherwise` in place of its trap the end of a match arm.
abbrev pub value_of : Comp (Val × Env) → Flow → Env → Comp (Val × Env)
value_of otherwise normal env = otherwise
value_of otherwise (return v) env = abort (propagate (carried v))
value_of otherwise (value v) env = done (v, env)

unfoldable pub block_value : Evaluator → Stmts → Env → Comp (Val × Env)
block_value ev body env =
    scoped ev body env >>= λ (flow, after). value_of (fail Why.no_value) flow after

-- `Expr::IfExpr`.
unfoldable pub if_value : Evaluator → Arms → Stmts → Env → Comp (Val × Env)
if_value ev no_arms els env = block_value ev els env
if_value ev (arm c body rest) els env = ev.expr c env >>= λ (v, after).
    if truthy v then block_value ev body after else if_value ev rest els after

-- The arguments of a call, left to right.
unfoldable pub arguments : Evaluator → Exprs → Env → Comp (List Val × Env)
arguments ev no_args env = done ([], env)
arguments ev (arg e rest) env =
    ev.expr e env >>= λ (v, after). arguments ev rest after >>= λ (vs, last). done (v ∷ vs, last)

-- The decimal digits of a number, for `to_string` on an `i64`: at most 19.
unfoldable pub digits : ℕ → ℕ → List ℕ → List ℕ
digits zero n acc = acc
digits (suc k) n acc =
    let out = (48 + n % 10) ∷ acc in
    let more = digits k (n / 10) out in if ltb n 10 then out else more

unfoldable pub to_string : ℤ → List ℕ
to_string (pos n) = digits 20 n []
to_string (negsuc n) = 45 ∷ digits 20 (suc n) []

-- What a printer shows of a value, and the message of `Unknown` and `Err`.
unfoldable pub shown : Val → List ℕ
shown (text t) = t
shown v = to_string (as_print_int v)

-- The loop of `io::print_int`.
unfoldable pub print_values : Evaluator → Exprs → Env → Comp Env
print_values ev no_args env = done env
print_values ev (arg e rest) env =
    ev.expr e env >>= λ (v, after). emit (shown v) (print_values ev rest after)

-- The loop of `io::print`, which prints a literal without evaluating it.
unfoldable pub print_texts : Evaluator → Exprs → Env → Comp Env
print_texts ev no_args env = done env
print_texts ev (arg (Expr.str s) rest) env = emit s (print_texts ev rest env)
print_texts ev (arg e rest) env =
    ev.expr e env >>= λ (v, after). emit (shown v) (print_texts ev rest after)

-- `*r.val.clone().unwrap_or(Box::new(Val::Int(0)))`.
abbrev pub payload : Payload → Val
payload absent = int (pos 0)
payload (present v) = v

-- `Expr::Try`.
unfoldable pub try_value : Val → Comp Val
try_value (res tag val msg) =
    if tag ==ℤ pos 1 then done (payload val) else abort (propagate (res tag val msg))
try_value v = fail (Why.not_a_result v)

abbrev pub variant : ℤ → String
variant tag = if tag ==ℤ pos 1 then "Ok" else if tag ==ℤ pos 0 then "Unknown" else "Err"

-- The first arm of a variant: its binding and its body.
unfoldable pub find_arm : String → Cases → Option (Option String × Stmts)
find_arm want no_cases = none
find_arm want (match_arm name binding body rest) =
    if str_eq name want then some (binding, body) else find_arm want rest

abbrev pub or_else {ℓ} : {A : Type ℓ} → Option A → Option A → Option A
or_else none b = b
or_else (some a) b = some a

abbrev pub bind_payload : Option String → Val → Env → Env
bind_payload none v env = [] ∷ env
bind_payload (some name) v env = declare_in name v false ([] ∷ env)

abbrev pub run_arm : Evaluator → Option (Option String × Stmts) → Val → Env → Comp (Val × Env)
run_arm ev none v env = fail Why.no_arm
run_arm ev (some (binding, body)) v env =
    ev.inner body (bind_payload binding v env) >>= λ (flow, after).
    value_of (done (int (pos 0), pop after)) flow (pop after)

-- `Expr::Match` on the evaluated scrutinee.
unfoldable pub match_value : Evaluator → Val → Cases → Env → Comp (Val × Env)
match_value ev (res tag val msg) cases env =
    run_arm ev (or_else (find_arm (variant tag) cases) (find_arm "_" cases))
      (if tag ==ℤ pos 1 then payload val else text msg) env
match_value ev v cases env = fail (Why.not_a_result v)
