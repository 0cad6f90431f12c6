-- ===== src/Semantic/ConstEval.antt =====
-- src/semantic/const_eval.rs: the compile-time evaluation of an integer constant, on a budget of steps.
-- The state that a failed evaluation leaves is kept, since the code may go on after an error.
pub mod Run
pub mod Settles
pub mod Parts
pub mod Ends
mod Tests
use mani_tc.Prelude.{
  ℕ, zero, suc, ◌+◌, ◌-◌, ◌==◌, leb, Bool, true, false, ◌&&◌, ◌||◌, not, Option, none, some, List,
  [], ◌∷◌, length, if◌then◌else◌,
}
use mani_tc.Prelude.Maps
use mani_tc.Prelude.Int.{ℤ, pos, negsuc, ◌+ℤ◌, ◌-ℤ◌, ◌*ℤ◌, neg_ℤ, ltb_ℤ, leb_ℤ, ◌==ℤ◌, quot, rem}
use mani_tc.Interval
use mani_tc.Lang.{i64_min}
use mani_tc.Semantic.Syntax.{
  BinOpKind, UnOpKind, Lit, Expr, Args, no_args, arg, Elifs, no_elifs, elif, Block, end, next, Stmt,
  let_none, let_some, assign, assign_other, return_some, return_none, other_stmt, FnDef,
}
use mani_tc.Semantic.Syntax

-- `EvalError`; what the message of `NotConstant` is about is a constructor.
pub data Why : Type 0 where
  literal : Lit → Why
  operand : UnOpKind → Why
  operator : BinOpKind → Why
  not_const_fn wrong_arguments no_body : ℕ → Why
  indirect no_else while_value no_value let_uninit assign_target return_empty fragment : Why

pub data EvalError : Type 0 where
  not_constant : Why → EvalError
  divide_by_zero overflow budget : EvalError
  unbound : ℕ → EvalError

pub data Res (A : Type 0) : Type 0 where
  err : EvalError → Res A
  ok : A → Res A

-- `Eval`, the innermost scope first.
pub record Eval : Type 0 where
  pub scopes : List (List (ℕ × ℤ))
  pub budget : ℕ
  pub depth : ℕ

pub record ConstCtx : Type 0 where
  pub ints : List (ℕ × ℤ)
  pub fns : List (ℕ × FnDef)

pub data Flow : Type 0 where
  normal : Flow
  return : ℤ → Flow

-- A result with the state after it; `none` is the end of the model's fuel.
abbrev pub Out : Type 0 → Type 0
Out A = Option (Res A × Eval)

infixl 5 ◌>>=◌
abbrev pub ◌>>=◌ : {A B : Type 0} → Out A → (A → Eval → Out B) → Out B
none >>= f = none
some (err e, s) >>= f = some (err e, s)
some (ok a, s) >>= f = f a s

abbrev pub step : {A : Type 0} → Eval → (Eval → Out A) → Out A
step s k = if s.budget == 0 then some (err budget, s) else k (record s { budget = s.budget - 1 })

abbrev pub ok_or : Option ℤ → EvalError → Res ℤ
ok_or none e = err e
ok_or (some v) e = ok v

-- `checked_div` and `checked_rem`, by a divisor that is not zero.
abbrev pub overflows : ℤ → ℤ → Bool
overflows x y = (x ==ℤ i64_min) && (y ==ℤ negsuc 0)

abbrev pub truth : Bool → Res ℤ
truth b = ok (if b then pos 1 else pos 0)

unfoldable pub bin : ℤ → BinOpKind → ℤ → Res ℤ
bin x BinOpKind.add y = ok_or (Interval.checked (x +ℤ y)) overflow
bin x BinOpKind.sub y = ok_or (Interval.checked (x -ℤ y)) overflow
bin x BinOpKind.mul y = ok_or (Interval.checked (x *ℤ y)) overflow
bin x BinOpKind.div y =
    if y ==ℤ pos 0
    then err divide_by_zero
    else if overflows x y
    then err overflow
    else ok (quot x y)
bin x BinOpKind.rem y =
    if y ==ℤ pos 0 then err divide_by_zero else if overflows x y then err overflow else ok (rem x y)
bin x BinOpKind.lt y = truth (ltb_ℤ x y)
bin x BinOpKind.gt y = truth (ltb_ℤ y x)
bin x BinOpKind.le y = truth (leb_ℤ x y)
bin x BinOpKind.ge y = truth (leb_ℤ y x)
bin x BinOpKind.eq y = truth (x ==ℤ y)
bin x BinOpKind.ne y = truth (not (x ==ℤ y))
bin x BinOpKind.and y = truth (not (x ==ℤ pos 0) && not (y ==ℤ pos 0))
bin x BinOpKind.or y = truth (not (x ==ℤ pos 0) || not (y ==ℤ pos 0))
bin x op y = err (not_constant (operator op))

unfoldable pub unary : UnOpKind → ℤ → Res ℤ
unary UnOpKind.neg v = ok_or (Interval.checked (neg_ℤ v)) overflow
unary UnOpKind.not v = truth (v ==ℤ pos 0)
unary op v = err (not_constant (operand op))

unfoldable pub literal_value : Lit → Res ℤ
literal_value (Lit.int v) = ok v
literal_value (Lit.ternary_int v) = ok v
literal_value (Lit.trit t) = ok t
literal_value (Lit.bool b) = truth b
literal_value l = err (not_constant (literal l))

-- The loop of `lookup`, then the constants of the context.
abbrev pub or_outer : Option ℤ → Option ℤ → Option ℤ
or_outer none v = v
or_outer (some v) _ = some v

unfoldable pub lookup : List (ℕ × ℤ) → ℕ → List (List (ℕ × ℤ)) → Option ℤ
lookup ints name [] = Maps.lookup name ints
lookup ints name (frame ∷ outer) = or_outer (Maps.lookup name frame) (lookup ints name outer)

-- The loop of `assign`; none where no scope has the name.
abbrev pub beneath : List (ℕ × ℤ) → Option (List (List (ℕ × ℤ))) → Option (List (List (ℕ × ℤ)))
beneath frame none = none
beneath frame (some outer) = some (frame ∷ outer)

abbrev pub entered :
    ℕ
    → ℤ
    → List (ℕ × ℤ)
    → List (List (ℕ × ℤ))
    → Option ℤ
    → Option (List (List (ℕ × ℤ)))
    → Option (List (List (ℕ × ℤ)))
entered name v frame outer none later = beneath frame later
entered name v frame outer (some old) later = some (Maps.insert name v frame ∷ outer)

unfoldable pub assign_in : ℕ → ℤ → List (List (ℕ × ℤ)) → Option (List (List (ℕ × ℤ)))
assign_in name v [] = none
assign_in name v (frame ∷ outer) =
    entered name v frame outer (Maps.lookup name frame) (assign_in name v outer)

-- `scopes.last_mut()` and `insert`.
abbrev pub declare : ℕ → ℤ → List (List (ℕ × ℤ)) → List (List (ℕ × ℤ))
declare name v [] = []
declare name v (frame ∷ outer) = Maps.insert name v frame ∷ outer

abbrev pub innermost_off : List (List (ℕ × ℤ)) → List (List (ℕ × ℤ))
innermost_off [] = []
innermost_off (frame ∷ outer) = outer

-- What runs in a scope of its own: `push`, the block, and `pop` also after an error.
abbrev pub popped : {A : Type 0} → Out A → Out A
popped none = none
popped (some (r, s)) = some (r, record s { scopes = innermost_off s.scopes })

abbrev pub scoped : {A : Type 0} → (Eval → Out A) → Eval → Out A
scoped run s = popped (run (record s { scopes = [] ∷ s.scopes }))

unfoldable pub count_args : Args → ℕ
count_args no_args = 0
count_args (arg e rest) = suc (count_args rest)

-- The call's own frame; the caller's scopes come back also after an error.
abbrev pub returned : Eval → Out ℤ → Out ℤ
returned s none = none
returned s (some (r, t)) = some (r, record t { scopes = s.scopes; depth = t.depth - 1 })

abbrev pub max_depth : ℕ
max_depth = 64

abbrev pub assigned : ℕ → Eval → Option (List (List (ℕ × ℤ))) → Out Flow
assigned n s none = some (err (unbound n), s)
assigned n s (some scopes) = some (ok normal, record s { scopes = scopes })

-- `let _ = self.expr(e)`.
abbrev pub swallowed : Out ℤ → Out Flow
swallowed none = none
swallowed (some (r, s)) = some (ok normal, s)

-- `self.expr(e).ok()`.
abbrev pub kept : Out ℤ → Out (Option ℤ)
kept none = none
kept (some (err e, s)) = some (ok none, s)
kept (some (ok v, s)) = some (ok (some v), s)

abbrev pub unless_return : (Eval → Out Flow) → Flow → Eval → Out Flow
unless_return rest (return v) s = some (ok (return v), s)
unless_return rest normal s = rest s
