-- ===== src/Reference/Valid.antt =====
-- What the values, the scopes and the literals of src/reference/eval.rs are taken to be.
pub mod Casts
pub mod Operators
pub mod Scopes
use mani_tc.Prelude.{ℕ, ◌≤◌, ◌<◌, Bool, List, [], ◌∷◌, All, Option, none, some, arith}
use mani_tc.Isa.Word.{IsWord, IsTrit}
use mani_tc.Reference.Ops.{Val, int, trit, bool3, bool, res, text, chan, Payload, absent, present}
use mani_tc.Reference.Syntax.{
  Expr, Exprs, no_args, arg, Arms, no_arms, arm, Cases, no_cases, match_arm, Stmt, declare, assign,
  if_then, if_else, tif, while, return_none, yield, return_some, eval, tail, spawn, Stmts, empty,
  next, Fn,
}
use mani_tc.Reference.Syntax
use mani_tc.Reference.Comp.{Scope, Env}

-- A value where m channels exist: an integer in the range of a word, a trit that is one, a channel
-- that exists, a result of such a value.
unfoldable mutual
  pub IsVal : ℕ → Val → Type 0
  IsVal m (int n) = IsWord n
  IsVal m (trit t) = IsTrit t
  IsVal m (bool3 t) = IsTrit t
  IsVal m (bool b) = Unit
  IsVal m (res tag p msg) = IsTrit tag × IsPayload m p
  IsVal m (text s) = Unit
  IsVal m (chan c) = c < m

  pub IsPayload : ℕ → Payload → Type 0
  IsPayload m absent = Unit
  IsPayload m (present v) = IsVal m v

abbrev pub IsScope : ℕ → Scope → Type 0
IsScope m = All (λ entry. IsVal m entry.1.value)

abbrev pub IsEnv : ℕ → Env → Type 0
IsEnv m = All (IsScope m)

-- Every literal of a trit or a `bool3` in a program is a balanced ternary digit.
unfoldable mutual
  pub LiteralsE : Expr → Type 0
  LiteralsE (Expr.trit_lit t) = IsTrit t
  LiteralsE (Expr.bool3_lit t) = IsTrit t
  LiteralsE (Expr.call name args) = LiteralsA args
  LiteralsE (Expr.un op e) = LiteralsE e
  LiteralsE (Expr.bin op l r) = LiteralsE l × LiteralsE r
  LiteralsE (Expr.cast e ty) = LiteralsE e
  LiteralsE (Expr.method e name args) = LiteralsE e × LiteralsA args
  LiteralsE (Expr.try e) = LiteralsE e
  LiteralsE (Expr.match e cases) = LiteralsE e × LiteralsC cases
  LiteralsE (Expr.if_expr arms els) = LiteralsI arms × LiteralsB els
  LiteralsE _ = Unit

  pub LiteralsA : Exprs → Type 0
  LiteralsA no_args = Unit
  LiteralsA (arg e rest) = LiteralsE e × LiteralsA rest

  pub LiteralsI : Arms → Type 0
  LiteralsI no_arms = Unit
  LiteralsI (arm c body rest) = LiteralsE c × LiteralsB body × LiteralsI rest

  pub LiteralsC : Cases → Type 0
  LiteralsC no_cases = Unit
  LiteralsC (match_arm name binding body rest) = LiteralsB body × LiteralsC rest

  pub LiteralsS : Stmt → Type 0
  LiteralsS (declare name mutable ty e) = LiteralsE e
  LiteralsS (assign name e) = LiteralsE e
  LiteralsS (if_then arms) = LiteralsI arms
  LiteralsS (if_else arms els) = LiteralsI arms × LiteralsB els
  LiteralsS (tif e p z n) = LiteralsE e × LiteralsB p × LiteralsB z × LiteralsB n
  LiteralsS (while c body) = LiteralsE c × LiteralsB body
  LiteralsS return_none = Unit
  LiteralsS yield = Unit
  LiteralsS (return_some e) = LiteralsE e
  LiteralsS (eval e) = LiteralsE e
  LiteralsS (tail e) = LiteralsE e
  LiteralsS (spawn body) = LiteralsB body

  pub LiteralsB : Stmts → Type 0
  LiteralsB empty = Unit
  LiteralsB (next s rest) = LiteralsS s × LiteralsB rest

abbrev pub LiteralsF : List Fn → Type 0
LiteralsF = All (λ f. LiteralsB f.body)

mutual
  unfolding IsVal

  pub IsVal-more : (m n : ℕ) (v : Val) → m ≤ n → IsVal m v → IsVal n v
  IsVal-more m n (int x) le h = h
  IsVal-more m n (trit t) le h = h
  IsVal-more m n (bool3 t) le h = h
  IsVal-more m n (bool b) le h = h
  IsVal-more m n (res tag p msg) le h = (h.0, IsPayload-more m n p le h.1)
  IsVal-more m n (text s) le h = h
  IsVal-more m n (chan c) le h = omega arith

  IsPayload-more : (m n : ℕ) (p : Payload) → m ≤ n → IsPayload m p → IsPayload n p
  IsPayload-more m n absent le h = h
  IsPayload-more m n (present v) le h = IsVal-more m n v le h
