-- ===== src/Reference/Syntax.antt =====
-- The syntax tree of src/reference/ast.rs. A list inside the tree is a data type of its own, and an
-- `Option` inside it is two constructors.
use Prim.Native.String.{String}
use mani_tc.Prelude.{ℕ, Bool, Option, List}
use mani_tc.Prelude.Int.{ℤ}
use mani_tc.Reference.Bin.{Bin}
use mani_tc.Reference.Ty.{Ty}

pub data Un : Type 0 where
  neg tnot tposs tnec tnotw : Un

mutual
  pub data Expr : Type 0 where
    int trit_lit bool3_lit : ℤ → Expr
    bool_lit : Bool → Expr
    str : List ℕ → Expr
    var : String → Expr
    call : String → Exprs → Expr
    un : Un → Expr → Expr
    bin : Bin → Expr → Expr → Expr
    cast : Expr → Ty → Expr
    method : Expr → String → Exprs → Expr
    try : Expr → Expr
    match : Expr → Cases → Expr
    if_expr : Arms → Stmts → Expr

  pub data Exprs : Type 0 where
    no_args : Exprs
    arg : Expr → Exprs → Exprs

  -- The arms of an `if`: a condition and a block each.
  pub data Arms : Type 0 where
    no_arms : Arms
    arm : Expr → Stmts → Arms → Arms

  -- `Vec<MatchArm>`: a variant, a binding and a body each.
  pub data Cases : Type 0 where
    no_cases : Cases
    match_arm : String → Option String → Stmts → Cases → Cases

  pub data Stmt : Type 0 where
    declare : String → Bool → Option Ty → Expr → Stmt
    assign : String → Expr → Stmt
    if_then : Arms → Stmt
    if_else : Arms → Stmts → Stmt
    tif : Expr → Stmts → Stmts → Stmts → Stmt
    while : Expr → Stmts → Stmt
    return_none yield : Stmt
    return_some eval tail : Expr → Stmt
    spawn : Stmts → Stmt

  pub data Stmts : Type 0 where
    empty : Stmts
    next : Stmt → Stmts → Stmts

pub record Fn : Type 0 where
  pub name : String
  pub params : List (String × Ty)
  pub ret : Ty
  pub body : Stmts
