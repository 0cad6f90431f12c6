-- ===== src/Semantic/Syntax.antt =====
-- The operators, literals and, of the syntax tree of src/ast.rs, what a constant may consist of. A name
-- is a number; a form outside that fragment is `other_expr` or `other_stmt`, and an `Option` or a list
-- inside the tree is a data type of its own or two constructors.
use mani_tc.Prelude.{ℕ, Bool, Option, List}
use mani_tc.Prelude.Int.{ℤ}

pub data BinOpKind : Type 0 where
  add sub mul div rem eq ne lt gt le ge and or bit_and bit_or bit_xor l_shift r_shift : BinOpKind
  tand tor txor tcon tany timp teq tandw torw txorw timpw tcmpw range range_inclusive : BinOpKind

pub data UnOpKind : Type 0 where
  neg not tnot tposs tnec tnotw deref ref trit_neg : UnOpKind

-- A float is the number of its bits, a character its code point, a string its bytes.
pub data Lit : Type 0 where
  int ternary_int trit bool3 : ℤ → Lit
  float char : ℕ → Lit
  bool : Bool → Lit
  str : List ℕ → Lit
  null : Lit

mutual
  pub data Expr : Type 0 where
    lit : Lit → Expr
    ident : ℕ → Expr
    un_op : UnOpKind → Expr → Expr
    bin_op : Expr → BinOpKind → Expr → Expr
    cast : Expr → Expr
    if_only : Expr → Block → Elifs → Expr
    if_else : Expr → Block → Elifs → Block → Expr
    while : Expr → Block → Expr
    block : Block → Expr
    call : ℕ → Args → Expr
    call_indirect : Expr → Args → Expr
    other_expr : Expr

  pub data Args : Type 0 where
    no_args : Args
    arg : Expr → Args → Args

  pub data Elifs : Type 0 where
    no_elifs : Elifs
    elif : Expr → Block → Elifs → Elifs

  pub data Block : Type 0 where
    end : Block
    next : Stmt → Block → Block

  pub data Stmt : Type 0 where
    let_none : ℕ → Stmt
    let_some assign : ℕ → Expr → Stmt
    assign_other : Expr → Stmt
    expr return_some : Expr → Stmt
    return_none other_stmt : Stmt

-- `FnDef`: the names of its parameters, and its body.
pub record FnDef : Type 0 where
  pub params : List ℕ
  pub body : Option Block
