-- ===== src/Semantic/ConstFold.antt =====
-- src/semantic/const_fold.rs: the folder of checked expressions, for module-level constants and static
-- indices. The arithmetic of `f64` and its casts are the platform's, parameters.
pub mod Agree
use mani_tc.Prelude.{ℕ, Bool, true, false, ◌&&◌, ◌||◌, not, Option, none, some, List, if◌then◌else◌}
use mani_tc.Prelude.Int.{ℤ, pos, ◌+ℤ◌, ◌-ℤ◌, ◌*ℤ◌, neg_ℤ, ltb_ℤ, leb_ℤ, ◌==ℤ◌, quot, rem}
use mani_tc.Interval
use mani_tc.Ir.Fold.{Floats}
use mani_tc.Semantic.Types.{ManiType}
use mani_tc.Semantic.Types
use mani_tc.Semantic.Syntax.{BinOpKind, UnOpKind, Lit}
use mani_tc.Semantic.ConstEval.{overflows}

mutual
  pub data ConstValue : Type 0 where
    int trit : ℤ → ConstValue
    float : ℕ → ConstValue
    bool : Bool → ConstValue
    str : List ℕ → ConstValue
    null : ConstValue
    struct : List ℕ → ConstValues → ConstValue

  pub data ConstValues : Type 0 where
    no_values : ConstValues
    value : ConstValue → ConstValues → ConstValues

pub data ConstError : Type 0 where
  not_constant divide_by_zero overflow : ConstError

pub data Folded (A : Type 0) : Type 0 where
  err : ConstError → Folded A
  ok : A → Folded A

infixl 5 ◌>>=◌
abbrev pub ◌>>=◌ : {A B : Type 0} → Folded A → (A → Folded B) → Folded B
err e >>= f = err e
ok a >>= f = f a

-- `TypedExpr`; a form that never folds is `other_expr`.
mutual
  pub data TypedExpr : Type 0 where
    lit : Lit → TypedExpr
    un_op : UnOpKind → TypedExpr → TypedExpr
    bin_op : TypedExpr → BinOpKind → TypedExpr → TypedExpr
    cast : TypedExpr → ManiType → TypedExpr
    struct_lit : List ℕ → Fields → TypedExpr
    other_expr : TypedExpr

  pub data Fields : Type 0 where
    no_fields : Fields
    field : List ℕ → TypedExpr → Fields → Fields

unfoldable pub fold_lit : Lit → ConstValue
fold_lit (Lit.int n) = int n
fold_lit (Lit.ternary_int n) = int n
fold_lit (Lit.char c) = int (pos c)
fold_lit (Lit.float f) = float f
fold_lit (Lit.bool b) = bool b
fold_lit (Lit.bool3 v) = trit v
fold_lit (Lit.trit v) = trit v
fold_lit (Lit.str s) = str s
fold_lit Lit.null = null

abbrev pub int_or : Option ℤ → ConstError → Folded ConstValue
int_or none e = err e
int_or (some n) e = ok (int n)

unfoldable pub fold_ints : ℤ → BinOpKind → ℤ → Folded ConstValue
fold_ints x BinOpKind.add y = int_or (Interval.checked (x +ℤ y)) overflow
fold_ints x BinOpKind.sub y = int_or (Interval.checked (x -ℤ y)) overflow
fold_ints x BinOpKind.mul y = int_or (Interval.checked (x *ℤ y)) overflow
fold_ints x BinOpKind.div y =
    if y ==ℤ pos 0
    then err divide_by_zero
    else if overflows x y
    then err overflow
    else ok (int (quot x y))
fold_ints x BinOpKind.rem y =
    if y ==ℤ pos 0
    then err divide_by_zero
    else if overflows x y
    then err overflow
    else ok (int (rem x y))
fold_ints x BinOpKind.eq y = ok (bool (x ==ℤ y))
fold_ints x BinOpKind.ne y = ok (bool (not (x ==ℤ y)))
fold_ints x BinOpKind.lt y = ok (bool (ltb_ℤ x y))
fold_ints x BinOpKind.gt y = ok (bool (ltb_ℤ y x))
fold_ints x BinOpKind.le y = ok (bool (leb_ℤ x y))
fold_ints x BinOpKind.ge y = ok (bool (leb_ℤ y x))
fold_ints x op y = err not_constant

unfoldable pub fold_bools : Bool → BinOpKind → Bool → Folded ConstValue
fold_bools x BinOpKind.and y = ok (bool (x && y))
fold_bools x BinOpKind.or y = ok (bool (x || y))
fold_bools x BinOpKind.eq y = ok (bool (if x then y else not y))
fold_bools x BinOpKind.ne y = ok (bool (if x then not y else y))
fold_bools x op y = err not_constant

abbrev pub is_integral : ManiType → Bool
is_integral Types.int = true
is_integral Types.char = true
is_integral (Types.tn _) = true
is_integral _ = false

abbrev pub is_floating : ManiType → Bool
is_floating Types.float = true
is_floating Types.tfloat = true
is_floating _ = false

abbrev pub is_three_valued : ManiType → Bool
is_three_valued Types.trit = true
is_three_valued Types.bool3 = true
is_three_valued _ = false

module _ (fl : Floats) (of_int : ℤ → ℕ) (to_int : ℕ → ℤ) where
  unfoldable pub fold_unop : UnOpKind → ConstValue → Folded ConstValue
  fold_unop UnOpKind.neg (int n) = int_or (Interval.checked (neg_ℤ n)) overflow
  fold_unop UnOpKind.neg (float f) = ok (float (fl.negated f))
  fold_unop UnOpKind.neg (trit t) = ok (trit (neg_ℤ t))
  fold_unop UnOpKind.trit_neg (trit t) = ok (trit (neg_ℤ t))
  fold_unop UnOpKind.tnot (trit t) = ok (trit (neg_ℤ t))
  fold_unop UnOpKind.not (bool b) = ok (bool (not b))
  fold_unop op v = err not_constant

  unfoldable pub fold_floats : ℕ → BinOpKind → ℕ → Folded ConstValue
  fold_floats x BinOpKind.add y = ok (float (fl.plus x y))
  fold_floats x BinOpKind.sub y = ok (float (fl.minus x y))
  fold_floats x BinOpKind.mul y = ok (float (fl.times x y))
  fold_floats x BinOpKind.div y = ok (float (fl.over x y))
  fold_floats x BinOpKind.rem y = ok (float (fl.modulo x y))
  fold_floats x BinOpKind.eq y = ok (bool (fl.same x y))
  fold_floats x BinOpKind.ne y = ok (bool (not (fl.same x y)))
  fold_floats x BinOpKind.lt y = ok (bool (fl.below x y))
  fold_floats x BinOpKind.gt y = ok (bool (fl.below y x))
  fold_floats x BinOpKind.le y = ok (bool (fl.at_most x y))
  fold_floats x BinOpKind.ge y = ok (bool (fl.at_most y x))
  fold_floats x op y = err not_constant

  unfoldable pub fold_binop : ConstValue → BinOpKind → ConstValue → Folded ConstValue
  fold_binop (int x) op (int y) = fold_ints x op y
  fold_binop (float x) op (float y) = fold_floats x op y
  fold_binop (bool x) op (bool y) = fold_bools x op y
  fold_binop a op b = err not_constant

  unfoldable pub fold_cast : ConstValue → ManiType → Folded ConstValue
  fold_cast (int n) ty =
      if is_floating ty
      then ok (float (of_int n))
      else if is_integral ty
      then ok (int n)
      else err not_constant
  fold_cast (float f) ty =
      if is_integral ty
      then ok (int (to_int f))
      else if is_floating ty
      then ok (float f)
      else err not_constant
  fold_cast (trit t) ty =
      if is_integral ty
      then ok (int t)
      else if is_three_valued ty
      then ok (trit t)
      else err not_constant
  fold_cast v ty = err not_constant

  unfoldable mutual
    pub fold : TypedExpr → Folded ConstValue
    fold (lit l) = ok (fold_lit l)
    fold (un_op op e) = fold e >>= λ v. fold_unop op v
    fold (bin_op l op r) = fold l >>= λ a. fold r >>= λ b. fold_binop a op b
    fold (cast e ty) = fold e >>= λ v. fold_cast v ty
    fold (struct_lit name fields) = fold_fields fields >>= λ vs. ok (struct name vs)
    fold other_expr = err not_constant

    pub fold_fields : Fields → Folded ConstValues
    fold_fields no_fields = ok no_values
    fold_fields (field name e rest) = fold e >>= λ v. fold_fields rest >>= λ vs. ok (value v vs)

  abbrev pub int_of : Folded ConstValue → Option ℤ
  int_of (ok (int n)) = some n
  int_of _ = none

  unfoldable pub fold_int : TypedExpr → Option ℤ
  fold_int e = int_of (fold e)
