-- ===== src/Semantic/ConstEval/Tests.antt =====
-- Constants evaluated by the models of src/semantic/const_eval.rs and const_fold.rs.
use mani_tc.Prelude.{ℕ, ◌≡◌, refl, arith, true, false, Option, none, some, [], ◌∷◌}
use mani_tc.Prelude.Maps
use mani_tc.Prelude.Int.{ℤ, pos, negsuc}
use mani_tc.Prelude.Int
use mani_tc.Semantic.Syntax.{
  BinOpKind, Lit, Expr, no_args, arg, no_elifs, Block, end, next, Stmt, let_some, assign,
  return_some, FnDef,
}
use mani_tc.Semantic.ConstEval.{
  Res, err, ok, Eval, ConstCtx, Out, not_constant, no_value, divide_by_zero,
}
use mani_tc.Semantic.ConstEval
use mani_tc.Semantic.ConstEval.Run.{evaluator, eval_int}
use mani_tc.Semantic.ConstEval.Run
use mani_tc.Semantic.ConstEval.Settles.{Settles}
use mani_tc.Semantic.ConstEval.Ends.{expr-Settles, is_answered, eval_int-answered}
use mani_tc.Semantic.ConstFold.{fold_ints, fold_bools}
use mani_tc.Semantic.ConstFold
use mani_tc.Semantic.ConstFold.Agree.{SameInt, SameBool, SameWord, fold_ints-bin, fold_ints-apply}
use mani_tc.Reference.Bin
use mani_tc.Reference.Ops.{v1, v2, apply, divide, as_print_int}
use mani_tc.Reference.Ops

abbrev num : ℕ → Expr
num n = Expr.lit (Lit.int (pos n))

abbrev block_of : Expr → Block
block_of e = next (Stmt.expr e) end

-- `let r = 1; while n != 0 { r = r * n; n = n - 1 } return r;`
abbrev factorial : FnDef
factorial = record {
  params = 0 ∷ [];
  body = some (
      next (let_some 1 (num 1)) (
        next
          (Stmt.expr (
            Expr.while (Expr.ident 0) (
              next (assign 1 (Expr.bin_op (Expr.ident 1) BinOpKind.mul (Expr.ident 0)))
                (next (assign 0 (Expr.bin_op (Expr.ident 0) BinOpKind.sub (num 1))) end))))
          (next (return_some (Expr.ident 1)) end)));
}

-- `let x = 0; { x = x + 1; x } x`.
abbrev counts_once : FnDef
counts_once = record {
  params = [];
  body = some (
      next (let_some 1 (num 0)) (
        next
          (Stmt.expr (
            Expr.block (
              next (assign 1 (Expr.bin_op (Expr.ident 1) BinOpKind.add (num 1)))
                (next (Stmt.expr (Expr.ident 1)) end))))
          (next (Stmt.expr (Expr.ident 1)) end)));
}

-- `if n { 1 } else { 2 }`.
abbrev chooses : FnDef
chooses = record {
  params = 0 ∷ [];
  body = some (
      next (Stmt.expr (Expr.if_else (Expr.ident 0) (block_of (num 1)) no_elifs (block_of (num 2))))
        end);
}

abbrev ctx : ConstCtx
ctx = record {
  ints = (7, pos 3) ∷ [];
  fns = (10, factorial) ∷ (11, counts_once) ∷ (12, chooses) ∷ [];
}

abbrev result : Out ℤ → Option (Res ℤ)
result none = none
result (some (r, s)) = some r

-- A loop; a block that stands as a statement is evaluated twice; a body whose last expression is an `if`
-- has no value.
constants_run :
    (result (eval_int (Expr.call 10 (arg (Expr.ident 7) no_args)) ctx) ≡ some (ok (pos 6)))
    × (result (eval_int (Expr.call 11 no_args) ctx) ≡ some (ok (pos 2)))
    × (result (eval_int (Expr.call 12 (arg (num 1) no_args)) ctx)
        ≡ some (err (not_constant no_value)))
unfolding eval_int evaluator Run.expr_step Maps.lookup ConstEval.count_args Run.bind_args
    ConstEval.lookup Run.block_inner Run.stmt_step ConstEval.literal_value Run.last_value
    Run.expr_stmt Run.while_step Maps.insert Run.run_stmts ConstEval.bin Int.◌*ℤ◌
    ConstEval.assign_in Int.neg_ℤ Int.◌+ℤ◌ Int.◌-ℤ◌ Run.pick_branch Run.pick_elifs
constants_run = (refl, refl, refl)

-- 7 / 2 is 3 for the folder, and 4 for the reference under version 2.
division_run :
    (fold_ints (pos 7) BinOpKind.div (pos 2) ≡ ConstFold.ok (ConstFold.int (pos 3)))
    × (apply v2 Bin.div (Ops.int (pos 7)) (Ops.int (pos 2)) ≡ Ops.ok (Ops.int (pos 4)))
unfolding fold_ints apply divide as_print_int Int.quot Ops.checked Ops.div_nearest_ref Int.◌-ℤ◌
    Int.◌*ℤ◌ Int.◌+ℤ◌ Int.neg_ℤ
division_run = (refl, refl)

abbrev four_steps : Eval
four_steps = record { scopes = ((0, pos 1) ∷ []) ∷ []; budget = 4; depth = 0 }

expr-Settles_example : Settles four_steps ((evaluator ctx 5).expr (Expr.call 11 no_args) four_steps)
expr-Settles_example = expr-Settles ctx 5 (Expr.call 11 no_args) four_steps (omega arith)

eval_int-answered_example : is_answered (eval_int (Expr.call 10 (arg (num 5) no_args)) ctx) ≡ true
eval_int-answered_example = eval_int-answered (Expr.call 10 (arg (num 5) no_args)) ctx

fold_ints-bin_example :
    SameInt (pos 9) BinOpKind.add (negsuc 1)
    × SameInt (pos 9) BinOpKind.sub (negsuc 1)
    × SameInt (pos 9) BinOpKind.mul (negsuc 1)
    × SameInt (pos 9) BinOpKind.div (negsuc 1)
    × SameInt (pos 9) BinOpKind.rem (negsuc 1)
    × SameInt (pos 9) BinOpKind.eq (negsuc 1)
    × SameInt (pos 9) BinOpKind.ne (negsuc 1)
    × SameInt (pos 9) BinOpKind.lt (negsuc 1)
    × SameInt (pos 9) BinOpKind.gt (negsuc 1)
    × SameInt (pos 9) BinOpKind.le (negsuc 1)
    × SameInt (pos 9) BinOpKind.ge (negsuc 1)
    × SameBool true BinOpKind.and false
    × SameBool true BinOpKind.or false
    × SameBool true BinOpKind.eq false
    × SameBool true BinOpKind.ne false
fold_ints-bin_example = fold_ints-bin (pos 9) (negsuc 1) true false

fold_ints-apply_example :
    SameWord (pos 9) BinOpKind.add Bin.add (negsuc 1)
    × SameWord (pos 9) BinOpKind.sub Bin.sub (negsuc 1)
    × SameWord (pos 9) BinOpKind.mul Bin.mul (negsuc 1)
    × SameWord (pos 9) BinOpKind.div Bin.div (negsuc 1)
    × SameWord (pos 9) BinOpKind.rem Bin.rem (negsuc 1)
    × SameWord (pos 9) BinOpKind.eq Bin.eq (negsuc 1)
    × SameWord (pos 9) BinOpKind.ne Bin.ne (negsuc 1)
    × SameWord (pos 9) BinOpKind.lt Bin.lt (negsuc 1)
    × SameWord (pos 9) BinOpKind.gt Bin.gt (negsuc 1)
    × SameWord (pos 9) BinOpKind.le Bin.le (negsuc 1)
    × SameWord (pos 9) BinOpKind.ge Bin.ge (negsuc 1)
fold_ints-apply_example = fold_ints-apply (pos 9) (negsuc 1) (omega arith) (omega arith)
