-- ===== src/Semantic/ConstFold/Agree.antt =====
-- src/semantic/const_fold.rs beside const_eval.rs, and beside the operators of src/reference/eval.rs.
use mani_tc.Prelude.{◌≡◌, refl, Bool, true, false, ◌&&◌, Option, none, some, arith, if◌then◌else◌}
use mani_tc.Prelude.Int.{ℤ, pos, ◌+ℤ◌, ◌-ℤ◌, ◌*ℤ◌, neg_ℤ, leb_ℤ, ◌==ℤ◌, quot, rem}
use mani_tc.Isa.Word.{IsWord, t3_bound}
use mani_tc.Interval
use mani_tc.Reference.Bin.{Bin}
use mani_tc.Reference.Ops.{Val, Result, v1, apply, divide, compare_ints, as_print_int}
use mani_tc.Reference.Ops
use mani_tc.Reference.Machine.{quot-IsWord}
use mani_tc.Semantic.Syntax.{BinOpKind}
use mani_tc.Semantic.ConstEval.{Res, truth, ok_or, overflows, bin, unary}
use mani_tc.Semantic.ConstEval
use mani_tc.Semantic.ConstFold.{
  ConstValue, int, bool, not_constant, divide_by_zero, overflow, Folded, err, ok, int_or, fold_ints,
  fold_bools,
}

-- A folded constant in the fragment of const_eval.rs, where a truth value is 0 or 1.
abbrev pub as_res : Folded ConstValue → Res ℤ
as_res (ok (int n)) = ConstEval.ok n
as_res (ok (bool b)) = truth b
as_res (ok v) = ConstEval.err (ConstEval.not_constant ConstEval.fragment)
as_res (err not_constant) = ConstEval.err (ConstEval.not_constant ConstEval.fragment)
as_res (err divide_by_zero) = ConstEval.err ConstEval.divide_by_zero
as_res (err overflow) = ConstEval.err ConstEval.overflow

abbrev pub bit : Bool → ℤ
bit b = if b then pos 1 else pos 0

-- `bin` gives what the folder gives on two integers, and on two truth values.
abbrev pub SameInt : ℤ → BinOpKind → ℤ → Type 0
SameInt x op y = as_res (fold_ints x op y) ≡ bin x op y

abbrev pub SameBool : Bool → BinOpKind → Bool → Type 0
SameBool a op b = as_res (fold_bools a op b) ≡ bin (bit a) op (bit b)

as_res-int_or : (o : Option ℤ) → as_res (int_or o overflow) ≡ ok_or o ConstEval.overflow
as_res-int_or none = refl
as_res-int_or (some n) = refl

-- Division by 0 and an overflow are the same errors, the quotient is the same value.
as_res-guarded :
    (b c : Bool) (v : ℤ)
    → as_res (if b then err divide_by_zero else if c then err overflow else ok (int v)) ≡ (
        if b
        then ConstEval.err ConstEval.divide_by_zero
        else if c
        then ConstEval.err ConstEval.overflow
        else ConstEval.ok v)
as_res-guarded true c v = refl
as_res-guarded false true v = refl
as_res-guarded false false v = refl

-- On two integers, the two evaluators give the same value, or the same error, for the arithmetic
-- operators and the comparisons; on two truth values, which are 1 and 0 for the second evaluator, for
-- `&&`, `||`, `==` and `!=`.
pub fold_ints-bin :
    (x y : ℤ) (a b : Bool)
    → SameInt x BinOpKind.add y
      × SameInt x BinOpKind.sub y
      × SameInt x BinOpKind.mul y
      × SameInt x BinOpKind.div y
      × SameInt x BinOpKind.rem y
      × SameInt x BinOpKind.eq y
      × SameInt x BinOpKind.ne y
      × SameInt x BinOpKind.lt y
      × SameInt x BinOpKind.gt y
      × SameInt x BinOpKind.le y
      × SameInt x BinOpKind.ge y
      × SameBool a BinOpKind.and b
      × SameBool a BinOpKind.or b
      × SameBool a BinOpKind.eq b
      × SameBool a BinOpKind.ne b
unfolding fold_ints bin fold_bools
fold_ints-bin x y a b = (
  as_res-int_or (Interval.checked (x +ℤ y)),
  as_res-int_or (Interval.checked (x -ℤ y)),
  as_res-int_or (Interval.checked (x *ℤ y)),
  as_res-guarded (y ==ℤ pos 0) (overflows x y) (quot x y),
  as_res-guarded (y ==ℤ pos 0) (overflows x y) (rem x y),
  refl,
  refl,
  refl,
  refl,
  refl,
  refl,
  ground arith,
  ground arith,
  ground arith,
  ground arith,
)

-- The value of a constant that is a word or a truth value; of the reference's operator, none at a trap.
abbrev is_in_word : ℤ → Bool
is_in_word v = leb_ℤ v (pos t3_bound) && leb_ℤ (neg_ℤ (pos t3_bound)) v

abbrev pub in_word : Folded ConstValue → Option Val
in_word (ok (int n)) = if is_in_word n then some (Ops.int n) else none
in_word (ok (bool b)) = some (Ops.bool b)
in_word _ = none

abbrev pub to_option : Result Val → Option Val
to_option (Ops.ok v) = some v
to_option (Ops.trap f) = none

-- The reference's operator under version 1 gives what the folder gives, where that is a word.
abbrev pub SameWord : ℤ → BinOpKind → Bin → ℤ → Type 0
SameWord x op ref y = in_word (fold_ints x op y) ≡ to_option (apply v1 ref (Ops.int x) (Ops.int y))

in_word-checked :
    (v : ℤ) → in_word (int_or (Interval.checked v) overflow) ≡ to_option (Ops.checked v)
unfolding Ops.checked neg_ℤ
in_word-checked v = ground arith

is_in_word-IsWord : (v : ℤ) → IsWord v → is_in_word v ≡ true
unfolding neg_ℤ
is_in_word-IsWord v h = ground arith

no_overflow : (x y : ℤ) → IsWord x → overflows x y ≡ false
no_overflow x y h = ground arith

in_word-guarded :
    (b c : Bool) (v : ℤ) (f : _)
    → c ≡ false
    → is_in_word v ≡ true
    → in_word (if b then err divide_by_zero else if c then err overflow else ok (int v))
      ≡ to_option (if b then Ops.trap f else Ops.ok (Ops.int v))
in_word-guarded true c v f p q = refl
in_word-guarded false true v f p q = cc
in_word-guarded false false v f p q = rw q

-- On two words, folding the arithmetic operators and the comparisons gives what the reference gives
-- under version 1 of the language, where the result is a word, and no word where the reference traps.
pub fold_ints-apply :
    (x y : ℤ)
    → IsWord x
    → IsWord y
    → SameWord x BinOpKind.add Bin.add y
      × SameWord x BinOpKind.sub Bin.sub y
      × SameWord x BinOpKind.mul Bin.mul y
      × SameWord x BinOpKind.div Bin.div y
      × SameWord x BinOpKind.rem Bin.rem y
      × SameWord x BinOpKind.eq Bin.eq y
      × SameWord x BinOpKind.ne Bin.ne y
      × SameWord x BinOpKind.lt Bin.lt y
      × SameWord x BinOpKind.gt Bin.gt y
      × SameWord x BinOpKind.le Bin.le y
      × SameWord x BinOpKind.ge Bin.ge y
unfolding fold_ints apply divide as_print_int compare_ints
fold_ints-apply x y wx wy =
    let (wq, wr) = quot-IsWord x y wx in
    let safe = no_overflow x y wx in
    (
      in_word-checked (x +ℤ y),
      in_word-checked (x -ℤ y),
      in_word-checked (x *ℤ y),
      in_word-guarded (y ==ℤ pos 0) (overflows x y) (quot x y) _ safe
          (is_in_word-IsWord (quot x y) wq),
      in_word-guarded (y ==ℤ pos 0) (overflows x y) (rem x y) _ safe
          (is_in_word-IsWord (rem x y) wr),
      refl,
      refl,
      refl,
      refl,
      refl,
      refl,
    )
