-- ===== src/Ir/Fold/Reference.antt =====
-- Folding in src/ir/optimize.rs beside the operators of src/reference/eval.rs.
use mani_tc.Prelude.{
  ◌≤◌, ◌<◌, ◌≡◌, refl, sym, Bool-cases, false, inl, inr, Option, none, some, arith,
}
use mani_tc.Prelude.Int.{ℤ, pos, abs_ℕ, ◌+ℤ◌, ◌-ℤ◌, ◌*ℤ◌, neg_ℤ, ◌==ℤ◌, quot, one_part}
use mani_tc.Isa.Word.{IsWord}
use mani_tc.Lang.{div_nearest, rem_balanced}
use mani_tc.Lang.Wrap.{wrap64_id}
use mani_tc.Lang.Division.{division-IsWord, rem_balanced-eq}
use mani_tc.Reference.Bin.{Bin}
use mani_tc.Reference.Ops.{
  Lang, v1, v2, Val, Result, ok, trap, as_print_int, checked, divide, compare_ints, apply,
  div_nearest_ref,
}
use mani_tc.Reference.Ops
use mani_tc.Reference.Division.{div_nearest_ref-eq}
use mani_tc.Reference.Machine.{checked-word, quot-IsWord}
use mani_tc.Ir.BinOp.{BinOp}
use mani_tc.Ir.Types.{Const, int, bool}
use mani_tc.Ir.Fold.{fold_in_word, fold_int_binop}

-- The constant that a value of the reference is; a trap is none.
abbrev pub to_const : Result Val → Option Const
to_const (ok (Ops.int n)) = some (int n)
to_const (ok (Ops.bool b)) = some (bool b)
to_const _ = none

fold_in_word-checked : (v : ℤ) → fold_in_word v ≡ to_const (checked v)
unfolding fold_in_word checked neg_ℤ
fold_in_word-checked v = ground arith

nonzero : (b : ℤ) → (b ==ℤ pos 0) ≡ false → 0 < abs_ℕ b
nonzero b p = ground arith

module _ (a b : ℤ) (wa : IsWord a) (wb : IsWord b) where
  fold_trunc-eq :
      (fold_int_binop BinOp.div a b ≡ to_const (apply v1 Bin.div (Ops.int a) (Ops.int b)))
      × (fold_int_binop BinOp.rem a b ≡ to_const (apply v1 Bin.rem (Ops.int a) (Ops.int b)))
  unfolding fold_int_binop apply divide as_print_int
  fold_trunc-eq = elim (Bool-cases (b ==ℤ pos 0)) [
    | inl p ↦ rw p (refl, refl)
    | inr p ↦ rw (p, wrap64_id (quot a b) (omega (arith, (quot-IsWord a b wa).0))) (refl, refl)
  ]

  fold_near-eq :
      (fold_int_binop BinOp.div_near a b ≡ to_const (apply v2 Bin.div (Ops.int a) (Ops.int b)))
      × (fold_int_binop BinOp.rem_near a b ≡ to_const (apply v2 Bin.rem (Ops.int a) (Ops.int b)))
  unfolding fold_int_binop apply divide as_print_int
  fold_near-eq = elim (Bool-cases (b ==ℤ pos 0)) [
    | inl p ↦ rw p (refl, refl)
    | inr p ↦ rw p (near (nonzero b p))
  ]
    where
      near :
          0 < abs_ℕ b
          → (some (int (div_nearest a b)) ≡ to_const (checked (div_nearest_ref a b)))
            × (some (int (rem_balanced a b)) ≡ to_const (checked (a -ℤ div_nearest_ref a b *ℤ b)))
      near hb =
          let ha : abs_ℕ a ≤ 9223372036854775807 = omega (arith, one_part a) in
          let hk : abs_ℕ b ≤ 9223372036854775808 = omega (arith, one_part b) in
          let (wq, wr) = division-IsWord a b wa wb hb in
          rw
            (
              div_nearest_ref-eq a b ha hb hk,
              sym (rem_balanced-eq a b ha hb hk),
              checked-word _ wq,
              checked-word _ wr,
            )
            (refl, refl)

  -- On two words, folding the checked sum, difference and product, the truncated quotient and
  -- remainder, the nearest quotient and balanced remainder, and the six comparisons gives the
  -- constant that the reference's operator gives, and folds nothing where the reference traps; the
  -- truncated division is the reference's under version 1, the nearest one under version 2.
  pub fold_int_binop-apply :
      (lang : Lang)
      → (fold_int_binop BinOp.add_t27 a b ≡ to_const (apply lang Bin.add (Ops.int a) (Ops.int b)))
        × (fold_int_binop BinOp.sub_t27 a b ≡ to_const (apply lang Bin.sub (Ops.int a) (Ops.int b)))
        × (fold_int_binop BinOp.mul_t27 a b ≡ to_const (apply lang Bin.mul (Ops.int a) (Ops.int b)))
        × (fold_int_binop BinOp.div a b ≡ to_const (apply v1 Bin.div (Ops.int a) (Ops.int b)))
        × (fold_int_binop BinOp.rem a b ≡ to_const (apply v1 Bin.rem (Ops.int a) (Ops.int b)))
        × (fold_int_binop BinOp.div_near a b ≡ to_const (apply v2 Bin.div (Ops.int a) (Ops.int b)))
        × (fold_int_binop BinOp.rem_near a b ≡ to_const (apply v2 Bin.rem (Ops.int a) (Ops.int b)))
        × (fold_int_binop BinOp.i_eq a b ≡ to_const (apply lang Bin.eq (Ops.int a) (Ops.int b)))
        × (fold_int_binop BinOp.i_ne a b ≡ to_const (apply lang Bin.ne (Ops.int a) (Ops.int b)))
        × (fold_int_binop BinOp.i_lt a b ≡ to_const (apply lang Bin.lt (Ops.int a) (Ops.int b)))
        × (fold_int_binop BinOp.i_gt a b ≡ to_const (apply lang Bin.gt (Ops.int a) (Ops.int b)))
        × (fold_int_binop BinOp.i_le a b ≡ to_const (apply lang Bin.le (Ops.int a) (Ops.int b)))
        × (fold_int_binop BinOp.i_ge a b ≡ to_const (apply lang Bin.ge (Ops.int a) (Ops.int b)))
  fold_int_binop-apply lang =
      unfold fold_int_binop apply as_print_int compare_ints in
      (
        fold_in_word-checked (a +ℤ b),
        fold_in_word-checked (a -ℤ b),
        fold_in_word-checked (a *ℤ b),
        fold_trunc-eq.0,
        fold_trunc-eq.1,
        fold_near-eq.0,
        fold_near-eq.1,
        refl,
        refl,
        refl,
        refl,
        refl,
        refl,
      )
