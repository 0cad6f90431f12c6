-- ===== src/Reference/Valid/Operators.antt =====
-- The operators of src/reference/eval.rs on valid values.
use mani_tc.Prelude.{ℕ, ◌≡◌, subst, sym, Bool, true, false, zip_with, if◌then◌else◌, arith}
use mani_tc.Prelude.Int.{ℤ, pos, negsuc, neg_ℤ, ◌==ℤ◌}
use mani_tc.Isa.Word.{IsWord, IsTrit, clamp27-IsWord}
use mani_tc.Isa.Trits.{from_trits27}
use mani_tc.Isa.Lanes.{lanewise2, trit_imp}
use mani_tc.Isa.Lanes.Laws.{min_ℤ-IsLaneOp, max_ℤ-IsLaneOp, trit_imp-IsLaneOp}
use mani_tc.Reference.Bin.{Bin}
use mani_tc.Reference.Ops.{
  Lang, v1, v2, Val, int, trit, bool3, bool, res, Result, ok, trap, division_by_zero, bind,
  as_print_int, checked, trit_operand, word_operand, t_and, t_or, t_xor, t_imp, t_con, t_any,
  three_valued, typed, closed, lanes, from_lanes, lane_op, divide, apply, three_valued_apply,
  lane_apply,
}
use mani_tc.Reference.Lanes.{lane_operators-eq}
use mani_tc.Reference.Machine.{quot-IsWord}
use mani_tc.Reference.Valid.{IsVal}
use mani_tc.Reference.Valid.Casts.{as_print_int-IsWord}

-- A result that is valid if there is one.
abbrev pub IsOk {ℓ} : {A : Type ℓ} → (A → Type 0) → Result A → Type 0
IsOk P (ok a) = P a
IsOk P (trap f) = Unit

bind-IsOk {ℓ κ} :
    {A : Type ℓ} {B : Type κ} (P : A → Type 0) (Q : B → Type 0) (r : Result A) (f : A → Result B)
    → IsOk P r
    → ((a : A) → P a → IsOk Q (f a))
    → IsOk Q (bind r f)
bind-IsOk P Q (ok a) f h k = k a h
bind-IsOk P Q (trap x) f h k = tt

t_xor-IsTrit : (a b : ℤ) → IsTrit a → IsTrit b → IsTrit (t_xor a b)
unfolding t_xor
t_xor-IsTrit a b ha hb = ground arith

t_con-IsTrit : (a b : ℤ) → IsTrit (t_con a b)
unfolding t_con
t_con-IsTrit a b = ground arith

t_any-IsTrit : (a b : ℤ) → IsTrit (t_any a b)
unfolding t_any
t_any-IsTrit a b = ground arith

t_imp-IsTrit : (a b : ℤ) → IsTrit a → IsTrit b → IsTrit (t_imp a b)
unfolding t_imp trit_imp
t_imp-IsTrit a b ha hb = trit_imp-IsLaneOp a b ha hb

three_valued-IsTrit : (op : Bin) (a b : ℤ) → IsTrit a → IsTrit b → IsTrit (three_valued op a b)
unfolding three_valued t_and t_or
three_valued-IsTrit Bin.tand a b ha hb = min_ℤ-IsLaneOp a b ha hb
three_valued-IsTrit Bin.tor a b ha hb = max_ℤ-IsLaneOp a b ha hb
three_valued-IsTrit Bin.txor a b ha hb = t_xor-IsTrit a b ha hb
three_valued-IsTrit Bin.tcon a b ha hb = t_con-IsTrit a b
three_valued-IsTrit Bin.tany a b ha hb = t_any-IsTrit a b
three_valued-IsTrit Bin.timp a b ha hb = t_imp-IsTrit a b ha hb
three_valued-IsTrit _ a b ha hb =
    min_ℤ-IsLaneOp (t_imp a b) (t_imp b a) (t_imp-IsTrit a b ha hb) (t_imp-IsTrit b a hb ha)

lanewise-IsWord : (f : ℤ → ℤ → ℤ) (a b x : ℤ) → x ≡ lanewise2 f a b → IsWord x
unfolding lanewise2 from_trits27
lanewise-IsWord f a b x e = subst IsWord (sym e) (clamp27-IsWord _)

lane_op-IsWord :
    (op : Bin) (a b : ℤ)
    → IsWord a
    → IsWord b
    → IsWord (from_lanes (zip_with (lane_op op) (lanes a) (lanes b)))
unfolding lane_op
lane_op-IsWord Bin.tandw a b ha hb =
    let (e, _, _, _, _) = lane_operators-eq a b ha hb in lanewise-IsWord _ a b _ e
lane_op-IsWord Bin.torw a b ha hb =
    let (_, e, _, _, _) = lane_operators-eq a b ha hb in lanewise-IsWord _ a b _ e
lane_op-IsWord Bin.txorw a b ha hb =
    let (_, _, e, _, _) = lane_operators-eq a b ha hb in lanewise-IsWord _ a b _ e
lane_op-IsWord Bin.timpw a b ha hb =
    let (_, _, _, e, _) = lane_operators-eq a b ha hb in lanewise-IsWord _ a b _ e
lane_op-IsWord _ a b ha hb =
    let (_, _, _, _, e) = lane_operators-eq a b ha hb in lanewise-IsWord _ a b _ e

module _ (m : ℕ) where
  pub checked-IsVal : (x : ℤ) → IsOk (IsVal m) (checked x)
  unfolding checked IsVal neg_ℤ
  checked-IsVal (pos n) = ground arith
  checked-IsVal (negsuc n) = ground arith

  pub trit_operand-IsTrit : (op : Bin) (v : Val) → IsVal m v → IsOk IsTrit (trit_operand op v)
  unfolding IsVal trit_operand
  trit_operand-IsTrit op (trit t) h = h
  trit_operand-IsTrit op (bool3 t) h = h
  trit_operand-IsTrit op (bool true) h = omega arith
  trit_operand-IsTrit op (bool false) h = omega arith
  trit_operand-IsTrit op (res tag p msg) h = h.0
  trit_operand-IsTrit op _ h = tt

  pub word_operand-IsWord : (op : Bin) (v : Val) → IsVal m v → IsOk IsWord (word_operand op v)
  unfolding IsVal word_operand
  word_operand-IsWord op (int n) h = h
  word_operand-IsWord op _ h = tt

  typed-IsVal : (c : Bool) (a b : Val) (z : ℤ) → IsTrit z → IsVal m (typed c a b z)
  unfolding IsVal typed
  typed-IsVal true (bool _) (bool _) z h = tt
  typed-IsVal false (bool _) (bool _) z h = h
  typed-IsVal c (bool3 _) (bool3 _) z h = h
  typed-IsVal c (bool _) (bool3 _) z h = h
  typed-IsVal c (bool3 _) (bool _) z h = h
  typed-IsVal c _ _ z h = h

  three_valued-IsVal :
      (op : Bin) (a b : Val) → IsVal m a → IsVal m b → IsOk (IsVal m) (three_valued_apply op a b)
  unfolding three_valued_apply
  three_valued-IsVal op a b ha hb =
      bind-IsOk IsTrit (IsVal m) (trit_operand op a) _ (trit_operand-IsTrit op a ha) λ x hx.
        bind-IsOk IsTrit (IsVal m) (trit_operand op b) _ (trit_operand-IsTrit op b hb)
          λ y hy. typed-IsVal (closed op) a b _ (three_valued-IsTrit op x y hx hy)

  lane-IsVal : (op : Bin) (a b : Val) → IsVal m a → IsVal m b → IsOk (IsVal m) (lane_apply op a b)
  unfolding lane_apply IsVal
  lane-IsVal op a b ha hb =
      bind-IsOk IsWord (IsVal m) (word_operand op a) _ (word_operand-IsWord op a ha) λ x hx.
        bind-IsOk IsWord (IsVal m) (word_operand op b) _ (word_operand-IsWord op b hb)
          λ y hy. lane_op-IsWord op x y hx hy

  divide-IsVal : (lang : Lang) (op : Bin) (x y : ℤ) → IsWord x → IsOk (IsVal m) (divide lang op x y)
  unfolding divide IsVal
  divide-IsVal v1 Bin.div x y h = (quot-IsWord x y h).0
  divide-IsVal v2 Bin.div x y h = checked-IsVal _
  divide-IsVal v1 _ x y h = (quot-IsWord x y h).1
  divide-IsVal v2 _ x y h = checked-IsVal _

  if-IsOk :
      (b : Bool) (x y : Result Val)
      → IsOk (IsVal m) x
      → IsOk (IsVal m) y
      → IsOk (IsVal m) (if b then x else y)
  if-IsOk true x y h k = h
  if-IsOk false x y h k = k

  pub apply-IsVal :
      (lang : Lang) (op : Bin) (a b : Val)
      → IsVal m a
      → IsVal m b
      → IsOk (IsVal m) (apply lang op a b)
  unfolding apply IsVal
  apply-IsVal lang Bin.add a b ha hb = checked-IsVal _
  apply-IsVal lang Bin.sub a b ha hb = checked-IsVal _
  apply-IsVal lang Bin.mul a b ha hb = checked-IsVal _
  apply-IsVal lang Bin.div a b ha hb =
      let y = as_print_int b in
      if-IsOk (y ==ℤ pos 0) (trap (division_by_zero (as_print_int a)))
        (divide lang Bin.div (as_print_int a) y) tt
        (divide-IsVal lang Bin.div (as_print_int a) y (as_print_int-IsWord m a ha))
  apply-IsVal lang Bin.rem a b ha hb =
      let y = as_print_int b in
      if-IsOk (y ==ℤ pos 0) (trap (division_by_zero (as_print_int a)))
        (divide lang Bin.rem (as_print_int a) y) tt
        (divide-IsVal lang Bin.rem (as_print_int a) y (as_print_int-IsWord m a ha))
  apply-IsVal lang Bin.tandw a b ha hb = lane-IsVal Bin.tandw a b ha hb
  apply-IsVal lang Bin.torw a b ha hb = lane-IsVal Bin.torw a b ha hb
  apply-IsVal lang Bin.txorw a b ha hb = lane-IsVal Bin.txorw a b ha hb
  apply-IsVal lang Bin.timpw a b ha hb = lane-IsVal Bin.timpw a b ha hb
  apply-IsVal lang Bin.tcmpw a b ha hb = lane-IsVal Bin.tcmpw a b ha hb
  apply-IsVal lang Bin.tand a b ha hb = three_valued-IsVal Bin.tand a b ha hb
  apply-IsVal lang Bin.tor a b ha hb = three_valued-IsVal Bin.tor a b ha hb
  apply-IsVal lang Bin.txor a b ha hb = three_valued-IsVal Bin.txor a b ha hb
  apply-IsVal lang Bin.tcon a b ha hb = three_valued-IsVal Bin.tcon a b ha hb
  apply-IsVal lang Bin.tany a b ha hb = three_valued-IsVal Bin.tany a b ha hb
  apply-IsVal lang Bin.timp a b ha hb = three_valued-IsVal Bin.timp a b ha hb
  apply-IsVal lang Bin.teq a b ha hb = three_valued-IsVal Bin.teq a b ha hb
  apply-IsVal lang _ a b ha hb = tt
