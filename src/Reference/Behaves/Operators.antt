-- ===== src/Reference/Behaves/Operators.antt =====
-- The unary operators of src/reference/eval.rs and their operands keep to the interface.
use mani_tc.Prelude.{ℕ, true, false, arith}
use mani_tc.Prelude.Int.{ℤ, neg_ℤ}
use mani_tc.Isa.Word.{IsWord, IsTrit}
use mani_tc.Reference.Ops.{Val, int, trit, bool3, bool, res, trit_operand, word_operand}
use mani_tc.Reference.Syntax.{Un, neg, tnot, tposs, tnec, tnotw}
use mani_tc.Reference.Comp.{done}
use mani_tc.Reference.Rules.{trit_of, word_of, negated, unary}
use mani_tc.Reference.Valid.{IsVal}
use mani_tc.Reference.Valid.Operators.{checked-IsVal}
use mani_tc.Reference.Behaves.{Behaves, Behaves-bind, Behaves-lift}

pub trit_of-Behaves : (n m : ℕ) (v : Val) → IsVal m v → Behaves (λ p t. IsTrit t) n m (trit_of v)
unfolding Behaves trit_of trit_operand IsVal
trit_of-Behaves n m (trit t) h = h
trit_of-Behaves n m (bool3 t) h = h
trit_of-Behaves n m (bool true) h = omega arith
trit_of-Behaves n m (bool false) h = omega arith
trit_of-Behaves n m (res tag p msg) h = h.0
trit_of-Behaves n m _ h = tt

word_of-Behaves : (n m : ℕ) (v : Val) → IsVal m v → Behaves (λ p t. IsWord t) n m (word_of v)
unfolding Behaves word_of word_operand IsVal
word_of-Behaves n m (int x) h = h
word_of-Behaves n m _ h = tt

neg_ℤ-IsTrit : (t : ℤ) → IsTrit t → IsTrit (neg_ℤ t)
unfolding neg_ℤ
neg_ℤ-IsTrit t h = ground arith

negated-IsVal : (m : ℕ) (v : Val) (t : ℤ) → IsTrit t → IsVal m (negated v t)
unfolding IsVal
negated-IsVal m (bool3 _) t h = neg_ℤ-IsTrit t h
negated-IsVal m _ t h = neg_ℤ-IsTrit t h

pub unary-Behaves : (n m : ℕ) (op : Un) (v : Val) → IsVal m v → Behaves IsVal n m (unary op v)
unfolding unary
unary-Behaves n m neg v h = Behaves-lift IsVal n m _ (checked-IsVal m _)
unary-Behaves n m tnot v h =
    Behaves-bind (λ p t. IsTrit t) IsVal n m (trit_of v) (λ t. done (negated v t))
      (trit_of-Behaves n m v h) (λ p t le q. unfold Behaves in negated-IsVal p v t q)
unary-Behaves n m tposs v h =
    Behaves-bind (λ p t. IsTrit t) IsVal n m (trit_of v) _ (trit_of-Behaves n m v h)
      (λ p t le q. unfold Behaves IsVal in tt)
unary-Behaves n m tnec v h =
    Behaves-bind (λ p t. IsTrit t) IsVal n m (trit_of v) _ (trit_of-Behaves n m v h)
      (λ p t le q. unfold Behaves IsVal in tt)
unary-Behaves n m tnotw v h =
    Behaves-bind (λ p t. IsWord t) IsVal n m (word_of v) _ (word_of-Behaves n m v h)
      (λ p t le q. Behaves-lift IsVal n p _ (checked-IsVal p _))
