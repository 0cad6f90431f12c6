-- ===== src/Ir/TritIdentities/Values.antt =====
-- The identities on trits of src/ir/optimize.rs and the values that they keep.
use mani_tc.Prelude.{
  ℕ, ◌≡◌, refl, sym, subst, ap, ◌∙◌, true, Option, none, some, Option-cases, List, inl, inr, arith,
}
use mani_tc.Prelude.Int.{ℤ, pos, negsuc, neg_ℤ, min_ℤ, max_ℤ, ==ℤ_iff, neg_ℤ_parts, eq_of_parts}
use mani_tc.Prelude.Maps.{lookup}
use mani_tc.Isa.Word.{IsTrit}
use mani_tc.Ir.Types.{
  int, float, bool, trit, str, null, Value, temp, constant, global, void, Instr, assign, trit_min,
  trit_max, trit_neg,
}
use mani_tc.Ir.TritIdentities.{is_trit, trit_identity}

module _ (ev : Value → ℤ) where
  -- The value that an instruction on trits or an assignment gives.
  abbrev pub trit_result : Instr → Option ℤ
  trit_result (assign d v ty) = some (ev v)
  trit_result (trit_min d a b) = some (min_ℤ (ev a) (ev b))
  trit_result (trit_max d a b) = some (max_ℤ (ev a) (ev b))
  trit_result (trit_neg d a) = some (neg_ℤ (ev a))
  trit_result i = none

  module _ (literal : (n : ℤ) → IsTrit n → ev (constant (trit n)) ≡ n)
      (trits : (v : Value) → IsTrit (ev v)) where
    is_trit-eq : (n : ℤ) (v : Value) → IsTrit n → is_trit n v ≡ true → ev v ≡ n
    unfolding is_trit
    is_trit-eq n (constant (trit x)) t h =
        let same = (==ℤ_iff x n).0 h in literal x (subst (λ y. IsTrit y) (sym same) t) ∙ same
    is_trit-eq n (constant (int x)) t h = ground arith
    is_trit-eq n (constant (float x)) t h = ground arith
    is_trit-eq n (constant (bool x)) t h = ground arith
    is_trit-eq n (constant (str x)) t h = ground arith
    is_trit-eq n (constant null) t h = ground arith
    is_trit-eq n (temp u) t h = ground arith
    is_trit-eq n (global g) t h = ground arith
    is_trit-eq n void t h = ground arith

    min-identity :
        (d : ℕ) (a b : Value) (negations : List (ℕ × ℕ))
        → trit_result (trit_identity negations (trit_min d a b)) ≡ trit_result (trit_min d a b)
    unfolding trit_identity min_ℤ
    min-identity d a b negations = ground (
      arith,
      is_trit-eq (pos 1) a (omega arith),
      is_trit-eq (pos 1) b (omega arith),
      is_trit-eq (negsuc 0) a (omega arith),
      is_trit-eq (negsuc 0) b (omega arith),
      trits a,
      trits b,
      literal (negsuc 0) (omega arith),
    )

    max-identity :
        (d : ℕ) (a b : Value) (negations : List (ℕ × ℕ))
        → trit_result (trit_identity negations (trit_max d a b)) ≡ trit_result (trit_max d a b)
    unfolding trit_identity max_ℤ
    max-identity d a b negations = ground (
      arith,
      is_trit-eq (pos 1) a (omega arith),
      is_trit-eq (pos 1) b (omega arith),
      is_trit-eq (negsuc 0) a (omega arith),
      is_trit-eq (negsuc 0) b (omega arith),
      trits a,
      trits b,
      literal (pos 1) (omega arith),
    )

    negated_twice : (x : ℤ) → neg_ℤ (neg_ℤ x) ≡ x
    negated_twice x = eq_of_parts _ _ (omega (arith, neg_ℤ_parts x, neg_ℤ_parts (neg_ℤ x)))

    -- Where a constant that is a trit has its own value, every operand is a trit, and the map has the temps
    -- that hold the negation of another, an identity keeps the value of every minimum, maximum,
    -- negation and assignment.
    pub trit_identity-result :
        (negations : List (ℕ × ℕ)) (i : Instr)
        → ((t s : ℕ) → lookup t negations ≡ some s → ev (temp t) ≡ neg_ℤ (ev (temp s)))
        → trit_result (trit_identity negations i) ≡ trit_result i
    unfolding trit_identity
    trit_identity-result negations (trit_neg d (temp s)) right =
        elim (Option-cases (lookup s negations)) [
          | inl p ↦ rw p refl
          | inr (o, p) ↦
              rw p (ap (λ x. some x) (sym (ap neg_ℤ (right s o p) ∙ negated_twice (ev (temp o)))))
        ]
    trit_identity-result negations (trit_min d a b) right =
        unfold trit_identity in min-identity d a b negations
    trit_identity-result negations (trit_max d a b) right =
        unfold trit_identity in max-identity d a b negations
    trit_identity-result negations _ right = refl
