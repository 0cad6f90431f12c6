-- ===== src/Ir/Strength/Identities.antt =====
-- The algebraic identities of strength reduction in src/ir/optimize.rs beside constant folding.
use mani_tc.Prelude.{◌≡◌, sym, ap, ◌∙◌, ◌⊎◌, true, Bool-cases, some, inl, inr, arith}
use mani_tc.Prelude.Int.{
  ℤ, pos, ◌+ℤ◌, ◌-ℤ◌, ◌*ℤ◌, ==ℤ_iff, +ℤ_parts, -ℤ_parts, *ℤ_parts, eq_of_parts,
}
use mani_tc.Lang.{wrap64}
use mani_tc.Lang.Wrap.{IsI64, wrap64_id}
use mani_tc.Ir.BinOp.{BinOp}
use mani_tc.Ir.Types.{int, float, bool, trit, str, null, Value, temp, constant, global, void}
use mani_tc.Ir.Fold.{fold_int_binop}
use mani_tc.Ir.Strength.{is_int, identity}

wrapped : (x y : ℤ) → IsI64 y → x ≡ y → some (int (wrap64 x)) ≡ some (int y)
wrapped x y h e = ap (λ z. some (int z)) (ap wrap64 e ∙ wrap64_id y h)

times_zero : (x y : ℤ) → (x ≡ pos 0) ⊎ (y ≡ pos 0) → x *ℤ y ≡ pos 0
times_zero x y h = eq_of_parts _ _ (ground (arith, *ℤ_parts x y))

times_one : (x : ℤ) → (x *ℤ pos 1 ≡ x) × (pos 1 *ℤ x ≡ x)
times_one x = (
  eq_of_parts _ _ (omega (arith, *ℤ_parts x (pos 1))),
  eq_of_parts _ _ (omega (arith, *ℤ_parts (pos 1) x)),
)

plus_zero : (x : ℤ) → (x +ℤ pos 0 ≡ x) × (pos 0 +ℤ x ≡ x) × (x -ℤ pos 0 ≡ x)
plus_zero x = (
  eq_of_parts _ _ (omega (arith, +ℤ_parts x (pos 0))),
  eq_of_parts _ _ (omega (arith, +ℤ_parts (pos 0) x)),
  eq_of_parts _ _ (omega (arith, -ℤ_parts x (pos 0))),
)

module _ (ev : Value → ℤ) (literal : (n : ℤ) → ev (constant (int n)) ≡ n) where
  is_int-eq : (n : ℤ) (v : Value) → is_int n v ≡ true → ev v ≡ n
  unfolding is_int
  is_int-eq n (constant (int x)) h = literal x ∙ (==ℤ_iff x n).0 h
  is_int-eq n (constant (float x)) h = ground arith
  is_int-eq n (constant (bool x)) h = ground arith
  is_int-eq n (constant (trit x)) h = ground arith
  is_int-eq n (constant (str x)) h = ground arith
  is_int-eq n (constant null) h = ground arith
  is_int-eq n (temp t) h = ground arith
  is_int-eq n (global g) h = ground arith
  is_int-eq n void h = ground arith

  done :
      (x : ℤ) (u v : Value)
      → IsI64 (ev u)
      → u ≡ v
      → x ≡ ev u
      → some (int (wrap64 x)) ≡ some (int (ev v))
  done x u v h e f = wrapped x (ev u) h f ∙ ap (λ u. some (int (ev u))) e

  is_zero : IsI64 (ev (constant (int (pos 0))))
  is_zero = rw (literal (pos 0)) (omega arith)

  -- Where operands have 64-bit values and a constant its own, the value that an identity puts in
  -- the place of an operation is the one that folding the operation on their values gives.
  pub identity-fold :
      (op : BinOp) (l r v : Value)
      → IsI64 (ev l)
      → IsI64 (ev r)
      → identity op l r ≡ some v
      → fold_int_binop op (ev l) (ev r) ≡ some (int (ev v))
  unfolding identity fold_int_binop
  identity-fold BinOp.mul l r v il ir h = elim (Bool-cases (is_int (pos 0) r)) [
    | inl p ↦
        done _ (constant (int (pos 0))) v is_zero (ground arith)
          (times_zero (ev l) (ev r) (inr (is_int-eq (pos 0) r p)) ∙ sym (literal (pos 0)))
    | inr p ↦ elim (Bool-cases (is_int (pos 0) l)) [
      | inl q ↦
          done _ (constant (int (pos 0))) v is_zero (ground arith)
            (times_zero (ev l) (ev r) (inl (is_int-eq (pos 0) l q)) ∙ sym (literal (pos 0)))
      | inr q ↦ elim (Bool-cases (is_int (pos 1) r)) [
        | inl k ↦
            done _ l v il (ground arith)
              (ap (λ y. ev l *ℤ y) (is_int-eq (pos 1) r k) ∙ (times_one (ev l)).0)
        | inr k ↦ elim (Bool-cases (is_int (pos 1) l)) [
          | inl j ↦
              done _ r v ir (ground arith)
                (ap (λ x. x *ℤ ev r) (is_int-eq (pos 1) l j) ∙ (times_one (ev r)).1)
          | inr j ↦ ground arith
        ]
      ]
    ]
  ]
  identity-fold BinOp.add l r v il ir h = elim (Bool-cases (is_int (pos 0) r)) [
    | inl p ↦
        done _ l v il (ground arith)
          (ap (λ y. ev l +ℤ y) (is_int-eq (pos 0) r p) ∙ (plus_zero (ev l)).0)
    | inr p ↦ elim (Bool-cases (is_int (pos 0) l)) [
      | inl q ↦
          done _ r v ir (ground arith)
            (ap (λ x. x +ℤ ev r) (is_int-eq (pos 0) l q) ∙ (plus_zero (ev r)).1)
      | inr q ↦ ground arith
    ]
  ]
  identity-fold BinOp.sub l r v il ir h = elim (Bool-cases (is_int (pos 0) r)) [
    | inl p ↦
        done _ l v il (ground arith)
          (ap (λ y. ev l -ℤ y) (is_int-eq (pos 0) r p) ∙ (plus_zero (ev l)).2)
    | inr p ↦ ground arith
  ]
  identity-fold _ l r v il ir h = ground arith
