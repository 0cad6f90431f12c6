-- ===== src/Ir/Dead/Simulation.antt =====
-- One round of dead code elimination of src/ir/optimize.rs beside the meaning of the program.
use mani_tc.Prelude.{
  ℕ, ◌≡◌, refl, ap, ap₂, true, false, Bool-cases, ◌||◌, Option, none, some, List, [], ◌∷◌, ◌++◌,
  map, append-nil, if◌then◌else◌, ◌==◌, inl, inr, arith, Option-cases,
}
use mani_tc.Prelude.Maps.{update}
use mani_tc.Ir.Types.{
  Value, temp, constant, global, void, Instr, bin_op, un_op, assign, alloca, store, load, call,
  call_indirect, get_ptr, bounds_check, trit_min, trit_max, trit_neg, trit_sign, trit_lane,
  print_str, print_int, print_float, print_bool3, print_trit, phi, cast,
}
use mani_tc.Ir.Operands.{
  used_from_value, used_from_values, used_from_incoming, used_in_instruction, is_side_effecting,
  instr_dst_name,
}
use mani_tc.Ir.Semantics.{
  Meaning, operands, defines, is_phi, bind, value, define, run_instrs, IsPure,
}
use mani_tc.Ir.Dead.{contains, used_in_instrs, defines_used, is_retained, retain}

abbrev pub Subset : List ℕ → List ℕ → Type 0
Subset xs ys = (t : ℕ) → contains t xs ≡ true → contains t ys ≡ true

pub contains-append :
    (t : ℕ) (xs ys : List ℕ) → contains t (xs ++ ys) ≡ (contains t xs || contains t ys)
unfolding contains
contains-append t [] ys = refl
contains-append t (x ∷ xs) ys = ground (arith, contains-append t xs ys)

pub Subset-append : (xs ys used : List ℕ) → Subset (xs ++ ys) used → Subset xs used × Subset ys used
Subset-append xs ys used h = (
  λ t p. h t (ground (arith, contains-append t xs ys)),
  λ t p. h t (ground (arith, contains-append t xs ys)),
)

incoming-operands :
    (ins : List (Value × ℕ)) → used_from_values (map (λ i. i.0) ins) ≡ used_from_incoming ins
unfolding used_from_incoming used_from_values
incoming-operands [] = refl
incoming-operands ((v, from) ∷ ins) = ap (λ l. used_from_value v ++ l) (incoming-operands ins)

one : (a : Value) → used_from_values (a ∷ []) ≡ used_from_value a
unfolding used_from_values
one a = append-nil _

two : (a b : Value) → used_from_values (a ∷ b ∷ []) ≡ used_from_value a ++ used_from_value b
unfolding used_from_values
two a b = ap (λ l. used_from_value a ++ l) (append-nil _)

pub used-operands : (i : Instr) → used_from_values (operands i) ≡ used_in_instruction i
unfolding used_in_instruction operands
used-operands (bin_op d op l r ty) = two l r
used-operands (un_op d op a ty) = one a
used-operands (assign d s ty) = one s
used-operands (alloca d ty) = unfold used_from_values in refl
used-operands (store p v ty) = two p v
used-operands (load d p ty) = one p
used-operands (call d fn args ty) = refl
used-operands (call_indirect d p args ty) = unfold used_from_values in refl
used-operands (get_ptr d p i ty) = two p i
used-operands (bounds_check i n) = one i
used-operands (trit_min d a b) = two a b
used-operands (trit_max d a b) = two a b
used-operands (trit_neg d a) = one a
used-operands (trit_sign d a) = one a
used-operands (trit_lane d op a b) = two a b
used-operands (print_str v) = one v
used-operands (print_int v) = one v
used-operands (print_float v) = one v
used-operands (print_bool3 v) = one v
used-operands (print_trit v) = one v
used-operands (phi d ty ins) = incoming-operands ins
used-operands (cast d s from to) = one s

-- An instruction that is dropped has no side effects, and defines a temp that nothing reads.
dropped-defines :
    (used : List ℕ) (i : Instr)
    → is_retained used i ≡ false
    → (is_side_effecting i ≡ false) × ((d : ℕ) × (defines i ≡ some d) × (contains d used ≡ false))
unfolding is_retained is_side_effecting instr_dst_name defines_used defines
dropped-defines used (bin_op d op l r ty) h = (refl, (d, refl, h))
dropped-defines used (un_op d op a ty) h = (refl, (d, refl, h))
dropped-defines used (assign d s ty) h = (refl, (d, refl, h))
dropped-defines used (alloca d ty) h = (refl, (d, refl, h))
dropped-defines used (load d p ty) h = (refl, (d, refl, h))
dropped-defines used (get_ptr d p i ty) h = (refl, (d, refl, h))
dropped-defines used (trit_min d a b) h = (refl, (d, refl, h))
dropped-defines used (trit_max d a b) h = (refl, (d, refl, h))
dropped-defines used (trit_neg d a) h = (refl, (d, refl, h))
dropped-defines used (trit_sign d a) h = (refl, (d, refl, h))
dropped-defines used (trit_lane d op a b) h = (refl, (d, refl, h))
dropped-defines used (phi d ty ins) h = (refl, (d, refl, h))
dropped-defines used (cast d s from to) h = (refl, (d, refl, h))
dropped-defines used (store p v ty) h = ground arith
dropped-defines used (call d fn args ty) h = ground arith
dropped-defines used (call_indirect d p args ty) h = ground arith
dropped-defines used (bounds_check i n) h = ground arith
dropped-defines used (print_str v) h = ground arith
dropped-defines used (print_int v) h = ground arith
dropped-defines used (print_float v) h = ground arith
dropped-defines used (print_bool3 v) h = ground arith
dropped-defines used (print_trit v) h = ground arith

module _ {V W : Type 0} (m : Meaning V W) (used : List ℕ) where
  -- Two environments that a program cannot tell apart.
  abbrev pub Agree : (ℕ → V) → (ℕ → V) → Type 0
  Agree ρ σ = (t : ℕ) → contains t used ≡ true → ρ t ≡ σ t

  pub value-Agree :
      (ρ σ : ℕ → V) (v : Value)
      → Agree ρ σ
      → Subset (used_from_value v) used
      → value m ρ v ≡ value m σ v
  unfolding value used_from_value contains
  value-Agree ρ σ (temp t) h s = h t (s t (ground arith))
  value-Agree ρ σ (constant c) h s = refl
  value-Agree ρ σ (global g) h s = refl
  value-Agree ρ σ void h s = refl

  values-Agree :
      (ρ σ : ℕ → V) (vs : List Value)
      → Agree ρ σ
      → Subset (used_from_values vs) used
      → map (value m ρ) vs ≡ map (value m σ) vs
  unfolding used_from_values
  values-Agree ρ σ [] h s = refl
  values-Agree ρ σ (v ∷ vs) h s =
      let (sv, ss) = Subset-append (used_from_value v) (used_from_values vs) used s in
      ap₂ (λ x xs. x ∷ xs) (value-Agree ρ σ v h sv) (values-Agree ρ σ vs h ss)

  operands-Agree :
      (ρ σ : ℕ → V) (i : Instr)
      → Agree ρ σ
      → Subset (used_in_instruction i) used
      → map (value m ρ) (operands i) ≡ map (value m σ) (operands i)
  operands-Agree ρ σ i h s = values-Agree ρ σ (operands i) h (rw (used-operands i) s)

  reads-Agree :
      (start first ρ σ : ℕ → V) (i : Instr)
      → Agree start first
      → Agree ρ σ
      → Subset (used_in_instruction i) used
      → map (value m (if is_phi i then start else ρ)) (operands i)
        ≡ map (value m (if is_phi i then first else σ)) (operands i)
  reads-Agree start first ρ σ i a b s = elim (Bool-cases (is_phi i)) [
    | inl p ↦ rw p (operands-Agree start first i a s)
    | inr p ↦ rw p (operands-Agree ρ σ i b s)
  ]

  update-Agree : (d : ℕ) (v : V) (ρ σ : ℕ → V) (t : ℕ) → ρ t ≡ σ t → update ρ d v t ≡ update σ d v t
  unfolding update
  update-Agree d v ρ σ t e = elim (Bool-cases (d == t)) [ inl p ↦ rw p refl | inr p ↦ rw p e ]

  define-Agree :
      (d : Option ℕ) (v : V) (ρ σ : ℕ → V) → Agree ρ σ → Agree (define m d v ρ) (define m d v σ)
  define-Agree none v ρ σ h = h
  define-Agree (some d) v ρ σ h = λ t p. update-Agree d v ρ σ t (h t p)

  unused-Agree :
      (d : ℕ) (v : V) (ρ σ : ℕ → V) → contains d used ≡ false → Agree ρ σ → Agree (update ρ d v) σ
  unfolding update
  unused-Agree d v ρ σ u h t p = elim (Bool-cases (d == t)) [
    | inl q ↦ ground arith
    | inr q ↦ rw q (h t p)
  ]

  -- The shorter list runs to the end as well, in the same world.
  abbrev pub Follows : Option ((ℕ → V) × W) → Option ((ℕ → V) × W) → Type 0
  Follows none o = Unit
  Follows (some (ρ, w)) none = ⊥
  Follows (some (ρ, w)) (some (σ, x)) = Agree ρ σ × (w ≡ x)

  module _ (from : ℕ) (i : Instr) (vs : List V) (w : W) (ρ σ : ℕ → V) (b : Agree ρ σ) where
    kept-Follows :
        (k j : (ℕ → V) → W → Option ((ℕ → V) × W)) (us : List V)
        → vs ≡ us
        → ((ρ σ : ℕ → V) (w : W) → Agree ρ σ → Follows (k ρ w) (j σ w))
        → Follows
            (bind (m.effect i vs w) λ x. k (define m (defines i) (m.result i from vs w) ρ) x)
            (bind (m.effect i us w) λ x. j (define m (defines i) (m.result i from us w) σ) x)
    kept-Follows k j us e ih = elim (Option-cases (m.effect i us w)) [
      | inl p ↦ rw (e, p) tt
      | inr (x, p) ↦ rw (e, p) (ih _ _ x (define-Agree (defines i) (m.result i from us w) ρ σ b))
    ]

    dropped-Follows :
        (k : (ℕ → V) → W → Option ((ℕ → V) × W)) (o : Option ((ℕ → V) × W))
        → IsPure m
        → is_retained used i ≡ false
        → ((ρ : ℕ → V) → Agree ρ σ → Follows (k ρ w) o)
        → Follows
            (bind (m.effect i vs w) λ x. k (define m (defines i) (m.result i from vs w) ρ) x)
            o
    dropped-Follows k o pure h ih =
        let (quiet, (d, is_d, unused)) = dropped-defines used i h in
        elim (Option-cases (m.effect i vs w)) [
          | inl p ↦ rw p tt
          | inr (x, p) ↦
              rw (p, pure i vs w x quiet p, is_d)
                (ih _ (unused-Agree d (m.result i from vs w) ρ σ unused b))
        ]

  pub retain-Follows :
      (pure : IsPure m) (from : ℕ) (start first : ℕ → V) (is : List Instr) (ρ σ : ℕ → V) (w : W)
      → Agree start first
      → Agree ρ σ
      → Subset (used_in_instrs is) used
      → Follows (run_instrs m from start is ρ w) (run_instrs m from first (retain used is) σ w)
  unfolding run_instrs retain
  retain-Follows pure from start first [] ρ σ w a b s = (b, refl)
  retain-Follows pure from start first (i ∷ is) ρ σ w a b s =
      let (si, ss) =
        Subset-append (used_in_instruction i) (used_in_instrs is) used
          (unfold used_in_instrs in s) in
      let ih : (ρ σ : ℕ → V) (w : W)
          → Agree ρ σ
          → Follows (run_instrs m from start is ρ w)
              (run_instrs m from first (retain used is) σ w) =
        λ ρ σ w b. retain-Follows pure from start first is ρ σ w a b ss in
      elim (Bool-cases (is_retained used i)) [
        | inl p ↦
            rw p (kept-Follows from i _ w ρ σ b _ _ _ (reads-Agree start first ρ σ i a b si) ih)
        | inr p ↦ rw p (
            dropped-Follows from i _ w ρ σ b (run_instrs m from start is)
              (run_instrs m from first (retain used is) σ w) pure p λ τ c. ih τ σ w c)
      ]
