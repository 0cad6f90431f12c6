-- ===== src/Ir/Tests.antt =====
-- The passes on concrete functions.
use mathlib.Core.Option.{some-injective}
use mani_tc.Prelude.{
  ℕ, suc, ◌<◌, ◌≡◌, refl, sym, ap, ap₂, ◌∙◌, Bool-cases, inl, inr, Bool, true, false, none, some,
  List, [], ◌∷◌, ◌++◌, map, ◌==◌, ==_iff, if◌then◌else◌, arith,
}
use mani_tc.Prelude.Int.{ℤ, pos, negsuc, ◌*ℤ◌, neg_ℤ, clamp}
use mani_tc.Prelude.Maps.{update, lookup}
use mani_tc.Isa.Opcode
use mani_tc.Isa.Word.{IsTrit}
use mani_tc.Emulator.State.{initial}
use mani_tc.Emulator.Execute.{exec_arith, exec_words}
use mani_tc.Reference.Bin.{Bin}
use mani_tc.Reference.Ops.{v1, v2, apply}
use mani_tc.Reference.Ops
use mani_tc.Ir.BinOp
use mani_tc.Ir.Ty
use mani_tc.Ir.Types.{
  Const, int, trit, Value, temp, constant, Instr, bin_op, assign, print_int, trit_min, return, jump,
  Block, Function,
}
use mani_tc.Ir.Operands.{
  for_each_operand_mut, is_side_effecting, used_in_instruction, used_from_values, instr_dst_name,
}
use mani_tc.Ir.Operands.Walks.{Rewrites, for_each_operand_mut-Rewrites}
use mani_tc.Ir.Semantics.{
  Meaning, returned, trapped, operands, defines, is_phi, value, run_instrs, find_block, leave,
  in_block, run, run_blocks, IsPure,
}
use mani_tc.Ir.Dead.{changed, collect_used_temps, dead_code_eliminate}
use mani_tc.Ir.Dead.Loop.{dead_code_eliminate-Refines}
use mani_tc.Ir.Reach.{index, dead_block_eliminate_func, targets, pushes, phi_labels}
use mani_tc.Ir.Reach.Worklist.{pending}
use mani_tc.Ir.Dead.{contains}
use mani_tc.Ir.Reach.Keep.{Distinct, dead_block_eliminate_func-run}
use mani_tc.Ir.Merge.{next_pair, run_func}
use mani_tc.Ir.Merge.Settles.{Keeps, run_func-Keeps}
use mani_tc.Ir.Propagate.{propagate_in_block}
use mani_tc.Ir.Propagate.Runs.{propagate_in_block-run}
use mani_tc.Ir.Fold.{fold_int_binop}
use mani_tc.Ir.Fold.Reference.{to_const, fold_int_binop-apply}
use mani_tc.Ir.Strength.{pow3_amount, is_int, identity}
use mani_tc.Ir.Strength.Powers.{pow3_amount_iff}
use mani_tc.Ir.Strength.Machine.{shifts-Same}
use mani_tc.Ir.Strength.Identities.{identity-fold}
use mani_tc.Ir.TritIdentities.{trit_identity}
use mani_tc.Ir.TritIdentities.Values.{trit_result, trit_identity-result}

-- A meaning: values are integers, the world is what was printed, the latest first.
unfoldable fixed_value : Value → ℤ
fixed_value (constant (int n)) = n
fixed_value (constant (trit n)) = n
fixed_value v = pos 0

unfoldable first_of : List ℤ → ℤ
first_of [] = pos 0
first_of (v ∷ vs) = v

unfoldable product_of : List ℤ → ℤ
product_of (a ∷ b ∷ []) = a *ℤ b
product_of vs = pos 0

unfoldable result_of : Instr → List ℤ → ℤ
result_of (bin_op d op l r ty) vs = product_of vs
result_of i vs = first_of vs

abbrev printing : Meaning ℤ (List ℤ)
printing = record {
  fixed = fixed_value;
  effect = λ i vs w. if is_side_effecting i then some (vs ++ w) else some w;
  result = λ i from vs w. result_of i vs;
  is_true = λ v. true;
  sign = λ v. v;
}

if_pure : (b : Bool) (x w y : List ℤ) → b ≡ false → (if b then some x else some w) ≡ some y → y ≡ w
if_pure true x w y p h = ground arith
if_pure false x w y p h = ground arith

printing-IsPure : IsPure printing
printing-IsPure i vs w x quiet e = if_pure (is_side_effecting i) (vs ++ w) w x quiet e

-- Temp 2 is never read; 3 is printed.
abbrev entry_block : Block
entry_block = record {
  label = 0;
  instrs =
      assign 1 (constant (int (pos 5))) Ty.i64
      ∷ bin_op 2 BinOp.mul (temp 1) (constant (int (pos 3))) Ty.i64
      ∷ print_int (temp 1)
      ∷ [];
  term = jump 7;
}

abbrev last_block : Block
last_block = record { label = 7; instrs = []; term = return (some (temp 1)) }

abbrev lost_block : Block
lost_block = record { label = 9; instrs = []; term = jump 7 }

abbrev sample : Function
sample = record {
  name = 0;
  params = [];
  ret_ty = Ty.i64;
  blocks = entry_block ∷ last_block ∷ lost_block ∷ [];
  is_extern = false;
}

abbrev start : ℕ → ℤ
start t = pos 5

sample_returns : run_blocks printing 4 sample.blocks start [] ≡ returned (some (pos 5)) (pos 5 ∷ [])
unfolding run_blocks run in_block find_block leave run_instrs value operands defines is_phi
    instr_dst_name is_side_effecting fixed_value first_of result_of product_of update
sample_returns = refl

sample_is_safe : ¬ (run_blocks printing 4 sample.blocks start [] ≡ trapped)
sample_is_safe p = let absurd = sym sample_returns ∙ p in ground arith

dead_code_eliminate-Refines_example :
    (g : Function) × (dead_code_eliminate 5 sample ≡ some g)
    × (changed (collect_used_temps g) g.blocks ≡ false)
    × (run_blocks printing 4 g.blocks start [] ≡ run_blocks printing 4 sample.blocks start [])
dead_code_eliminate-Refines_example =
    dead_code_eliminate-Refines printing printing-IsPure 4 start [] 5 sample (omega arith)
      sample_is_safe

sample-Distinct : Distinct sample.blocks
unfolding index
sample-Distinct = (refl, (refl, (refl, tt)))

sample_pending : suc (pending sample.blocks []) < 9
unfolding pending contains pushes targets phi_labels
sample_pending = omega arith

dead_block_eliminate_func-run_example :
    (kept : List Block) × (dead_block_eliminate_func 9 sample.blocks ≡ some kept)
    × (run_blocks printing 4 kept start [] ≡ run_blocks printing 4 sample.blocks start [])
dead_block_eliminate_func-run_example =
    dead_block_eliminate_func-run printing 9 4 sample.blocks start [] sample-Distinct sample_pending

run_func-Keeps_example :
    (merged : ℕ) × (out : List Block) × (run_func 3 (entry_block ∷ last_block ∷ [])
      ≡ some (merged, out))
    × (next_pair out ≡ none)
    × Keeps merged (entry_block ∷ last_block ∷ []) out
run_func-Keeps_example = run_func-Keeps 3 (entry_block ∷ last_block ∷ []) (omega arith)

printing-effect :
    (f : Value → Value) (i : Instr) (vs w : List ℤ)
    → printing.effect (for_each_operand_mut false f i) vs w ≡ printing.effect i vs w
printing-effect f i vs w =
    ap (λ b. if b then some (vs ++ w) else some w) (for_each_operand_mut-Rewrites false f i).0.3

printing-result :
    (f : Value → Value) (i : Instr) (vs : List ℤ)
    → result_of (for_each_operand_mut false f i) vs ≡ result_of i vs
unfolding result_of for_each_operand_mut
printing-result f (bin_op d op l r ty) vs = refl
printing-result f _ vs = refl

assigned_value : (d : ℕ) (v : Value) (ty : Ty.Ty) (x : ℤ) → result_of (assign d v ty) (x ∷ []) ≡ x
unfolding result_of first_of
assigned_value d v ty x = refl

-- The map of the sample says that temp 1 is 5.
abbrev known : List (ℕ × Const)
known = (1, int (pos 5)) ∷ []

known-entry : (t : ℕ) (c : Const) → lookup t known ≡ some c → (1 ≡ t) × (int (pos 5) ≡ c)
unfolding lookup
known-entry t c h = elim (Bool-cases (1 == t)) [
  | inl p ↦ (
    omega (arith, (==_iff 1 t).0 p),
    some-injective _ _ (sym (ap (λ b. if b then some (int (pos 5)) else none) p) ∙ h),
  )
  | inr p ↦ ground arith
]

known-value : (t : ℕ) (c : Const) → lookup t known ≡ some c → start t ≡ fixed_value (constant c)
unfolding fixed_value
known-value t c h = ap (λ c. fixed_value (constant c)) (known-entry t c h).1

known-defines :
    (t : ℕ) (c : Const)
    → defines (assign 1 (constant (int (pos 5))) Ty.i64) ≡ some t
    → lookup t known ≡ some c
    → (ty : Ty.Ty) × (assign 1 (constant (int (pos 5))) Ty.i64 ≡ assign t (constant c) ty)
known-defines t c d l =
    let (e, f) = known-entry t c l in (Ty.i64, ap₂ (λ t c. assign t (constant c) Ty.i64) e f)

another-defines :
    {P : Type 0} (i : Instr) (t : ℕ) (c : Const)
    → defines i ≡ some 2
    → defines i ≡ some t
    → lookup t known ≡ some c
    → P
another-defines i t c e d l =
    let two : 2 ≡ t = some-injective _ _ (sym e ∙ d) in
    let one = (known-entry t c l).0 in ground arith

print-defines : {P : Type 0} (v : Value) (t : ℕ) → defines (print_int v) ≡ some t → P
unfolding defines instr_dst_name
print-defines v t d = ground arith

two_defined : defines (bin_op 2 BinOp.mul (temp 1) (constant (int (pos 3))) Ty.i64) ≡ some 2
unfolding defines instr_dst_name
two_defined = refl

abbrev short : List Block
short = entry_block ∷ []

propagate_in_block-run_example :
    run_blocks printing 2 (map (propagate_in_block known) short) start []
    ≡ run_blocks printing 2 short start []
propagate_in_block-run_example =
    propagate_in_block-run printing known 2 short start []
      (
        λ f i from vs w. (printing-effect f i vs w, printing-result f i vs),
        λ d v ty from x w. assigned_value d v ty x,
      )
      (
        (
          known-defines,
          (
            λ t c d l.
                another-defines (bin_op 2 BinOp.mul (temp 1) (constant (int (pos 3))) Ty.i64) t c
                  two_defined d l,
            (λ t c d l. print-defines (temp 1) t d, tt),
          ),
        ),
        tt,
      )
      known-value

fold_int_binop-apply_example :
    (fold_int_binop BinOp.add_t27 (pos 7) (negsuc 1)
      ≡ to_const (apply v2 Bin.add (Ops.int (pos 7)) (Ops.int (negsuc 1))))
    × (fold_int_binop BinOp.sub_t27 (pos 7) (negsuc 1)
        ≡ to_const (apply v2 Bin.sub (Ops.int (pos 7)) (Ops.int (negsuc 1))))
    × (fold_int_binop BinOp.mul_t27 (pos 7) (negsuc 1)
        ≡ to_const (apply v2 Bin.mul (Ops.int (pos 7)) (Ops.int (negsuc 1))))
    × (fold_int_binop BinOp.div (pos 7) (negsuc 1)
        ≡ to_const (apply v1 Bin.div (Ops.int (pos 7)) (Ops.int (negsuc 1))))
    × (fold_int_binop BinOp.rem (pos 7) (negsuc 1)
        ≡ to_const (apply v1 Bin.rem (Ops.int (pos 7)) (Ops.int (negsuc 1))))
    × (fold_int_binop BinOp.div_near (pos 7) (negsuc 1)
        ≡ to_const (apply v2 Bin.div (Ops.int (pos 7)) (Ops.int (negsuc 1))))
    × (fold_int_binop BinOp.rem_near (pos 7) (negsuc 1)
        ≡ to_const (apply v2 Bin.rem (Ops.int (pos 7)) (Ops.int (negsuc 1))))
    × (fold_int_binop BinOp.i_eq (pos 7) (negsuc 1)
        ≡ to_const (apply v2 Bin.eq (Ops.int (pos 7)) (Ops.int (negsuc 1))))
    × (fold_int_binop BinOp.i_ne (pos 7) (negsuc 1)
        ≡ to_const (apply v2 Bin.ne (Ops.int (pos 7)) (Ops.int (negsuc 1))))
    × (fold_int_binop BinOp.i_lt (pos 7) (negsuc 1)
        ≡ to_const (apply v2 Bin.lt (Ops.int (pos 7)) (Ops.int (negsuc 1))))
    × (fold_int_binop BinOp.i_gt (pos 7) (negsuc 1)
        ≡ to_const (apply v2 Bin.gt (Ops.int (pos 7)) (Ops.int (negsuc 1))))
    × (fold_int_binop BinOp.i_le (pos 7) (negsuc 1)
        ≡ to_const (apply v2 Bin.le (Ops.int (pos 7)) (Ops.int (negsuc 1))))
    × (fold_int_binop BinOp.i_ge (pos 7) (negsuc 1)
        ≡ to_const (apply v2 Bin.ge (Ops.int (pos 7)) (Ops.int (negsuc 1))))
fold_int_binop-apply_example =
    fold_int_binop-apply (pos 7) (negsuc 1) (omega arith) (omega arith) v2

nine_amount : pow3_amount (pos 9) ≡ some 2
nine_amount = (pow3_amount_iff (pos 9) 2).1 (refl, omega arith, omega arith)

shifts-Same_example :
    (exec_words Opcode.tshi (pos 1) (negsuc 6) (pos 2) initial initial
      ≡ exec_arith Opcode.tmul (pos 1) (negsuc 6) (pos 9) initial initial)
    × (exec_words Opcode.tshr (pos 1) (negsuc 6) (pos 2) initial initial
        ≡ exec_arith Opcode.tdivn (pos 1) (negsuc 6) (pos 9) initial initial)
shifts-Same_example =
    shifts-Same (negsuc 6) (pos 9) 2 (pos 1) initial initial (omega arith) nine_amount

abbrev int_value : Value → ℤ
int_value (constant (int n)) = n
int_value v = pos 4

-- A constant that is no trit is brought to the next one.
unfoldable trit_value : Value → ℤ
trit_value (constant (trit n)) = clamp (negsuc 0) (pos 1) n
trit_value v = pos 0

trit_value-IsTrit : (v : Value) → IsTrit (trit_value v)
unfolding trit_value clamp
trit_value-IsTrit v = ground arith

trit_value_id : (n : ℤ) → IsTrit n → trit_value (constant (trit n)) ≡ n
unfolding trit_value clamp
trit_value_id n h = ground arith

times_one_found : identity BinOp.mul (temp 3) (constant (int (pos 1))) ≡ some (temp 3)
unfolding identity is_int
times_one_found = refl

identity-fold_example : fold_int_binop BinOp.mul (pos 4) (pos 1) ≡ some (int (pos 4))
identity-fold_example =
    identity-fold int_value (λ n. refl) BinOp.mul (temp 3) (constant (int (pos 1))) (temp 3)
      (omega arith) (omega arith) times_one_found

for_each_operand_mut-Rewrites_example :
    Rewrites true
      (λ v. temp 8)
      (print_int (temp 3))
      (for_each_operand_mut true (λ v. temp 8) (print_int (temp 3)))
    × (used_in_instruction (for_each_operand_mut true (λ v. temp 8) (print_int (temp 3)))
        ≡ used_from_values
            (operands (for_each_operand_mut true (λ v. temp 8) (print_int (temp 3)))))
for_each_operand_mut-Rewrites_example =
    for_each_operand_mut-Rewrites true (λ v. temp 8) (print_int (temp 3))

no_negation : (t s : ℕ) → lookup t [] ≡ some s → trit_value (temp t) ≡ neg_ℤ (trit_value (temp s))
unfolding lookup
no_negation t s h = ground arith

trit_identity-result_example :
    trit_result trit_value (trit_identity [] (trit_min 1 (temp 2) (constant (trit (pos 1)))))
    ≡ trit_result trit_value (trit_min 1 (temp 2) (constant (trit (pos 1))))
trit_identity-result_example =
    trit_identity-result trit_value trit_value_id trit_value-IsTrit []
      (trit_min 1 (temp 2) (constant (trit (pos 1)))) no_negation
