-- ===== src/Ir/TritIdentities.antt =====
-- The identities on trits of src/ir/optimize.rs.
pub mod Values
use mani_tc.Prelude.{
  ℕ, ◌+◌, ◌≤◌, ◌≡◌, refl, sym, ap, ◌∙◌, Bool, true, false, Bool-cases, Option, none, some,
  Option-cases, List, [], ◌∷◌, map, if◌then◌else◌, inl, inr, arith,
}
use mani_tc.Prelude.Int.{
  ℤ, pos, negsuc, pos_part, neg_part, neg_ℤ, min_ℤ, max_ℤ, ◌==ℤ◌, ==ℤ_iff, neg_ℤ_parts, eq_of_parts,
}
use mani_tc.Prelude.Maps.{lookup, insert}
use mani_tc.Isa.Word.{IsTrit}
use mani_tc.Ir.Ty
use mani_tc.Ir.Types.{
  Const, int, float, bool, trit, str, null, Value, temp, constant, global, void, Instr, assign,
  trit_min, trit_max, trit_neg, Block, Function, with_instrs, with_blocks,
}

-- Which temp holds the negation of which.
unfoldable pub collect_tnot : Instr → List (ℕ × ℕ) → List (ℕ × ℕ)
collect_tnot (trit_neg d (temp s)) negations = insert d s negations
collect_tnot i negations = negations

unfoldable pub collect_tnots : List Instr → List (ℕ × ℕ) → List (ℕ × ℕ)
collect_tnots [] negations = negations
collect_tnots (i ∷ is) negations = collect_tnots is (collect_tnot i negations)

unfoldable pub tnot_map : List Block → List (ℕ × ℕ) → List (ℕ × ℕ)
tnot_map [] negations = negations
tnot_map (b ∷ bs) negations = tnot_map bs (collect_tnots b.instrs negations)

unfoldable pub is_trit : ℤ → Value → Bool
is_trit n (constant (trit v)) = v ==ℤ n
is_trit n v = false

abbrev pub restored : ℕ → Value → Option ℕ → Instr
restored d a none = trit_neg d a
restored d a (some original) = assign d (temp original) Ty.trit

unfoldable pub trit_identity : List (ℕ × ℕ) → Instr → Instr
trit_identity negations (trit_neg d (temp s)) = restored d (temp s) (lookup s negations)
trit_identity negations (trit_min d a b) =
    if is_trit (pos 1) b
    then assign d a Ty.trit
    else if is_trit (pos 1) a
    then assign d b Ty.trit
    else if is_trit (negsuc 0) b
    then assign d (constant (trit (negsuc 0))) Ty.trit
    else if is_trit (negsuc 0) a
    then assign d (constant (trit (negsuc 0))) Ty.trit
    else trit_min d a b
trit_identity negations (trit_max d a b) =
    if is_trit (negsuc 0) b
    then assign d a Ty.trit
    else if is_trit (negsuc 0) a
    then assign d b Ty.trit
    else if is_trit (pos 1) b
    then assign d (constant (trit (pos 1))) Ty.trit
    else if is_trit (pos 1) a
    then assign d (constant (trit (pos 1))) Ty.trit
    else trit_max d a b
trit_identity negations i = i

unfoldable pub trit_identities : Function → Function
trit_identities f = with_blocks (map (with_instrs (map (trit_identity (tnot_map f.blocks []))))) f
