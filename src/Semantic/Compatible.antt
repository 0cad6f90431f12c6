-- ===== src/Semantic/Compatible.antt =====
-- The relation `types_compatible` of src/semantic/types.rs.
use mani_tc.Prelude.{
  ℕ, ◌≡◌, refl, ap, ap₂, Bool, true, ◌&&◌, ◌||◌, not, Option, none, some, List, [], ◌∷◌, ◌==◌,
  arith,
}
use mani_tc.Bytes.{same_bytes}
use mani_tc.Semantic.Types.{
  ManiType, ManiTypes, nil, cons, same_length, same_type, same_types, lengths_agree, at_once,
  is_known, is_numeric, same_unqualified, ends_with, parts_compatible, zip_compatible,
  types_compatible, size,
}
use mani_tc.Semantic.Types

and_comm : (a b : Bool) → (a && b) ≡ (b && a)
and_comm a b = ground arith

or_comm : (a b : Bool) → (a || b) ≡ (b || a)
or_comm a b = ground arith

==_comm : (m n : ℕ) → (m == n) ≡ (n == m)
==_comm m n = ground arith

==_same : (n : ℕ) → (n == n) ≡ true
==_same n = ground arith

same_bytes_comm : (s t : List ℕ) → same_bytes s t ≡ same_bytes t s
unfolding same_bytes
same_bytes_comm [] [] = refl
same_bytes_comm [] (_ ∷ _) = refl
same_bytes_comm (_ ∷ _) [] = refl
same_bytes_comm (a ∷ s) (b ∷ t) = ap₂ ◌&&◌ (==_comm a b) (same_bytes_comm s t)

same_bytes_same : (s : List ℕ) → same_bytes s s ≡ true
unfolding same_bytes
same_bytes_same [] = refl
same_bytes_same (a ∷ s) = rw (==_same a, same_bytes_same s) refl

same_length_comm : (m n : Option ℕ) → same_length m n ≡ same_length n m
unfolding same_length
same_length_comm none none = refl
same_length_comm none (some _) = refl
same_length_comm (some _) none = refl
same_length_comm (some m) (some n) = ==_comm m n

same_length_same : (m : Option ℕ) → same_length m m ≡ true
unfolding same_length
same_length_same none = refl
same_length_same (some m) = ==_same m

lengths_agree_comm : (m n : Option ℕ) → lengths_agree m n ≡ lengths_agree n m
unfolding lengths_agree
lengths_agree_comm none none = refl
lengths_agree_comm none (some _) = refl
lengths_agree_comm (some _) none = refl
lengths_agree_comm (some m) (some n) = ==_comm m n

mutual
  unfolding same_type

  same_type_comm : (a b : ManiType) → same_type a b ≡ same_type b a
  same_type_comm Types.int Types.int = refl
  same_type_comm Types.float Types.float = refl
  same_type_comm Types.bool Types.bool = refl
  same_type_comm Types.bool3 Types.bool3 = refl
  same_type_comm Types.trit Types.trit = refl
  same_type_comm Types.tfloat Types.tfloat = refl
  same_type_comm Types.str Types.str = refl
  same_type_comm Types.char Types.char = refl
  same_type_comm Types.void Types.void = refl
  same_type_comm Types.unknown Types.unknown = refl
  same_type_comm (Types.tn v) (Types.tn w) = ==_comm v w
  same_type_comm (Types.array a m) (Types.array b n) =
      ap₂ ◌&&◌ (same_type_comm a b) (same_length_comm m n)
  same_type_comm (Types.tuple a) (Types.tuple b) = same_types_comm a b
  same_type_comm (Types.struct m a) (Types.struct n b) =
      ap₂ ◌&&◌ (same_bytes_comm m n) (same_types_comm a b)
  same_type_comm (Types.enum m) (Types.enum n) = same_bytes_comm m n
  same_type_comm (Types.func a r) (Types.func b s) =
      ap₂ ◌&&◌ (same_types_comm a b) (same_type_comm r s)
  same_type_comm (Types.generic m a) (Types.generic n b) =
      ap₂ ◌&&◌ (same_bytes_comm m n) (same_types_comm a b)
  same_type_comm _ _ = refl

  same_types_comm : (a b : ManiTypes) → same_types a b ≡ same_types b a
  same_types_comm nil nil = refl
  same_types_comm nil (cons _ _) = refl
  same_types_comm (cons _ _) nil = refl
  same_types_comm (cons a rest) (cons b others) =
      ap₂ ◌&&◌ (same_type_comm a b) (same_types_comm rest others)

mutual
  unfolding same_type

  same_type_same : (a : ManiType) → same_type a a ≡ true
  same_type_same (Types.tn v) = ==_same v
  same_type_same (Types.array a m) = rw (same_type_same a, same_length_same m) refl
  same_type_same (Types.tuple a) = same_types_same a
  same_type_same (Types.struct m a) = rw (same_bytes_same m, same_types_same a) refl
  same_type_same (Types.enum m) = same_bytes_same m
  same_type_same (Types.func a r) = rw (same_types_same a, same_type_same r) refl
  same_type_same (Types.generic m a) = rw (same_bytes_same m, same_types_same a) refl
  same_type_same _ = refl

  same_types_same : (a : ManiTypes) → same_types a a ≡ true
  same_types_same nil = refl
  same_types_same (cons a rest) = rw (same_type_same a, same_types_same rest) refl

at_once_comm : (a b : ManiType) → at_once a b ≡ at_once b a
unfolding at_once
at_once_comm a b = ap₂ ◌||◌ (same_type_comm a b) (
    ap₂ ◌||◌ (ap not (and_comm (is_known a) (is_known b))) (and_comm (is_numeric a) (is_numeric b)))

same_unqualified_comm : (x y : List ℕ) → same_unqualified x y ≡ same_unqualified y x
unfolding same_unqualified
same_unqualified_comm x y = or_comm (ends_with x (58 ∷ 58 ∷ y)) (ends_with y (58 ∷ 58 ∷ x))

mutual
  unfolding parts_compatible

  parts_comm : (a b : ManiType) → parts_compatible a b ≡ parts_compatible b a
  parts_comm Types.int Types.int = refl
  parts_comm Types.float Types.float = refl
  parts_comm Types.bool Types.bool = refl
  parts_comm Types.bool3 Types.bool3 = refl
  parts_comm Types.trit Types.trit = refl
  parts_comm Types.tfloat Types.tfloat = refl
  parts_comm Types.str Types.str = refl
  parts_comm Types.char Types.char = refl
  parts_comm Types.void Types.void = refl
  parts_comm Types.unknown Types.unknown = refl
  parts_comm (Types.tn _) (Types.tn _) = refl
  parts_comm (Types.array a m) (Types.array b n) =
      ap₂ ◌&&◌ (ap₂ ◌||◌ (at_once_comm a b) (parts_comm a b)) (lengths_agree_comm m n)
  parts_comm (Types.tuple a) (Types.tuple b) = ap₂ ◌&&◌ (==_comm (size a) (size b)) (zip_comm a b)
  parts_comm (Types.struct m a) (Types.struct n b) =
      ap₂ ◌||◌ (same_bytes_comm m n) (same_unqualified_comm m n)
  parts_comm (Types.enum m) (Types.enum n) = same_unqualified_comm m n
  parts_comm (Types.func a r) (Types.func b s) =
      ap₂ ◌&&◌ (ap₂ ◌&&◌ (==_comm (size a) (size b)) (zip_comm a b))
        (ap₂ ◌||◌ (at_once_comm r s) (parts_comm r s))
  parts_comm (Types.generic m a) (Types.generic n b) = ap₂ ◌&&◌ (same_bytes_comm m n) (zip_comm a b)
  parts_comm _ _ = refl

  zip_comm : (a b : ManiTypes) → zip_compatible a b ≡ zip_compatible b a
  zip_comm nil nil = refl
  zip_comm nil (cons _ _) = refl
  zip_comm (cons _ _) nil = refl
  zip_comm (cons a rest) (cons b others) =
      ap₂ ◌&&◌ (ap₂ ◌||◌ (at_once_comm a b) (parts_comm a b)) (zip_comm rest others)

reflexive : (a : ManiType) → (at_once a a || parts_compatible a a) ≡ true
unfolding at_once
reflexive a = rw (same_type_same a) refl

permissive : (a : ManiType) → (at_once Types.unknown a || parts_compatible Types.unknown a) ≡ true
unfolding at_once is_known
permissive a = ground arith

-- Compatibility of types is symmetric, and each type is compatible with itself and with the unknown
-- type.
pub types_compatible_lem :
    (a b : ManiType)
    → (types_compatible a b ≡ types_compatible b a)
      × (types_compatible a a ≡ true)
      × (types_compatible Types.unknown a ≡ true)
unfolding types_compatible
types_compatible_lem a b = (ap₂ ◌||◌ (at_once_comm a b) (parts_comm a b), reflexive a, permissive a)
