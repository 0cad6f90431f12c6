-- ===== src/Semantic/Types.antt =====
-- The types of src/semantic/types.rs and the questions about them. A name is a list of bytes.
use mani_tc.Prelude.{
  ℕ, ◌+◌, ◌-◌, Bool, true, false, ◌&&◌, ◌||◌, not, Option, none, some, List, ◌∷◌, length, leb, ◌==◌,
}
use mani_tc.Bytes.{same_bytes, drop}

mutual
  pub data ManiType : Type 0 where
    int float bool bool3 trit tfloat str char void unknown : ManiType
    tn : ℕ → ManiType
    array : ManiType → Option ℕ → ManiType
    tuple : ManiTypes → ManiType
    struct : List ℕ → ManiTypes → ManiType
    enum : List ℕ → ManiType
    func : ManiTypes → ManiType → ManiType
    generic : List ℕ → ManiTypes → ManiType

  pub data ManiTypes : Type 0 where
    nil : ManiTypes
    cons : ManiType → ManiTypes → ManiTypes

unfoldable pub is_ternary : ManiType → Bool
is_ternary trit = true
is_ternary (tn _) = true
is_ternary tfloat = true
is_ternary bool3 = true
is_ternary _ = false

unfoldable pub is_numeric : ManiType → Bool
is_numeric int = true
is_numeric float = true
is_numeric trit = true
is_numeric (tn _) = true
is_numeric tfloat = true
is_numeric _ = false

abbrev pub is_truth : ManiType → Bool
is_truth bool = true
is_truth bool3 = true
is_truth char = true
is_truth _ = false

unfoldable pub is_comparable : ManiType → Bool
is_comparable t = is_numeric t || is_truth t

unfoldable pub is_known : ManiType → Bool
is_known unknown = false
is_known _ = true

unfoldable mutual
  pub fully_known : ManiType → Bool
  fully_known unknown = false
  fully_known (array e _) = fully_known e
  fully_known (tuple ts) = all_known ts
  fully_known (generic _ args) = all_known args
  fully_known (func ps r) = all_known ps && fully_known r
  fully_known _ = true

  pub all_known : ManiTypes → Bool
  all_known nil = true
  all_known (cons t ts) = fully_known t && all_known ts

-- `==` on `Option<usize>`.
unfoldable pub same_length : Option ℕ → Option ℕ → Bool
same_length none none = true
same_length none (some _) = false
same_length (some _) none = false
same_length (some m) (some n) = m == n

-- The derived `==`.
unfoldable mutual
  pub same_type : ManiType → ManiType → Bool
  same_type int int = true
  same_type float float = true
  same_type bool bool = true
  same_type bool3 bool3 = true
  same_type trit trit = true
  same_type tfloat tfloat = true
  same_type str str = true
  same_type char char = true
  same_type void void = true
  same_type unknown unknown = true
  same_type (tn v) (tn w) = v == w
  same_type (array a m) (array b n) = same_type a b && same_length m n
  same_type (tuple a) (tuple b) = same_types a b
  same_type (struct m a) (struct n b) = same_bytes m n && same_types a b
  same_type (enum m) (enum n) = same_bytes m n
  same_type (func a r) (func b s) = same_types a b && same_type r s
  same_type (generic m a) (generic n b) = same_bytes m n && same_types a b
  same_type _ _ = false

  pub same_types : ManiTypes → ManiTypes → Bool
  same_types nil nil = true
  same_types nil (cons _ _) = false
  same_types (cons _ _) nil = false
  same_types (cons a rest) (cons b others) = same_type a b && same_types rest others

-- `s.ends_with(t)`.
unfoldable pub ends_with : List ℕ → List ℕ → Bool
ends_with s t = leb (length t) (length s) && same_bytes (drop (length s - length t) s) t

-- `x.ends_with(&format!("::{}", y)) || y.ends_with(&format!("::{}", x))`.
unfoldable pub same_unqualified : List ℕ → List ℕ → Bool
same_unqualified x y = ends_with x (58 ∷ 58 ∷ y) || ends_with y (58 ∷ 58 ∷ x)

unfoldable pub lengths_agree : Option ℕ → Option ℕ → Bool
lengths_agree none n = true
lengths_agree (some m) none = true
lengths_agree (some m) (some n) = m == n

abbrev pub size : ManiTypes → ℕ
size nil = 0
size (cons _ ts) = 1 + size ts

-- The tests of `types_compatible` before those on the parts of two types.
unfoldable pub at_once : ManiType → ManiType → Bool
at_once a b = same_type a b || (not (is_known a && is_known b) || (is_numeric a && is_numeric b))

unfoldable mutual
  -- The arms on two types of one form, and those on truth values.
  pub parts_compatible : ManiType → ManiType → Bool
  parts_compatible bool bool3 = true
  parts_compatible bool3 bool = true
  parts_compatible trit bool3 = true
  parts_compatible bool3 trit = true
  parts_compatible (array a m) (array b n) =
      (at_once a b || parts_compatible a b) && lengths_agree m n
  parts_compatible (tuple a) (tuple b) = (size a == size b) && zip_compatible a b
  parts_compatible (generic m a) (generic n b) = same_bytes m n && zip_compatible a b
  parts_compatible (func a r) (func b s) =
      ((size a == size b) && zip_compatible a b) && (at_once r s || parts_compatible r s)
  parts_compatible (struct m _) (struct n _) = same_bytes m n || same_unqualified m n
  parts_compatible (enum m) (enum n) = same_unqualified m n
  parts_compatible _ _ = false

  -- `all` on the pairs of `zip`, which ends with the shorter list.
  pub zip_compatible : ManiTypes → ManiTypes → Bool
  zip_compatible (cons a rest) (cons b others) =
      (at_once a b || parts_compatible a b) && zip_compatible rest others
  zip_compatible nil _ = true
  zip_compatible (cons _ _) nil = true

unfoldable pub types_compatible : ManiType → ManiType → Bool
types_compatible a b = at_once a b || parts_compatible a b
