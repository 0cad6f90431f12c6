-- ===== src/Reference/Cast.antt =====
-- The casts of src/reference/eval.rs.
use mani_tc.Prelude.{◌≡◌, refl, ap, not, Bool, true, false, if◌then◌else◌, arith}
use mani_tc.Prelude.Int.{ℤ, pos, negsuc, clamp, ◌==ℤ◌}
use mani_tc.Reference.Ty.{Ty}
use mani_tc.Reference.Ops.{Val, int, trit, bool3, bool, as_print_int}

unfoldable pub cast : Val → Ty → Val
cast v Ty.int = int (as_print_int v)
cast v Ty.trit = trit (clamp (negsuc 0) (pos 1) (as_print_int v))
cast v Ty.bool3 = bool3 (clamp (negsuc 0) (pos 1) (as_print_int v))
cast v Ty.bool = bool (not (as_print_int v ==ℤ pos 0))
cast v Ty.void = int (pos 0)
cast v _ = v

unfoldable pub coerce_decl : Val → Ty → Val
coerce_decl v Ty.void = v
coerce_decl v t = cast v t

unfoldable pub reshape : Val → Val → Val
reshape v (int _) = cast v Ty.int
reshape v (trit _) = cast v Ty.trit
reshape v (bool3 _) = cast v Ty.bool3
reshape v (bool _) = cast v Ty.bool
reshape v like = v

clamp_twice :
    (x : ℤ) → clamp (negsuc 0) (pos 1) (clamp (negsuc 0) (pos 1) x) ≡ clamp (negsuc 0) (pos 1) x
unfolding clamp
clamp_twice x = ground arith

test_twice : (b : Bool) → not ((if b then pos 1 else pos 0) ==ℤ pos 0) ≡ b
test_twice true = refl
test_twice false = refl

once : (v : Val) (t : Ty) → cast (cast v t) t ≡ cast v t
unfolding cast as_print_int
once v Ty.int = refl
once v Ty.trit = ap trit (clamp_twice (as_print_int v))
once v Ty.bool3 = ap bool3 (clamp_twice (as_print_int v))
once v Ty.bool = ap bool (test_twice (not (as_print_int v ==ℤ pos 0)))
once v _ = refl

declared : (v : Val) (t : Ty) → coerce_decl (coerce_decl v t) t ≡ coerce_decl v t
unfolding coerce_decl
declared v Ty.void = refl
declared v Ty.int = once v Ty.int
declared v Ty.trit = once v Ty.trit
declared v Ty.bool3 = once v Ty.bool3
declared v Ty.bool = once v Ty.bool
declared v Ty.str = once v Ty.str
declared v Ty.chan = once v Ty.chan
declared v (Ty.result t) = once v (Ty.result t)

reshape_twice : (v like : Val) → reshape (reshape v like) like ≡ reshape v like
unfolding reshape
reshape_twice v (int _) = once v Ty.int
reshape_twice v (trit _) = once v Ty.trit
reshape_twice v (bool3 _) = once v Ty.bool3
reshape_twice v (bool _) = once v Ty.bool
reshape_twice v _ = refl

-- A second cast to the same type changes nothing, nor does a second declaration of it, nor a second
-- assignment to the same binding.
pub cast_twice :
    (v like : Val) (t : Ty)
    → (cast (cast v t) t ≡ cast v t)
      × (coerce_decl (coerce_decl v t) t ≡ coerce_decl v t)
      × (reshape (reshape v like) like ≡ reshape v like)
cast_twice v like t = (once v t, declared v t, reshape_twice v like)
