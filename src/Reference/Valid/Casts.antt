-- ===== src/Reference/Valid/Casts.antt =====
-- The casts of src/reference/eval.rs on valid values.
use mani_tc.Prelude.{ℕ, true, false, arith}
use mani_tc.Prelude.Int.{ℤ, pos, negsuc, clamp}
use mani_tc.Isa.Word.{IsWord, IsTrit}
use mani_tc.Reference.Ty.{Ty}
use mani_tc.Reference.Ops.{Val, int, trit, bool3, bool, res, text, chan, as_print_int}
use mani_tc.Reference.Cast.{cast, coerce_decl, reshape}
use mani_tc.Reference.Valid.{IsVal}

-- A trit is in the range of a word.
trit-IsWord : (t : ℤ) → IsTrit t → IsWord t
trit-IsWord t h = ground arith

module _ (m : ℕ) where
  pub as_print_int-IsWord : (v : Val) → IsVal m v → IsWord (as_print_int v)
  unfolding IsVal as_print_int
  as_print_int-IsWord (int n) h = h
  as_print_int-IsWord (trit t) h = trit-IsWord t h
  as_print_int-IsWord (bool3 t) h = trit-IsWord t h
  as_print_int-IsWord (bool true) h = omega arith
  as_print_int-IsWord (bool false) h = omega arith
  as_print_int-IsWord (res tag p msg) h = trit-IsWord tag h.0
  as_print_int-IsWord (text s) h = omega arith
  as_print_int-IsWord (chan c) h = omega arith

  clamp-IsTrit : (n : ℤ) → IsTrit (clamp (negsuc 0) (pos 1) n)
  unfolding clamp
  clamp-IsTrit n = ground arith

  pub cast-IsVal : (v : Val) (ty : Ty) → IsVal m v → IsVal m (cast v ty)
  unfolding IsVal cast
  cast-IsVal v Ty.int h = as_print_int-IsWord v h
  cast-IsVal v Ty.trit h = clamp-IsTrit (as_print_int v)
  cast-IsVal v Ty.bool3 h = clamp-IsTrit (as_print_int v)
  cast-IsVal v Ty.bool h = tt
  cast-IsVal v Ty.void h = omega arith
  cast-IsVal v Ty.str h = h
  cast-IsVal v Ty.chan h = h
  cast-IsVal v (Ty.result t) h = h

  pub coerce_decl-IsVal : (v : Val) (ty : Ty) → IsVal m v → IsVal m (coerce_decl v ty)
  unfolding coerce_decl
  coerce_decl-IsVal v Ty.void h = h
  coerce_decl-IsVal v Ty.int h = cast-IsVal v Ty.int h
  coerce_decl-IsVal v Ty.trit h = cast-IsVal v Ty.trit h
  coerce_decl-IsVal v Ty.bool3 h = cast-IsVal v Ty.bool3 h
  coerce_decl-IsVal v Ty.bool h = cast-IsVal v Ty.bool h
  coerce_decl-IsVal v Ty.str h = cast-IsVal v Ty.str h
  coerce_decl-IsVal v Ty.chan h = cast-IsVal v Ty.chan h
  coerce_decl-IsVal v (Ty.result t) h = cast-IsVal v (Ty.result t) h

  pub reshape-IsVal : (v like : Val) → IsVal m v → IsVal m (reshape v like)
  unfolding reshape
  reshape-IsVal v (int n) h = cast-IsVal v Ty.int h
  reshape-IsVal v (trit t) h = cast-IsVal v Ty.trit h
  reshape-IsVal v (bool3 t) h = cast-IsVal v Ty.bool3 h
  reshape-IsVal v (bool b) h = cast-IsVal v Ty.bool h
  reshape-IsVal v (res tag p msg) h = h
  reshape-IsVal v (text s) h = h
  reshape-IsVal v (chan c) h = h
