-- ===== src/Ir/Ty.antt =====
-- The types of src/ir/types.rs. A struct is named by a number.
use mani_tc.Prelude.{ℕ}

pub data Ty : Type 0 where
  i64 f64 i8 i16 i32 bool trit char void : Ty
  ptr : Ty → Ty
  array : Ty → ℕ → Ty
  struct : ℕ → Ty
