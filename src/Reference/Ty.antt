-- ===== src/Reference/Ty.antt =====
-- The types of src/reference/ast.rs.
pub data Ty : Type 0 where
  int trit bool3 bool void str chan : Ty
  result : Ty → Ty
