-- ===== src/Ir/BinOp.antt =====
-- The binary operators of src/ir/types.rs.
pub data BinOp : Type 0 where
  add sub mul : BinOp
  add_t27 sub_t27 mul_t27 : BinOp
  div rem div_near rem_near : BinOp
  i_eq i_ne i_lt i_gt i_le i_ge : BinOp
  f_eq f_ne f_lt f_gt f_le f_ge : BinOp
  and or xor : BinOp
  l_shift r_shift : BinOp
  str_eq str_ne : BinOp
  t_shl t_shl_t27 t_shr : BinOp
