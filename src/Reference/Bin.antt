-- ===== src/Reference/Bin.antt =====
-- The binary operators of src/reference/ast.rs.
pub data Bin : Type 0 where
  add sub mul div rem : Bin
  eq ne lt gt le ge : Bin
  and_and or_or : Bin
  tand tor txor tcon tany timp teq : Bin
  tandw torw txorw timpw tcmpw : Bin
