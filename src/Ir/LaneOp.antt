-- ===== src/Ir/LaneOp.antt =====
-- The lane-wise operators of src/ir/types.rs.
pub data LaneOp : Type 0 where
  and or xor imp cmp popcount : LaneOp
