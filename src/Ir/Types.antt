-- ===== src/Ir/Types.antt =====
-- src/ir/types.rs: modules, functions, blocks, instructions and values. The names of temps,
-- blocks, functions, globals, strings and structs are numbers, since the passes only compare them;
-- a float is the number of its bits.
use mani_tc.Prelude.{ℕ, Bool, Option, List}
use mani_tc.Prelude.Int.{ℤ}
use mani_tc.Ir.BinOp.{BinOp}
use mani_tc.Ir.LaneOp.{LaneOp}
use mani_tc.Ir.Ty.{Ty}

pub data Const : Type 0 where
  int : ℤ → Const
  float : ℕ → Const
  bool : Bool → Const
  trit : ℤ → Const
  str : ℕ → Const
  null : Const

pub data Value : Type 0 where
  temp : ℕ → Value
  constant : Const → Value
  global : ℕ → Value
  void : Value

pub data UnOp : Type 0 where
  neg not_bool f_neg : UnOp

-- A destination comes first, then the fields in the order of the source.
pub data Instr : Type 0 where
  bin_op : ℕ → BinOp → Value → Value → Ty → Instr
  un_op : ℕ → UnOp → Value → Ty → Instr
  assign : ℕ → Value → Ty → Instr
  alloca : ℕ → Ty → Instr
  store : Value → Value → Ty → Instr
  load : ℕ → Value → Ty → Instr
  call : Option ℕ → ℕ → List Value → Ty → Instr
  call_indirect : Option ℕ → Value → List Value → Ty → Instr
  get_ptr : ℕ → Value → Value → Ty → Instr
  bounds_check : Value → ℕ → Instr
  trit_min trit_max : ℕ → Value → Value → Instr
  trit_neg trit_sign : ℕ → Value → Instr
  trit_lane : ℕ → LaneOp → Value → Value → Instr
  print_str print_int print_float print_bool3 print_trit : Value → Instr
  phi : ℕ → Ty → List (Value × ℕ) → Instr
  cast : ℕ → Value → Ty → Ty → Instr

pub data Terminator : Type 0 where
  return : Option Value → Terminator
  jump : ℕ → Terminator
  bin_branch : Value → ℕ → ℕ → Terminator
  trit_branch : Value → ℕ → ℕ → ℕ → Terminator
  unreachable : Terminator

pub record Block : Type 0 where
  pub label : ℕ
  pub instrs : List Instr
  pub term : Terminator

pub record Function : Type 0 where
  pub name : ℕ
  pub params : List (ℕ × Ty)
  pub ret_ty : Ty
  pub blocks : List Block
  pub is_extern : Bool

abbrev pub with_instrs : (List Instr → List Instr) → Block → Block
with_instrs f b = record b { instrs = f b.instrs }

abbrev pub with_blocks : (List Block → List Block) → Function → Function
with_blocks f fn = record fn { blocks = f fn.blocks }
