-- ===== src/Emulator/State.antt =====
-- The state of the machine: `Emulator` of src/codegen_t3/emulator/mod.rs with the scheduler's
-- configuration of sched.rs, and the operations that every instruction uses.
use mani_tc.Prelude.{
  ℕ, ◌+◌, ◌-◌, Bool, true, false, Option, none, some, List, [], ◌∷◌, ltb, ◌==◌, if◌then◌else◌,
}
use mani_tc.Prelude.Int.{ℤ, pos, negsuc}
use mani_tc.Prelude.Maps.{update, insert}
use mani_tc.Ordered.{OrderedMap, OrderedSet}

abbrev pub stack_base : ℕ
stack_base = 60000

abbrev pub heap_base : ℕ
heap_base = 63000

-- `v as usize` on an `i64`.
unfoldable pub as_usize : ℤ → ℕ
as_usize (pos n) = n
as_usize (negsuc n) = 18446744073709551615 - n

-- What the machine reports when it stops on a fault; the values are those of the message.
pub data Message : Type 0 where
  overflow_add overflow_sub overflow_mul overflow_div overflow_rem : ℤ → Message
  division_by_zero modulo_by_zero call_depth_exceeded stack_pointer_negative : Message
  unknown_opcode : ℤ → ℕ → ℤ → Message
  register_out_of_range : ℤ → ℕ → ℤ → Message
  store_in_image : ℕ → ℕ → Message
  heap_exhausted : ℕ → ℕ → ℕ → Message
  deadlock_await deadlock_drain deadlock_fill : Message
  await_taken await_not_a_handle : Message
  channel_capacity send_closed send_full recv_empty : Message

-- A runtime collection object. The holder of a mutex is a task; a barrier has the tasks it needs,
-- those that arrived and the pending releases.
pub data HeapObj : Type 0 where
  vec deque channel closed_channel : List ℤ → HeapObj
  ordered_map : OrderedMap → HeapObj
  ordered_set : OrderedSet → HeapObj
  trie : List (List ℤ × ℤ) → HeapObj
  mutex : ℤ → Option ℕ → HeapObj
  atomic_trit semaphore task_result : ℤ → HeapObj
  barrier : ℤ → ℤ → ℤ → HeapObj

-- A suspended task.
pub record SavedTask : Type 0 where
  pub pc : ℕ
  pub regs : ℕ → ℤ
  pub stack : List ℤ
  pub call_stack : List ℕ
  pub call_depth : ℕ

pub data TaskVal : Type 0 where
  running : TaskVal
  done : ℤ → TaskVal
  taken : TaskVal

pub record Sched : Type 0 where
  pub run : List ℕ
  pub blocked : List (ℕ × List ℕ)
  pub blocked_send : List (ℕ × List ℕ)
  pub chan_cap : List (ℕ × ℕ)
  pub tstate : List (ℕ × TaskVal)
  pub blocked_await : List (ℕ × List ℕ)
  pub saved : List (ℕ × SavedTask)
  pub next_id : ℕ
  pub main_exit : Option ℤ
  pub active : Bool

-- `Sched::default()`.
abbrev pub initial_sched : Sched
initial_sched = record {
  run = 0 ∷ [];
  blocked = [];
  blocked_send = [];
  chan_cap = [];
  tstate = [];
  blocked_await = [];
  saved = [];
  next_id = 1;
  main_exit = none;
  active = false;
}

-- The call stack has its last pushed address first; the output has its last message first. The texts
-- of the strings that the machine made stand at their addresses.
pub record Emulator : Type 0 where
  pub regs : ℕ → ℤ
  pub pc : ℕ
  pub memory : ℕ → ℤ
  pub mem_len : ℕ
  pub flags : ℤ
  pub halted : Bool
  pub trapped : Bool
  pub output : List Message
  pub call_stack : List ℕ
  pub string_data : List (ℕ × List ℕ)
  pub heap_ptr : ℕ
  pub heap_objs : List (ℕ × HeapObj)
  pub call_depth : ℕ
  pub sched : Sched
  pub total_instructions : ℕ
  pub program_words : ℕ

-- `Emulator::new()`.
abbrev pub initial : Emulator
initial = record {
  regs = λ r. if r == 26 then pos stack_base else pos 0;
  pc = 0;
  memory = λ a. pos 0;
  mem_len = 65536;
  flags = pos 0;
  halted = false;
  trapped = false;
  output = [];
  call_stack = [];
  string_data = [];
  heap_ptr = heap_base;
  heap_objs = [];
  call_depth = 0;
  sched = initial_sched;
  total_instructions = 0;
  program_words = 0;
}

unfoldable pub trap : Message → Emulator → Emulator
trap m e = record e { output = m ∷ e.output; halted = true; trapped = true }

-- `memory.get(addr).copied().unwrap_or(0)`.
unfoldable pub read : Emulator → ℕ → ℤ
read e addr = if ltb addr e.mem_len then e.memory addr else pos 0

-- A guarded store: an address past the end of memory is ignored.
unfoldable pub write : ℕ → ℤ → Emulator → Emulator
write addr v e = if ltb addr e.mem_len then record e { memory = update e.memory addr v } else e

-- `heap_reserve`: the base of n fresh words, or a trap.
unfoldable pub heap_reserve : ℕ → Emulator → Option ℕ × Emulator
heap_reserve n e =
    if ltb e.mem_len (e.heap_ptr + n)
    then (none, trap (heap_exhausted n e.heap_ptr e.mem_len) e)
    else (some e.heap_ptr, record e { heap_ptr = e.heap_ptr + n })

abbrev pub store_str : List ℕ → Option ℕ × Emulator → Emulator × ℕ
store_str s (none, e) = (e, 0)
store_str s (some addr, e) = (record e { string_data = insert addr s e.string_data }, addr)

unfoldable pub heap_alloc_str : List ℕ → Emulator → Emulator × ℕ
heap_alloc_str s e = store_str s (heap_reserve 1 e)
