-- ===== src/Emulator/Channels.antt =====
-- The syscalls of src/codegen_t3/emulator/syscall_proc.rs on channels and tasks.
mod Tests
pub mod Frame
pub mod Fits
pub mod Bounded
pub mod Order
use mani_tc.Prelude.{
  ℕ, zero, suc, ◌+◌, Bool, true, false, Option, none, some, List, [], ◌∷◌, ◌++◌, length, leb, ◌==◌,
  if◌then◌else◌,
}
use mani_tc.Prelude.Int.{ℤ, pos, negsuc, ltb_ℤ, ◌==ℤ◌}
use mani_tc.Prelude.Maps.{update, lookup, insert}
use mani_tc.Emulator.State.{
  as_usize, HeapObj, channel, closed_channel, Emulator, channel_capacity, send_closed, send_full,
  recv_empty, trap, vec, task_result, heap_alloc_str,
}
use mani_tc.Emulator.Switch.{with_sched}
use mani_tc.Emulator.Sched.{
  sched_fork, sched_yield, sched_task_exit, sched_task_exit_value, sched_done_value, sched_block_on,
  sched_block_on_send, sched_await, sched_wake_one, sched_wake_one_sender, sched_wake_all,
}

-- 0x8000_0000.
abbrev pub first_handle : ℕ
first_handle = 2147483648

abbrev pub with_objs : List (ℕ × HeapObj) → Emulator → Emulator
with_objs objs e = record e { heap_objs = objs }

abbrev pub with_r1 : ℤ → Emulator → Emulator
with_r1 v e = record e { regs = update e.regs 1 v }

unfoldable pub heap_alloc_obj : HeapObj → Emulator → Emulator × ℕ
heap_alloc_obj obj e =
    let handle = first_handle + length e.heap_objs in
    (with_objs (insert handle obj e.heap_objs) e, handle)

abbrev pub store_handle : Emulator × ℕ → Emulator
store_handle (e, h) = with_r1 (pos h) e

unfoldable pub channel_new : Emulator → Emulator
channel_new e = store_handle (heap_alloc_obj (channel []) e)

abbrev pub bound_channel : ℕ → Emulator × ℕ → Emulator
bound_channel cap (e, h) =
    with_r1 (pos h) (with_sched (record (e.sched) { chan_cap = insert h cap e.sched.chan_cap }) e)

unfoldable pub channel_bounded : Emulator → Emulator
channel_bounded e =
    if ltb_ℤ (e.regs 1) (pos 1)
    then trap channel_capacity e
    else bound_channel (as_usize (e.regs 1)) (heap_alloc_obj (channel []) e)

-- Whether a channel with a capacity has no room.
abbrev pub is_full : Option ℕ → List ℤ → Bool
is_full none q = false
is_full (some cap) q = leb cap (length q)

-- A send on the object of the handle h.
abbrev pub send_to : ℕ → ℤ → Option HeapObj → Emulator → Emulator
send_to h v (some (closed_channel q)) e = trap send_closed e
send_to h v (some (channel q)) e =
    if is_full (lookup h e.sched.chan_cap) q
    then (if e.sched.active then (sched_block_on_send h e).0 else trap send_full e)
    else sched_wake_one h (with_objs (insert h (channel (q ++ v ∷ [])) e.heap_objs) e)
send_to h v o e = sched_wake_one h e

unfoldable pub channel_send : Emulator → Emulator
channel_send e = let h = as_usize (e.regs 1) in send_to h (e.regs 2) (lookup h e.heap_objs) e

abbrev pub received : ℕ → ℤ → Emulator → Emulator
received h v e = with_r1 v (sched_wake_one_sender h e)

abbrev pub recv_from : ℕ → Option HeapObj → Emulator → Emulator
recv_from h (some (channel (v ∷ q))) e =
    received h v (with_objs (insert h (channel q) e.heap_objs) e)
recv_from h (some (channel [])) e =
    if e.sched.active then (sched_block_on h e).0 else trap recv_empty e
recv_from h (some (closed_channel (v ∷ q))) e =
    received h v (with_objs (insert h (closed_channel q) e.heap_objs) e)
recv_from h o e = received h (pos 0) e

unfoldable pub channel_recv : Emulator → Emulator
channel_recv e = let h = as_usize (e.regs 1) in recv_from h (lookup h e.heap_objs) e

abbrev pub queue_length : Option HeapObj → ℕ
queue_length (some (channel q)) = length q
queue_length (some (closed_channel q)) = length q
queue_length o = 0

unfoldable pub channel_len : Emulator → Emulator
channel_len e = with_r1 (pos (queue_length (lookup (as_usize (e.regs 1)) e.heap_objs))) e

abbrev pub closed : ℕ → Option HeapObj → List (ℕ × HeapObj) → List (ℕ × HeapObj)
closed h (some (channel q)) objs = insert h (closed_channel q) objs
closed h o objs = objs

unfoldable pub channel_close : Emulator → Emulator
channel_close e =
    let h = as_usize (e.regs 1) in
    sched_wake_all h (with_objs (closed h (lookup h e.heap_objs) e.heap_objs) e)

abbrev pub store_awaited : Emulator × Option ℤ → Emulator
store_awaited (e, none) = e
store_awaited (e, some v) = with_r1 v e

unfoldable pub task_fork : Emulator → Emulator
task_fork e = store_handle (sched_fork e)

unfoldable pub task_await : Emulator → Emulator
task_await e = store_awaited (sched_await (as_usize (e.regs 1)) e)

unfoldable pub task_exit_value : Emulator → Emulator
task_exit_value e = sched_task_exit_value (e.regs 1) e

unfoldable pub task_done_value : Emulator → Emulator
task_done_value e = store_handle (sched_done_value (e.regs 1) e)

-- Two words of memory, and the address of the first in R1; all of memory is 65536 words.
abbrev pub with_pair : ℕ → ℤ → ℤ → Emulator → Emulator
with_pair at a b e =
    with_r1 (pos at) (record e { memory = update (update e.memory at a) (at + 1) b })

-- "empty" and "closed".
abbrev pub empty_text : List ℕ
empty_text = 101 ∷ 109 ∷ 112 ∷ 116 ∷ 121 ∷ []

abbrev pub closed_text : List ℕ
closed_text = 99 ∷ 108 ∷ 111 ∷ 115 ∷ 101 ∷ 100 ∷ []

abbrev pub not_received : Emulator × ℕ → Emulator
not_received (e, s) = with_pair 62000 (negsuc 0) (pos s) e

abbrev pub try_recv_from : ℕ → Option HeapObj → Emulator → Emulator
try_recv_from h (some (channel (v ∷ q))) e =
    with_pair 62000 (pos 1) v (with_objs (insert h (channel q) e.heap_objs) e)
try_recv_from h (some (channel [])) e = not_received (heap_alloc_str empty_text e)
try_recv_from h (some (closed_channel (v ∷ q))) e =
    with_pair 62000 (pos 1) v (with_objs (insert h (closed_channel q) e.heap_objs) e)
try_recv_from h o e = not_received (heap_alloc_str closed_text e)

unfoldable pub channel_try_recv : Emulator → Emulator
channel_try_recv e = let h = as_usize (e.regs 1) in try_recv_from h (lookup h e.heap_objs) e

-- The value of a task's result, and another object's.
abbrev pub result_or : ℤ → Option HeapObj → ℤ
result_or d (some (task_result v)) = v
result_or d o = d

abbrev pub element : ℕ → List ℤ → ℤ
element i [] = pos 0
element zero (v ∷ vs) = v
element (suc i) (v ∷ vs) = element i vs

-- `v.get(i).copied().unwrap_or(0)` on a vector, and another object's.
abbrev pub element_of : ℕ → Option HeapObj → ℤ
element_of i (some (vec v)) = element i v
element_of i o = pos 0

unfoldable pub task_join : Emulator → Emulator
task_join e = with_r1 (result_or (pos 0) (lookup (as_usize (e.regs 1)) e.heap_objs)) e

unfoldable pub async_spawn_task : Emulator → Emulator
async_spawn_task e = store_handle (heap_alloc_obj (task_result (e.regs 1)) e)

unfoldable pub async_select : Emulator → Emulator
async_select e =
    let first_val = element_of 0 (lookup (as_usize (e.regs 1)) e.heap_objs) in
    let task_val = result_or first_val (lookup (as_usize first_val) e.heap_objs) in
    store_handle (heap_alloc_obj (vec (pos 0 ∷ task_val ∷ [])) e)

unfoldable pub select_block_on : Emulator → Emulator
select_block_on e =
    let o = lookup (as_usize (e.regs 1)) e.heap_objs in
    with_pair 62010 (element_of 0 o) (element_of 1 o) e

-- The syscalls by their numbers; the others are a parameter. 123, `async_sleep`, does nothing.
unfoldable pub do_syscall_tasks : (ℤ → Emulator → Emulator) → ℤ → Emulator → Emulator
do_syscall_tasks other n e =
    if n ==ℤ pos 70
    then channel_new e
    else if n ==ℤ pos 71
    then channel_send e
    else if n ==ℤ pos 72
    then channel_recv e
    else if n ==ℤ pos 73
    then channel_len e
    else if n ==ℤ pos 74
    then channel_close e
    else if n ==ℤ pos 80
    then task_fork e
    else if n ==ℤ pos 81
    then sched_yield e
    else if n ==ℤ pos 82
    then sched_task_exit e
    else if n ==ℤ pos 108
    then channel_try_recv e
    else if n ==ℤ pos 122
    then task_join e
    else if n ==ℤ pos 123
    then e
    else if n ==ℤ pos 124
    then async_spawn_task e
    else if n ==ℤ pos 125
    then async_select e
    else if n ==ℤ pos 126
    then select_block_on e
    else if n ==ℤ pos 137
    then channel_bounded e
    else if n ==ℤ pos 138
    then task_await e
    else if n ==ℤ pos 139
    then task_exit_value e
    else if n ==ℤ pos 140
    then task_done_value e
    else other n e
