-- ===== src/Emulator/Channels/Tests.antt =====
-- The channels at a concrete machine.
use mathlib.Core.Option.{some-injective}
use mani_tc.Prelude.{
  ℕ, ◌≡◌, refl, false, Bool-cases, some, none, [], ◌∷◌, ◌==◌, if◌then◌else◌, inl, inr, sym, ◌∙◌, ap,
  arith,
}
use mani_tc.Prelude.Int.{pos}
use mani_tc.Prelude.Maps.{lookup}
use mani_tc.Emulator.State.{as_usize, channel, Emulator, initial}
use mani_tc.Emulator.Channels.{
  first_handle, is_full, queue_length, channel_send, channel_recv, do_syscall_tasks,
}
use mani_tc.Emulator.Channels.Fits.{IsBounded}
use mani_tc.Emulator.Channels.Bounded.{do_syscall_tasks-IsBounded}
use mani_tc.Emulator.Channels.Order.{channel_recv-channel_send}

-- A channel of capacity 2 that holds 4, and a send of 9 to it or a receive from it.
abbrev machine : Emulator
machine = record initial {
  regs = λ r. if r == 1 then pos first_handle else if r == 2 then pos 9 else pos 0;
  heap_objs = (first_handle, channel (pos 4 ∷ [])) ∷ [];
  sched = record (initial.sched) { chan_cap = (first_handle, 2) ∷ [] };
}

entry-value : {A : Type 0} (h k : ℕ) (a b : A) → lookup h ((k, a) ∷ []) ≡ some b → a ≡ b
unfolding lookup
entry-value h k a b e = elim (Bool-cases (k == h)) [
  | inl p ↦ some-injective _ _ (sym (ap (λ c. if c then some a else none) p) ∙ e)
  | inr p ↦ ground arith
]

machine-IsBounded : IsBounded machine
unfolding IsBounded
machine-IsBounded h cap q o l =
    let two = entry-value h first_handle 2 cap l in
    let one =
      ap (λ x. queue_length (some x))
        (entry-value h first_handle (channel (pos 4 ∷ [])) (channel q) o) in
    omega arith

do_syscall_tasks-IsBounded_example : IsBounded (do_syscall_tasks (λ n e. e) (pos 71) machine)
do_syscall_tasks-IsBounded_example =
    do_syscall_tasks-IsBounded (λ n e. e) (pos 71) machine refl machine-IsBounded

machine-channel : lookup (as_usize (machine.regs 1)) machine.heap_objs ≡ some (channel (pos 4 ∷ []))
unfolding lookup as_usize
machine-channel = refl

machine-room :
    is_full (lookup (as_usize (machine.regs 1)) machine.sched.chan_cap) (pos 4 ∷ []) ≡ false
unfolding lookup as_usize
machine-room = refl

channel_recv-channel_send_example :
    ((channel_recv (channel_send machine)).regs 1 ≡ pos 4)
    × (lookup (as_usize (machine.regs 1)) (channel_recv (channel_send machine)).heap_objs
        ≡ some (channel (pos 9 ∷ [])))
channel_recv-channel_send_example =
    channel_recv-channel_send machine (pos 4 ∷ []) (pos 4) (pos 9 ∷ []) machine-channel machine-room
      refl
