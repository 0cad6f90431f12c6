-- ===== src/Emulator/Channels/Order.antt =====
-- The order of values in a channel of src/codegen_t3/emulator/syscall_proc.rs, and closing it.
use mani_tc.Prelude.{
  ℕ, ◌≡◌, refl, sym, ap, ◌∙◌, true, false, Bool-cases, Option, none, some, List, [], ◌∷◌, ◌++◌,
  ◌==◌, inl, inr, arith, append-nil,
}
use mani_tc.Prelude.Int.{ℤ}
use mani_tc.Prelude.Maps.{update, lookup, insert, lookup-insert}
use mani_tc.Emulator.State.{as_usize, HeapObj, channel, closed_channel, Sched, Emulator}
use mani_tc.Emulator.Switch.{with_sched, queue}
use mani_tc.Emulator.Sched.{drain, sched_wake_one, sched_wake_one_sender, sched_wake_all}
use mani_tc.Emulator.Channels.{
  with_objs, is_full, closed, channel_send, channel_recv, channel_close,
}

itself : (k : ℕ) → (k == k) ≡ true
itself k = ground arith

pub lookup-insert-same :
    {A : Type 0} (k : ℕ) (v : A) (m : List (ℕ × A)) → lookup k (insert k v m) ≡ some v
lookup-insert-same k v m = lookup-insert k k v m ∙ rw (itself k) refl

insert_twice :
    {A : Type 0} (k : ℕ) (v : A) (m : List (ℕ × A)) → insert k v (insert k v m) ≡ insert k v m
unfolding insert
insert_twice k v [] = rw (itself k) refl
insert_twice k v ((j, w) ∷ m) = elim (Bool-cases (j == k)) [
  | inl p ↦ rw (p, itself k) refl
  | inr p ↦ rw (p, p) (ap (λ l. (j, w) ∷ l) (insert_twice k v m))
]

close_objs :
    (h : ℕ) (o : Option HeapObj) (objs : List (ℕ × HeapObj))
    → lookup h objs ≡ o
    → closed h (lookup h (closed h o objs)) (closed h o objs) ≡ closed h o objs
close_objs h (some (channel q)) objs e = rw (lookup-insert-same h (closed_channel q) objs) refl
close_objs h _ objs e = rw e refl

close_queues :
    (h : ℕ) (o : Option (List ℕ)) (m : List (ℕ × List ℕ))
    → lookup h m ≡ o
    → (drain h (lookup h (drain h o m)) (drain h o m) ≡ drain h o m) × (queue h (drain h o m) ≡ [])
unfolding queue
close_queues h none m e = rw e (refl, refl)
close_queues h (some q) m e = rw (lookup-insert-same h [] m) (insert_twice h [] m, refl)

-- What closing writes.
abbrev Closing : Type 0
Closing = List (ℕ × HeapObj) × List ℕ × List (ℕ × List ℕ) × List (ℕ × List ℕ)

abbrev close_with : Closing → Emulator → Emulator
close_with (objs, run, blocked, blocked_send) e =
    with_sched (record (e.sched) { run = run; blocked = blocked; blocked_send = blocked_send })
      (with_objs objs e)

abbrev closing : ℕ → List (ℕ × HeapObj) → Sched → Closing
closing h objs s = (
  closed h (lookup h objs) objs,
  (s.run ++ queue h s.blocked) ++ queue h s.blocked_send,
  drain h (lookup h s.blocked) s.blocked,
  drain h (lookup h s.blocked_send) s.blocked_send,
)

abbrev with_queues : Closing → Sched → Sched
with_queues (objs, run, blocked, blocked_send) s = record s {
  run = run;
  blocked = blocked;
  blocked_send = blocked_send;
}

closing_twice :
    (h : ℕ) (objs : List (ℕ × HeapObj)) (s : Sched)
    → closing h (closing h objs s).0 (with_queues (closing h objs s) s) ≡ closing h objs s
closing_twice h objs s =
    let same_objs = close_objs h (lookup h objs) objs refl in
    let (same_b, empty_b) = close_queues h (lookup h s.blocked) s.blocked refl in
    let (same_s, empty_s) = close_queues h (lookup h s.blocked_send) s.blocked_send refl in
    rw (same_objs, same_b, same_s, empty_b, empty_s, append-nil, append-nil) refl

close-active :
    (e : Emulator) (t : Closing)
    → e.sched.active ≡ true
    → channel_close (close_with t e)
      ≡ close_with (closing (as_usize (e.regs 1)) t.0 (with_queues t e.sched)) e
unfolding channel_close sched_wake_all
close-active e t p = rw p refl

close-inactive :
    (e : Emulator) (objs : List (ℕ × HeapObj))
    → e.sched.active ≡ false
    → channel_close (with_objs objs e)
      ≡ with_objs (closed (as_usize (e.regs 1)) (lookup (as_usize (e.regs 1)) objs) objs) e
unfolding channel_close sched_wake_all
close-inactive e objs p = rw p refl

-- Closing a channel twice is closing it once: the values that wait in it stay, and the second time
-- nobody is left to be woken.
pub channel_close_twice : (e : Emulator) → channel_close (channel_close e) ≡ channel_close e
unfolding channel_close sched_wake_all
channel_close_twice e =
    let h = as_usize (e.regs 1) in
    elim (Bool-cases e.sched.active) [
      | inl p ↦
          let once : channel_close e ≡ close_with (closing h e.heap_objs e.sched) e = rw p refl in
          ap channel_close once
          ∙ close-active e (closing h e.heap_objs e.sched) p
          ∙ ap (λ t. close_with t e) (closing_twice h e.heap_objs e.sched)
          ∙ sym once
      | inr p ↦
          let once : channel_close e ≡ with_objs (closed h (lookup h e.heap_objs) e.heap_objs) e =
            rw p refl in
          ap channel_close once
          ∙ close-inactive e (closed h (lookup h e.heap_objs) e.heap_objs) p
          ∙ ap (λ o. with_objs o e) (close_objs h (lookup h e.heap_objs) e.heap_objs refl)
          ∙ sym once
    ]

wake_one_keeps :
    (h : ℕ) (e : Emulator)
    → ((sched_wake_one h e).regs ≡ e.regs)
      × ((sched_wake_one h e).heap_objs ≡ e.heap_objs)
      × ((sched_wake_one_sender h e).regs ≡ e.regs)
      × ((sched_wake_one_sender h e).heap_objs ≡ e.heap_objs)
unfolding sched_wake_one sched_wake_one_sender
wake_one_keeps h e = elim (Bool-cases e.sched.active) [
  | inl p ↦ rw p (refl, refl, refl, refl)
  | inr p ↦ rw p (refl, refl, refl, refl)
]

module _ (e : Emulator) (q : List ℤ) where
  sent :
      lookup (as_usize (e.regs 1)) e.heap_objs ≡ some (channel q)
      → is_full (lookup (as_usize (e.regs 1)) e.sched.chan_cap) q ≡ false
      → ((channel_send e).regs ≡ e.regs)
        × ((channel_send e).heap_objs
            ≡ insert (as_usize (e.regs 1)) (channel (q ++ e.regs 2 ∷ [])) e.heap_objs)
  unfolding channel_send
  sent o room = rw (o, room) ((wake_one_keeps _ _).0, (wake_one_keeps _ _).1)

  taken :
      (v : ℤ)
      → lookup (as_usize (e.regs 1)) e.heap_objs ≡ some (channel (v ∷ q))
      → ((channel_recv e).regs 1 ≡ v)
        × (lookup (as_usize (e.regs 1)) (channel_recv e).heap_objs ≡ some (channel q))
  unfolding channel_recv update
  taken v o =
      rw o (refl, rw ((wake_one_keeps _ _).3) (lookup-insert-same _ (channel q) e.heap_objs))

-- A value sent to an open channel with room goes behind those that wait there, and a receive on the
-- same channel then takes the first of them all and leaves the rest, on a machine with tasks or
-- without.
pub channel_recv-channel_send :
    (e : Emulator) (q : List ℤ) (first : ℤ) (rest : List ℤ)
    → lookup (as_usize (e.regs 1)) e.heap_objs ≡ some (channel q)
    → is_full (lookup (as_usize (e.regs 1)) e.sched.chan_cap) q ≡ false
    → q ++ e.regs 2 ∷ [] ≡ first ∷ rest
    → ((channel_recv (channel_send e)).regs 1 ≡ first)
      × (lookup (as_usize (e.regs 1)) (channel_recv (channel_send e)).heap_objs
          ≡ some (channel rest))
channel_recv-channel_send e q first rest o room shape =
    let (same, objs) = sent e q o room in
    let found : lookup (as_usize ((channel_send e).regs 1)) (channel_send e).heap_objs
        ≡ some (channel (first ∷ rest)) =
      rw (same, objs)
        (lookup-insert-same _ (channel (q ++ e.regs 2 ∷ [])) e.heap_objs
          ∙ ap (λ l. some (channel l)) shape) in
    let (value, left) = taken (channel_send e) rest first found in
    (
      value,
      sym (ap (λ r. lookup (as_usize (r 1)) (channel_recv (channel_send e)).heap_objs) same) ∙ left,
    )
