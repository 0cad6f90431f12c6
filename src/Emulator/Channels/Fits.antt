-- ===== src/Emulator/Channels/Fits.antt =====
-- What the operations on channels of src/codegen_t3/emulator/syscall_proc.rs do to the capacities.
use mathlib.Core.Option.{some-injective}
use mani_tc.Prelude.{
  ℕ, ◌≤◌, ◌<◌, ◌≡◌, ◌+◌, ltb, refl, sym, subst, ap, ◌∙◌, Bool, true, false, Bool-cases, Option,
  none, some, List, [], ◌∷◌, ◌++◌, length, length-append, ◌==◌, ==_iff, if◌then◌else◌, inl, inr,
  arith,
}
use mani_tc.Prelude.Int.{ℤ}
use mani_tc.Prelude.Maps.{lookup, insert, lookup-insert}
use mani_tc.Emulator.State.{
  heap_reserve, heap_alloc_str, HeapObj, channel, closed_channel, Message, send_closed, send_full,
  recv_empty, Emulator, trap,
}
use mani_tc.Emulator.Sched.{
  sched_block_on, sched_block_on_send, sched_wake_one, sched_wake_one_sender,
}
use mani_tc.Emulator.Channels.{
  try_recv_from, not_received, empty_text, closed_text, with_objs, is_full, send_to, recv_from,
  closed,
}
use mani_tc.Emulator.Channels.Frame.{channels, block-channels, wake-channels}

-- No open channel that has a capacity holds more values than that.
abbrev pub FitsCaps : List (ℕ × HeapObj) × List (ℕ × ℕ) → Type 0
FitsCaps (objs, caps) =
    (h cap : ℕ) (q : List ℤ)
    → lookup h objs ≡ some (channel q)
    → lookup h caps ≡ some cap
    → length q ≤ cap

unfoldable pub IsBounded : Emulator → Type 0
IsBounded e = FitsCaps (channels e)

pub kept : (e f : Emulator) → channels f ≡ channels e → IsBounded e → IsBounded f
unfolding IsBounded
kept e f p b = subst FitsCaps (sym p) b

module _ {A : Type 0} (at other : ℕ) (new : A) (m : List (ℕ × A)) (v : Option A) where
  found-here : (at == other) ≡ true → lookup other (insert at new m) ≡ v → some new ≡ v
  found-here p h = sym (lookup-insert at other new m ∙ rw p refl) ∙ h

  found-before : (at == other) ≡ false → lookup other (insert at new m) ≡ v → lookup other m ≡ v
  found-before p h = sym (lookup-insert at other new m ∙ rw p refl) ∙ h

-- An object put at a handle, a channel among them only where it has no more than its capacity.
pub insert-FitsCaps :
    (objs : List (ℕ × HeapObj)) (caps : List (ℕ × ℕ)) (at : ℕ) (obj : HeapObj)
    → FitsCaps (objs, caps)
    → ((cap : ℕ) (q : List ℤ) → obj ≡ channel q → lookup at caps ≡ some cap → length q ≤ cap)
    → FitsCaps (insert at obj objs, caps)
insert-FitsCaps objs caps at obj b c h cap q o l = elim (Bool-cases (at == h)) [
  | inl p ↦
      c cap q (some-injective _ _ (found-here at h obj objs _ p o))
        (ap (λ k. lookup k caps) ((==_iff at h).0 p) ∙ l)
  | inr p ↦ b h cap q (found-before at h obj objs _ p o) l
]

pub held_values : HeapObj → ℕ
held_values (channel q) = length q
held_values o = 0

pub same_values : (p q : List ℤ) → channel p ≡ channel q → length p ≡ length q
unfolding held_values
same_values p q e = ap held_values e

-- A new empty channel, with a capacity or without.
pub bounded-FitsCaps :
    (objs : List (ℕ × HeapObj)) (caps : List (ℕ × ℕ)) (at new : ℕ)
    → FitsCaps (objs, caps)
    → FitsCaps (insert at (channel []) objs, insert at new caps)
bounded-FitsCaps objs caps at new b h cap q o l = elim (Bool-cases (at == h)) [
  | inl p ↦
      let empty = same_values [] q (some-injective _ _ (found-here at h (channel []) objs _ p o)) in
      omega arith
  | inr p ↦ b h cap q (found-before at h (channel []) objs _ p o) (found-before at h new caps _ p l)
]

pub empty-FitsCaps :
    (objs : List (ℕ × HeapObj)) (caps : List (ℕ × ℕ)) (at : ℕ)
    → FitsCaps (objs, caps)
    → FitsCaps (insert at (channel []) objs, caps)
empty-FitsCaps objs caps at b =
    insert-FitsCaps objs caps at (channel []) b
      λ cap q e l. let z = same_values [] q e in omega arith

pub room :
    (o : Option ℕ) (cap n : ℕ) (q : List ℤ) → is_full o q ≡ false → o ≡ some cap → length q < cap
room none cap n q f e = ground arith
room (some c) cap n q f e = ground arith

pub trap-IsBounded : (m : Message) (e : Emulator) → IsBounded e → IsBounded (trap m e)
unfolding trap IsBounded
trap-IsBounded m e b = b

pub if-IsBounded :
    (c : Bool) (x y : Emulator)
    → IsBounded x
    → (c ≡ false → IsBounded y)
    → IsBounded (if c then x else y)
if-IsBounded true x y h k = h
if-IsBounded false x y h k = k refl

abbrev pub is_open : HeapObj → Bool
is_open (channel q) = true
is_open o = false

pub no_channel :
    {P : Type 0} (obj : HeapObj) (q : List ℤ) → is_open obj ≡ false → obj ≡ channel q → P
no_channel obj q p x = let absurd : true ≡ false = sym (ap is_open x) ∙ p in ground arith

pub not_open : {P : Type 0} (q r : List ℤ) → closed_channel q ≡ channel r → P
not_open q r x = no_channel (closed_channel q) r refl x

pub send-FitsCaps :
    (h : ℕ) (v : ℤ) (o : Option HeapObj) (e : Emulator)
    → lookup h e.heap_objs ≡ o
    → IsBounded e
    → IsBounded (send_to h v o e)
unfolding IsBounded
send-FitsCaps h v (some (channel q)) e l b =
    let sent = with_objs (insert h (channel (q ++ v ∷ [])) e.heap_objs) e in
    if-IsBounded (is_full (lookup h e.sched.chan_cap) q) _ _
      (if-IsBounded e.sched.active _ _ (kept e (sched_block_on_send h e).0 (block-channels h e).1 b)
        λ r. trap-IsBounded send_full e b)
      λ p. kept sent (sched_wake_one h sent) (wake-channels h sent).0 (
        insert-FitsCaps e.heap_objs e.sched.chan_cap h (channel (q ++ v ∷ [])) b λ cap r x y.
          let one = same_values (q ++ v ∷ []) r x in
          omega (arith, room (lookup h e.sched.chan_cap) cap 0 q p y, length-append q (v ∷ [])))
send-FitsCaps h v (some (closed_channel q)) e l b = trap-IsBounded send_closed e b
send-FitsCaps h v _ e l b = kept e (sched_wake_one h e) (wake-channels h e).0 b

pub recv-FitsCaps :
    (h : ℕ) (o : Option HeapObj) (e : Emulator)
    → lookup h e.heap_objs ≡ o
    → IsBounded e
    → IsBounded (recv_from h o e)
unfolding IsBounded
recv-FitsCaps h (some (channel (v ∷ q))) e l b =
    let left = with_objs (insert h (channel q) e.heap_objs) e in
    kept left (sched_wake_one_sender h left) (wake-channels h left).1 (
      insert-FitsCaps e.heap_objs e.sched.chan_cap h (channel q) b
        λ cap r x y. let fits = b h cap (v ∷ q) l y in let same = same_values q r x in omega arith)
recv-FitsCaps h (some (channel [])) e l b =
    if-IsBounded e.sched.active _ _ (kept e (sched_block_on h e).0 (block-channels h e).0 b)
      λ r. trap-IsBounded recv_empty e b
recv-FitsCaps h (some (closed_channel (v ∷ q))) e l b =
    let left = with_objs (insert h (closed_channel q) e.heap_objs) e in
    kept left (sched_wake_one_sender h left) (wake-channels h left).1 (
      insert-FitsCaps e.heap_objs e.sched.chan_cap h (closed_channel q) b
        λ cap r x y. not_open q r x)
recv-FitsCaps h _ e l b = kept e (sched_wake_one_sender h e) (wake-channels h e).1 b

pub close-FitsCaps :
    (h : ℕ) (o : Option HeapObj) (e : Emulator)
    → IsBounded e
    → IsBounded (with_objs (closed h o e.heap_objs) e)
unfolding IsBounded
close-FitsCaps h (some (channel q)) e b =
    insert-FitsCaps e.heap_objs e.sched.chan_cap h (closed_channel q) b λ cap r x y. not_open q r x
close-FitsCaps h _ e b = b

alloc_str-IsBounded :
    (s : List ℕ) (e : Emulator) → IsBounded e → IsBounded (not_received (heap_alloc_str s e))
unfolding heap_alloc_str heap_reserve trap IsBounded
alloc_str-IsBounded s e b = elim (Bool-cases (ltb e.mem_len (e.heap_ptr + 1))) [
  | inl p ↦ rw p b
  | inr p ↦ rw p b
]

pub try_recv-FitsCaps :
    (h : ℕ) (o : Option HeapObj) (e : Emulator)
    → lookup h e.heap_objs ≡ o
    → IsBounded e
    → IsBounded (try_recv_from h o e)
unfolding IsBounded
try_recv-FitsCaps h (some (channel (v ∷ q))) e l b =
    insert-FitsCaps e.heap_objs e.sched.chan_cap h (channel q) b
      λ cap r x y. let fits = b h cap (v ∷ q) l y in let same = same_values q r x in omega arith
try_recv-FitsCaps h (some (channel [])) e l b = alloc_str-IsBounded empty_text e b
try_recv-FitsCaps h (some (closed_channel (v ∷ q))) e l b =
    insert-FitsCaps e.heap_objs e.sched.chan_cap h (closed_channel q) b λ cap r x y. not_open q r x
try_recv-FitsCaps h _ e l b = alloc_str-IsBounded closed_text e b
