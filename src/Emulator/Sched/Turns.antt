-- ===== src/Emulator/Sched/Turns.antt =====
-- Whose turn it is after tasks have yielded (src/codegen_t3/emulator/sched.rs).
use mani_tc.Prelude.{
  append_assoc, subst, sym, ℕ, zero, suc, ◌≡◌, refl, ap, Bool, some, List, [], ◌∷◌, ◌++◌, true,
  false, arith, ◌==◌, length, if◌then◌else◌,
}
use mani_tc.Prelude.Maps.{lookup, insert, remove, count, lookup-insert, lookup-remove}
use mani_tc.Emulator.State.{SavedTask, Emulator}
use mani_tc.Emulator.Switch
use mani_tc.Emulator.Sched
use mani_tc.Emulator.Sched.Saved.{sched-take_saved}

unfoldable pub yields : ℕ → Emulator → Emulator
yields zero e = e
yields (suc n) e = yields n (Sched.sched_yield e)

-- The head of the run queue at its back.
abbrev rotated : ℕ → List ℕ → Emulator → Emulator
rotated me ts e = Switch.with_sched (record (e.sched) { run = ts ++ me ∷ [] }) e

sched_yield-rotated :
    (me x : ℕ) (ts : List ℕ) (e : Emulator)
    → e.sched.active ≡ true
    → e.sched.run ≡ me ∷ x ∷ ts
    → Sched.sched_yield e
      ≡ (if x == me then rotated me (x ∷ ts) e else Switch.swap_tasks me x (rotated me (x ∷ ts) e))
unfolding Sched.sched_yield Switch.current Switch.switch_if_needed
sched_yield-rotated me x ts e a r = rw (a, r, Sched.yield_head, Switch.switch_to)

sched-swap_tasks :
    (was now : ℕ) (e : Emulator)
    → (Switch.swap_tasks was now e).sched
      ≡ record (e.sched) { saved = remove now (insert was (Switch.save_current e) e.sched.saved) }
unfolding Switch.swap_tasks Switch.put_saved
sched-swap_tasks was now e = sched-take_saved now _

-- The task t waits behind others, and its state is saved.
record Waits (t : ℕ) (s : SavedTask) (before after : List ℕ) (e : Emulator) : Type 0 where
  is_active : e.sched.active ≡ true
  queued : e.sched.run ≡ before ++ t ∷ after
  kept : lookup t e.sched.saved ≡ some s

-- The task t runs, in the state that was saved for it.
abbrev pub Resumes : ℕ → SavedTask → List ℕ → Emulator → Type 0
Resumes t s others e =
    (e.sched.run ≡ t ∷ others)
    × (e.pc ≡ s.pc)
    × (e.regs ≡ s.regs)
    × (e.call_stack ≡ s.call_stack)
    × (e.call_depth ≡ s.call_depth)

module _ (t : ℕ) (s : SavedTask) where
  rotated-Waits :
      (me x : ℕ) (before after : List ℕ) (e : Emulator)
      → Waits t s (me ∷ x ∷ before) after e
      → Waits t s (x ∷ before) (after ++ me ∷ []) (rotated me (x ∷ before ++ t ∷ after) e)
  rotated-Waits me x before after e w = record {
    is_active = w.is_active;
    queued = ap (λ (ts : List ℕ). x ∷ ts) (append_assoc before (t ∷ after) (me ∷ []));
    kept = w.kept;
  }

  swapped-Waits :
      (was now : ℕ) (before after : List ℕ) (e : Emulator)
      → (was == t) ≡ false
      → (now == t) ≡ false
      → Waits t s before after e
      → Waits t s before after (Switch.swap_tasks was now e)
  swapped-Waits was now before after e p q w = record {
    is_active = rw (sched-swap_tasks was now e) (w.is_active);
    queued = rw (sched-swap_tasks was now e) (w.queued);
    kept =
        rw
          (
            sched-swap_tasks was now e,
            lookup-remove now t (insert was (Switch.save_current e) e.sched.saved),
            lookup-insert was t (Switch.save_current e) e.sched.saved,
            p,
            q,
          )
          (w.kept);
  }

  if-Waits :
      (b : Bool) (before after : List ℕ) (x y : Emulator)
      → Waits t s before after x
      → Waits t s before after y
      → Waits t s before after (if b then x else y)
  if-Waits true before after x y h k = h
  if-Waits false before after x y h k = k

  sched_yield-Waits :
      (me x : ℕ) (before after : List ℕ) (e : Emulator)
      → (me == t) ≡ false
      → (x == t) ≡ false
      → Waits t s (me ∷ x ∷ before) after e
      → Waits t s (x ∷ before) (after ++ me ∷ []) (Sched.sched_yield e)
  sched_yield-Waits me x before after e p q w =
      let turned = rotated-Waits me x before after e w in
      subst (Waits t s (x ∷ before) (after ++ me ∷ []))
        (sym (sched_yield-rotated me x (before ++ t ∷ after) e w.is_active w.queued))
        (if-Waits (x == me) _ _ _ _ turned (swapped-Waits me x _ _ _ p q turned))

  swap_tasks-Resumes :
      (was : ℕ) (others : List ℕ) (e : Emulator)
      → (was == t) ≡ false
      → e.sched.run ≡ t ∷ others
      → lookup t e.sched.saved ≡ some s
      → Resumes t s others (Switch.swap_tasks was t e)
  unfolding Switch.swap_tasks Switch.put_saved Switch.take_saved Switch.restore
  swap_tasks-Resumes was others e p r k =
      rw (lookup-insert was t (Switch.save_current e) e.sched.saved, p, k, Switch.restore_if)
        (r, refl, refl, refl, refl)

  sched_yield-Resumes :
      (me : ℕ) (after : List ℕ) (e : Emulator)
      → (me == t) ≡ false
      → Waits t s (me ∷ []) after e
      → Resumes t s (after ++ me ∷ []) (Sched.sched_yield e)
  sched_yield-Resumes me after e p w =
      rw (sched_yield-rotated me t after e w.is_active w.queued, differ)
        (swap_tasks-Resumes me (after ++ me ∷ []) (rotated me (t ∷ after) e) p refl w.kept)
    where
      differ : (t == me) ≡ false
      differ = ground (arith, p)

  yields_lem :
      (me : ℕ) (before after : List ℕ) (e : Emulator)
      → count t (me ∷ before) ≡ 0
      → Waits t s (me ∷ before) after e
      → Resumes t s (after ++ me ∷ before) (yields (length (me ∷ before)) e)
  unfolding yields count
  yields_lem me [] after e c w = sched_yield-Resumes me after e (ground (arith, c)) w
  yields_lem me (x ∷ before) after e c w =
      subst (λ others. Resumes t s others (yields (length (x ∷ before)) (Sched.sched_yield e)))
        (append_assoc after (me ∷ []) (x ∷ before))
        (yields_lem x before (after ++ me ∷ []) (Sched.sched_yield e) (omega (arith, c))
          (sched_yield-Waits me x before after e (ground (arith, c)) (ground (arith, c)) w))

-- While the scheduler is active, a task that stands in the run queue behind one or more places of
-- other tasks, and whose state is saved, runs after as many yields as there are places before it: with
-- the program counter, the registers and the call stack that were saved for it, and the others behind
-- it in the order in which they have run.
pub yields-Resumes :
    (t : ℕ) (s : SavedTask) (me : ℕ) (before after : List ℕ) (e : Emulator)
    → e.sched.active ≡ true
    → e.sched.run ≡ (me ∷ before) ++ t ∷ after
    → lookup t e.sched.saved ≡ some s
    → count t (me ∷ before) ≡ 0
    → Resumes t s (after ++ me ∷ before) (yields (length (me ∷ before)) e)
yields-Resumes t s me before after e a r k c =
    yields_lem t s me before after e c (record { is_active = a; queued = r; kept = k })
