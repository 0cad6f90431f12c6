-- ===== src/Emulator/Sched/Saved.antt =====
-- The states that the scheduler saves (src/codegen_t3/emulator/sched.rs), by task.
use mani_tc.Prelude.{
  append_assoc, ℕ, ◌≡◌, refl, ◌∙◌, ap, ◌⊎◌, inl, inr, Option-cases, Bool, Bool-cases, Option, none,
  some, List, [], ◌∷◌, ◌++◌, true, false, arith, ◌==◌, ==_iff, if◌then◌else◌,
}
use mani_tc.Prelude.Int.{pos}
use mani_tc.Prelude.Maps.{update, lookup, remove, lookup-insert, lookup-remove}
use mani_tc.Emulator.State.{SavedTask, Sched, Emulator}
use mani_tc.Emulator.Switch
use mani_tc.Emulator.Sched
use mani_tc.Emulator.Sched.Tasks.{population, population-swap_tasks}
use mani_tc.Emulator.Sched.Moves.{
  population-rotate, population-fork, population-wake_one, population-wake_one_sender,
  population-wake_all,
}

abbrev pub present : Option SavedTask → Bool
present none = false
present (some _) = true

abbrev pub is_saved : ℕ → Sched → Bool
is_saved t s = present (lookup t s.saved)

-- The task stands in no queue, or it leads the run queue, or its state is saved.
abbrev pub IsHeld : ℕ → Sched → Type 0
IsHeld t s = (population t s ≡ 0) ⊎ ((Switch.front s.run ≡ some t) ⊎ (is_saved t s ≡ true))

pub sched-take_saved :
    (now : ℕ) (e : Emulator)
    → (Switch.take_saved now e).sched ≡ record (e.sched) { saved = remove now e.sched.saved }
unfolding Switch.take_saved Switch.restore
sched-take_saved now e = elim (Option-cases (lookup now e.sched.saved)) [
  | inl p ↦ rw (p, Switch.restore_if)
  | inr (s, p) ↦ rw (p, Switch.restore_if)
]

pub is_saved-take_saved :
    (t now : ℕ) (e : Emulator)
    → is_saved t (Switch.take_saved now e).sched ≡ (if now == t then false else is_saved t e.sched)
is_saved-take_saved t now e =
    rw (sched-take_saved now e) (ground (arith, lookup-remove now t e.sched.saved))

is_saved-swap_tasks :
    (t was now : ℕ) (e : Emulator)
    → is_saved t (Switch.swap_tasks was now e).sched
      ≡ (if now == t then false else if was == t then true else is_saved t e.sched)
unfolding Switch.swap_tasks Switch.put_saved
is_saved-swap_tasks t was now e =
    rw (is_saved-take_saved t now (Switch.put_saved was (Switch.save_current e) e))
      (ground (arith, lookup-insert was t (Switch.save_current e) e.sched.saved))

run-swap_tasks :
    (was now : ℕ) (e : Emulator) → (Switch.swap_tasks was now e).sched.run ≡ e.sched.run
unfolding Switch.swap_tasks Switch.put_saved
run-swap_tasks was now e = rw (sched-take_saved now _)

pub same_task : (t u : ℕ) → (t == u) ≡ true → some t ≡ some u
same_task t u e = ap some ((==_iff t u).0 e)

pub swap_tasks-IsHeld :
    (t was now : ℕ) (e : Emulator)
    → Switch.front e.sched.run ≡ some now
    → (population t e.sched ≡ 0) ⊎ (((was == t) ≡ true) ⊎ (is_saved t e.sched ≡ true))
    → IsHeld t (Switch.swap_tasks was now e).sched
swap_tasks-IsHeld t was now e f h = elim (Bool-cases (now == t)) [
  | inl p ↦ inr (inl (ap Switch.front (run-swap_tasks was now e) ∙ f ∙ same_task now t p))
  | inr p ↦ elim h [
    | inl z ↦ inl (population-swap_tasks t was now e ∙ z)
    | inr (inl q) ↦ inr (inr (rw (is_saved-swap_tasks t was now e, p, q)))
    | inr (inr q) ↦ inr (inr (rw (is_saved-swap_tasks t was now e, p) (ground (arith, q))))
  ]
]

-- Who is held by a machine whose run queue is led by `was`.
pub led :
    (t was : ℕ) (s : Sched)
    → Switch.front s.run ≡ some was
    → IsHeld t s
    → (population t s ≡ 0) ⊎ (((was == t) ≡ true) ⊎ (is_saved t s ≡ true))
led t was s f (inl z) = inl z
led t was s f (inr (inl p)) = inr (inl (ground (arith, p, f)))
led t was s f (inr (inr q)) = inr (inr q)

-- A run queue that grows at its back keeps its head.
front-append :
    (t : ℕ) (run ws : List ℕ) → Switch.front run ≡ some t → Switch.front (run ++ ws) ≡ some t
front-append t [] ws h = cc
front-append t (r ∷ run) ws h = h

-- The queue grows at its back, the population and the saved states are as before.
grown-IsHeld :
    (t : ℕ) (s s' : Sched) (ws : List ℕ)
    → s'.run ≡ s.run ++ ws
    → s'.saved ≡ s.saved
    → population t s' ≡ population t s
    → IsHeld t s
    → IsHeld t s'
grown-IsHeld t s s' ws r v p (inl z) = inl (p ∙ z)
grown-IsHeld t s s' ws r v p (inr (inl f)) =
    inr (inl (ap Switch.front r ∙ front-append t s.run ws f))
grown-IsHeld t s s' ws r v p (inr (inr q)) = inr (inr (ap (λ m. present (lookup t m)) v ∙ q))

if-IsHeld :
    (t : ℕ) (b : Bool) (x y : Emulator)
    → IsHeld t x.sched
    → IsHeld t y.sched
    → IsHeld t (if b then x else y).sched
if-IsHeld t true x y h k = h
if-IsHeld t false x y h k = k

woken-IsHeld :
    (t : ℕ) (active : Bool) (e : Emulator) (s' : Sched) (ws : List ℕ)
    → s'.run ≡ e.sched.run ++ ws
    → s'.saved ≡ e.sched.saved
    → population t (if active then Switch.with_sched s' e else e).sched ≡ population t e.sched
    → IsHeld t e.sched
    → IsHeld t (if active then Switch.with_sched s' e else e).sched
woken-IsHeld t true e s' ws r v p h = grown-IsHeld t e.sched s' ws r v p h
woken-IsHeld t false e s' ws r v p h = h

module _ (t : ℕ) (e : Emulator) (h : IsHeld t e.sched) where
  pub wake_one-IsHeld : (chan : ℕ) → IsHeld t (Sched.sched_wake_one chan e).sched
  unfolding Sched.sched_wake_one
  wake_one-IsHeld chan =
      woken-IsHeld t e.sched.active e _ _ refl refl (population-wake_one t e chan) h

  pub wake_one_sender-IsHeld : (chan : ℕ) → IsHeld t (Sched.sched_wake_one_sender chan e).sched
  unfolding Sched.sched_wake_one_sender
  wake_one_sender-IsHeld chan =
      woken-IsHeld t e.sched.active e _ _ refl refl (population-wake_one_sender t e chan) h

  pub wake_all-IsHeld : (chan : ℕ) → IsHeld t (Sched.sched_wake_all chan e).sched
  unfolding Sched.sched_wake_all
  wake_all-IsHeld chan =
      woken-IsHeld t e.sched.active e _ _ (append_assoc e.sched.run _ _) refl
        (population-wake_all t e chan) h

  saved_after_fork :
      is_saved t (Sched.sched_fork e).0.sched
      ≡ (if e.sched.next_id == t then true else is_saved t e.sched)
  unfolding Sched.sched_fork
  saved_after_fork =
      let child = record (Switch.save_current e) { regs = update e.regs 1 (pos 0) } in
      ground (arith, lookup-insert e.sched.next_id t child e.sched.saved)

  pub fork-IsHeld : IsHeld t (Sched.sched_fork e).0.sched
  fork-IsHeld = elim (Bool-cases (e.sched.next_id == t)) [
    | inl p ↦ inr (inr (cc (saved_after_fork, p)))
    | inr p ↦ old p h
  ]
    where
      old :
          (e.sched.next_id == t) ≡ false → IsHeld t e.sched → IsHeld t (Sched.sched_fork e).0.sched
      old p (inl z) = inl (ground (arith, p, z, population-fork t e))
      old p (inr (inl f)) =
          inr (inl (unfold Sched.sched_fork in front-append t e.sched.run (e.sched.next_id ∷ []) f))
      old p (inr (inr q)) = inr (inr (rw (saved_after_fork, p) q))

-- The head goes to the back and the new head is switched to.
module _ (t : ℕ) (e : Emulator) where
  switch_if_needed-IsHeld :
      (was : ℕ)
      → (population t e.sched ≡ 0) ⊎ (((was == t) ≡ true) ⊎ (is_saved t e.sched ≡ true))
      → (now : ℕ) → Switch.front e.sched.run ≡ some now
      → IsHeld t (Switch.switch_to was (some now) e).sched
  switch_if_needed-IsHeld was h now f = elim (Bool-cases (now == was)) [
    | inl p ↦ rw p (kept p h)
    | inr p ↦ rw p (swap_tasks-IsHeld t was now e f h)
  ]
    where
      kept :
          (now == was) ≡ true
          → (population t e.sched ≡ 0) ⊎ (((was == t) ≡ true) ⊎ (is_saved t e.sched ≡ true))
          → IsHeld t e.sched
      kept p (inl z) = inl z
      kept p (inr (inl q)) = inr (inl (f ∙ same_task now was p ∙ same_task was t q))
      kept p (inr (inr q)) = inr (inr q)

front-push : (xs : List ℕ) (x : ℕ) → (now : ℕ) × (Switch.front (xs ++ x ∷ []) ≡ some now)
front-push [] x = (x, refl)
front-push (y ∷ xs) x = (y, refl)

yield_head-IsHeld :
    (t : ℕ) (e : Emulator) (ts : List ℕ)
    → e.sched.run ≡ ts
    → IsHeld t e.sched
    → IsHeld t (Sched.yield_head (Switch.front ts) e).sched
yield_head-IsHeld t e [] r h = h
yield_head-IsHeld t e (me ∷ ts) r h =
    let (now, f) = front-push (Switch.pop_front e.sched.run) me in
    unfold Switch.switch_if_needed Switch.current in
    rw f (
      switch_if_needed-IsHeld t
        (record e { sched = record (e.sched) { run = Switch.pop_front e.sched.run ++ me ∷ [] } }) me
        (moved (led t me e.sched (ap Switch.front r) h)) now f)
  where
    moved :
        (population t e.sched ≡ 0) ⊎ (((me == t) ≡ true) ⊎ (is_saved t e.sched ≡ true))
        → (population t (record (e.sched) { run = Switch.pop_front e.sched.run ++ me ∷ [] }) ≡ 0)
          ⊎ (((me == t) ≡ true) ⊎ (is_saved t e.sched ≡ true))
    moved (inl z) = inl (population-rotate t me ts e.sched r ∙ z)
    moved (inr q) = inr q

pub yield-IsHeld : (t : ℕ) (e : Emulator) → IsHeld t e.sched → IsHeld t (Sched.sched_yield e).sched
unfolding Sched.sched_yield Switch.current
yield-IsHeld t e h = if-IsHeld t e.sched.active _ e (yield_head-IsHeld t e e.sched.run refl h) h
