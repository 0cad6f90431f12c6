-- ===== src/Emulator/Sched/Tasks.antt =====
-- How often a task stands in the queues of src/codegen_t3/emulator/sched.rs.
use mani_tc.Prelude.{
  ℕ, ◌+◌, ◌-◌, ◌≡◌, refl, ◌∙◌, ap, inl, inr, Option-cases, Bool, Bool-cases, Option, List, [], ◌∷◌,
  ◌++◌, true, false, arith, ◌==◌, if◌then◌else◌,
}
use mani_tc.Prelude.Maps.{lookup, insert, count, count-append}
use mani_tc.Emulator.State.{Sched, Emulator, trap}
use mani_tc.Emulator.Switch
use mani_tc.Emulator.Sched

-- How often a task waits in a map of queues.
unfoldable pub waiting : ℕ → List (ℕ × List ℕ) → ℕ
waiting t [] = 0
waiting t ((_, q) ∷ m) = count t q + waiting t m

pub waiting-insert :
    (t k : ℕ) (q : List ℕ) (m : List (ℕ × List ℕ))
    → waiting t (insert k q m) + count t (Switch.queue k m) ≡ waiting t m + count t q
unfolding waiting insert Switch.queue lookup count
waiting-insert t k q [] = omega arith
waiting-insert t k q ((j, w) ∷ m) = ground (arith, waiting-insert t k q m)

pub waiting-enqueue :
    (t k u : ℕ) (m : List (ℕ × List ℕ))
    → waiting t (Switch.enqueue k u m) ≡ waiting t m + (if u == t then 1 else 0)
unfolding Switch.enqueue count
waiting-enqueue t k u m = omega (
  arith,
  waiting-insert t k (Switch.queue k m ++ u ∷ []) m,
  count-append t (Switch.queue k m) (u ∷ []),
)

pub waiting-drop_one :
    (t k : ℕ) (q : List ℕ) (m : List (ℕ × List ℕ))
    → Switch.queue k m ≡ q
    → waiting t (Sched.drop_one k q m) + count t (Sched.woken_one q) ≡ waiting t m
unfolding count
waiting-drop_one t k [] m e = omega arith
waiting-drop_one t k (w ∷ q) m e = omega (arith, waiting-insert t k q m, ap (count t) e)

pub waiting-drain :
    (t k : ℕ) (m : List (ℕ × List ℕ))
    → waiting t (Sched.drain k (lookup k m) m) + count t (Switch.queue k m) ≡ waiting t m
unfolding Switch.queue count
waiting-drain t k m = elim (Option-cases (lookup k m)) [
  | inl e ↦ rw (e, Sched.drain) (omega arith)
  | inr (q, e) ↦
      rw (e, Sched.drain)
        (omega (
          arith,
          waiting-insert t k [] m,
          ap (λ (o : Option (List ℕ)). count t (Switch.or_default o)) e,
        ))
]

-- How often a task stands in the run queue and in the three waiting maps.
unfoldable pub population : ℕ → Sched → ℕ
population t s =
    count t s.run + waiting t s.blocked + waiting t s.blocked_send + waiting t s.blocked_await

pub population-take_saved :
    (t now : ℕ) (e : Emulator) → population t (Switch.take_saved now e).sched ≡ population t e.sched
unfolding population Switch.take_saved Switch.restore
population-take_saved t now e = elim (Option-cases (lookup now e.sched.saved)) [
  | inl p ↦ rw (p, Switch.restore_if)
  | inr (s, p) ↦ rw (p, Switch.restore_if)
]

pub population-put_saved :
    (t now : ℕ) (e : Emulator)
    → population t (Switch.put_saved now (Switch.save_current e) e).sched ≡ population t e.sched
unfolding population Switch.put_saved
population-put_saved t now e = refl

pub population-swap_tasks :
    (t was now : ℕ) (e : Emulator)
    → population t (Switch.swap_tasks was now e).sched ≡ population t e.sched
unfolding Switch.swap_tasks
population-swap_tasks t was now e =
    population-take_saved t now (Switch.put_saved was (Switch.save_current e) e)
    ∙ population-put_saved t was e

pub population-switch_if_needed :
    (t was : ℕ) (e : Emulator)
    → population t (Switch.switch_if_needed was e).sched ≡ population t e.sched
unfolding Switch.switch_if_needed
population-switch_if_needed t was e = elim (Option-cases (Switch.current e.sched)) [
  | inl p ↦ rw (p, Switch.switch_to)
  | inr (now, p) ↦ elim (Bool-cases (now == was)) [
    | inl q ↦ rw (p, Switch.switch_to, q)
    | inr q ↦ rw (p, Switch.switch_to, q) (population-swap_tasks t was now e)
  ]
]

pub population-leave :
    (t : ℕ) (e : Emulator)
    → population t (Switch.switch_away_forever e).sched ≡ population t e.sched
unfolding Switch.switch_away_forever
population-leave t e = elim (Option-cases (Switch.current e.sched)) [
  | inl p ↦ rw (p, Switch.leave_to)
  | inr (now, p) ↦ rw (p, Switch.leave_to) (population-take_saved t now e)
]

pub sched-nothing_runnable : (e : Emulator) → (Switch.nothing_runnable e).sched ≡ e.sched
unfolding Switch.nothing_runnable trap
sched-nothing_runnable e = ground arith

pub sched-end_of_program : (e : Emulator) → (Switch.end_of_program e).0.sched ≡ e.sched
unfolding Switch.end_of_program
sched-end_of_program e = elim (Option-cases (Switch.current e.sched)) [
  | inl p ↦ rw (p, Switch.end_at) (sched-nothing_runnable e)
  | inr (now, p) ↦ rw (p, Switch.end_at)
]

pub population-finish_exit :
    (t : ℕ) (r : Emulator × Bool)
    → population t (Sched.finish_exit r).sched ≡ population t r.0.sched
population-finish_exit t (e, true) = refl
population-finish_exit t (e, false) = population-leave t e

pub population-finish_block :
    (t me : ℕ) (r : Emulator × Bool)
    → population t (Sched.finish_block me r).0.sched ≡ population t r.0.sched
population-finish_block t me (e, true) = refl
population-finish_block t me (e, false) = elim (Option-cases (Switch.current e.sched)) [
  | inl p ↦ rw (p, Sched.run_front)
  | inr (now, p) ↦
      rw (p, Sched.run_front) (population-swap_tasks t me now (record e { pc = e.pc - 1 }))
]
