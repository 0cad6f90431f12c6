-- ===== src/Emulator/Invariant/Sched.antt =====
-- The well-formedness of the machine under the scheduler, src/codegen_t3/emulator/sched.rs.
use mathlib.Core.Path.{subst}
use mathlib.Core.Option.{some-injective}
use mani_tc.Prelude.{
  ℕ, zero, suc, ◌+◌, ◌≡◌, refl, inl, inr, Bool, Bool-cases, Option-cases, Option, none, some, List,
  [], ◌∷◌, All, true, false, arith, ◌==◌, if◌then◌else◌,
}
use mani_tc.Prelude.Int.{ℤ}
use mani_tc.Prelude.Maps.{lookup, remove, lookup-insert, lookup-remove}
use mani_tc.Isa.Word.{IsWord}
use mani_tc.Emulator.State.{
  SavedTask, Sched, Emulator, deadlock_await, deadlock_drain, deadlock_fill,
}
use mani_tc.Emulator.Switch
use mani_tc.Emulator.Sched
use mani_tc.Emulator.Invariant.{
  RegsOk, TaskOk, IsValid, update-IsWord, update-RegsOk, trap-IsValid, with_regs-IsValid,
  if-IsValid,
}

read_window-IsWord :
    (mem : ℕ → ℤ) (n sp : ℕ) → ((a : ℕ) → IsWord (mem a)) → All IsWord (Switch.read_window mem n sp)
unfolding Switch.read_window
read_window-IsWord mem zero sp h = tt
read_window-IsWord mem (suc n) sp h = (h sp, read_window-IsWord mem n (sp + 1) h)

write_window-IsWord :
    (mem : ℕ → ℤ) (sp : ℕ) (vs : List ℤ)
    → ((a : ℕ) → IsWord (mem a))
    → All IsWord vs
    → (a : ℕ) → IsWord (Switch.write_window mem sp vs a)
unfolding Switch.write_window
write_window-IsWord mem sp [] h w = h
write_window-IsWord mem sp (v ∷ vs) h (w, ws) =
    update-IsWord (Switch.write_window mem (sp + 1) vs) sp v
      (write_window-IsWord mem (sp + 1) vs h ws) w

save_current-TaskOk : (e : Emulator) → IsValid e → TaskOk (Switch.save_current e)
unfolding Switch.save_current
save_current-TaskOk e v = (v.regs_ok, read_window-IsWord e.memory _ _ v.memory_ok)

-- A change of the scheduler that keeps the saved tasks and main's exit value.
with_sched-IsValid :
    (s : Sched) (e : Emulator)
    → s.saved ≡ e.sched.saved
    → s.main_exit ≡ e.sched.main_exit
    → IsValid e
    → IsValid (record e { sched = s })
with_sched-IsValid s e p q v = record {
  regs_ok = v.regs_ok;
  memory_ok = v.memory_ok;
  flags_ok = v.flags_ok;
  saved_ok = λ t x h. v.saved_ok t x (rw (← p) h);
  exit_ok = λ c h. v.exit_ok c (rw (← q) h);
}

restore-IsValid :
    (t : SavedTask) (e : Emulator) → TaskOk t → IsValid e → IsValid (Switch.restore t e)
unfolding Switch.restore
restore-IsValid t e h v = record {
  regs_ok = h.0;
  memory_ok = write_window-IsWord e.memory _ t.stack v.memory_ok h.1;
  flags_ok = v.flags_ok;
  saved_ok = v.saved_ok;
  exit_ok = v.exit_ok;
}

remove-IsValid :
    (k : ℕ) (e : Emulator)
    → IsValid e
    → IsValid (record e { sched = record (e.sched) { saved = remove k e.sched.saved } })
remove-IsValid k e v = record {
  regs_ok = v.regs_ok;
  memory_ok = v.memory_ok;
  flags_ok = v.flags_ok;
  saved_ok = λ t s h. v.saved_ok t s (ground (arith, lookup-remove k t e.sched.saved));
  exit_ok = v.exit_ok;
}

take_saved-IsValid : (now : ℕ) (e : Emulator) → IsValid e → IsValid (Switch.take_saved now e)
unfolding Switch.take_saved
take_saved-IsValid now e v = elim (Option-cases (lookup now e.sched.saved)) [
  | inl p ↦ rw (p, Switch.restore_if) (remove-IsValid now e v)
  | inr (t, p) ↦
      rw (p, Switch.restore_if) (restore-IsValid t _ (v.saved_ok now t p) (remove-IsValid now e v))
]

put_saved-IsValid :
    (id : ℕ) (t : SavedTask) (e : Emulator)
    → TaskOk t
    → IsValid e
    → IsValid (Switch.put_saved id t e)
unfolding Switch.put_saved
put_saved-IsValid id t e h v = record {
  regs_ok = v.regs_ok;
  memory_ok = v.memory_ok;
  flags_ok = v.flags_ok;
  saved_ok = λ k s p. elim (Bool-cases (id == k)) [
    | inl b ↦ subst TaskOk (some-injective t s (rw (lookup-insert, b) at p)) h
    | inr b ↦ v.saved_ok k s (rw (lookup-insert, b) at p)
  ];
  exit_ok = v.exit_ok;
}

swap_tasks-IsValid :
    (was now : ℕ) (e : Emulator) → IsValid e → IsValid (Switch.swap_tasks was now e)
unfolding Switch.swap_tasks
swap_tasks-IsValid was now e v =
    take_saved-IsValid now _ (put_saved-IsValid was _ e (save_current-TaskOk e v) v)

switch_if_needed-IsValid :
    (was : ℕ) (e : Emulator) → IsValid e → IsValid (Switch.switch_if_needed was e)
unfolding Switch.switch_if_needed
switch_if_needed-IsValid was e v = elim (Option-cases (Switch.current e.sched)) [
  | inl p ↦ rw (p, Switch.switch_to) v
  | inr (now, p) ↦
      rw (p, Switch.switch_to) (if-IsValid (now == was) v (swap_tasks-IsValid was now e v))
]

switch_away-IsValid : (e : Emulator) → IsValid e → IsValid (Switch.switch_away_forever e)
unfolding Switch.switch_away_forever
switch_away-IsValid e v = elim (Option-cases (Switch.current e.sched)) [
  | inl p ↦ rw (p, Switch.leave_to) v
  | inr (now, p) ↦ rw (p, Switch.leave_to) (take_saved-IsValid now e v)
]

pub halt-IsValid : (e : Emulator) → IsValid e → IsValid (record e { halted = true })
halt-IsValid e v = record {
  regs_ok = v.regs_ok;
  memory_ok = v.memory_ok;
  flags_ok = v.flags_ok;
  saved_ok = v.saved_ok;
  exit_ok = v.exit_ok;
}

exit_code-RegsOk :
    (o : Option ℤ) (e : Emulator)
    → e.sched.main_exit ≡ o
    → IsValid e
    → RegsOk (Switch.exit_code o e.regs)
exit_code-RegsOk none e p v = v.regs_ok
exit_code-RegsOk (some c) e p v = update-RegsOk e.regs 1 c v.regs_ok (v.exit_ok c p) refl

end_of_program-IsValid : (e : Emulator) → IsValid e → IsValid (Switch.end_of_program e).0
unfolding Switch.end_of_program Switch.nothing_runnable
end_of_program-IsValid e v = elim (Option-cases (Switch.current e.sched)) [
  | inr (now, p) ↦ rw (p, Switch.end_at) v
  | inl p ↦
      rw (p, Switch.end_at)
        (if-IsValid (Switch.anyone_awaiting e.sched) (trap-IsValid deadlock_await v) (
          if-IsValid (Switch.anyone_blocked e.sched)
            (if-IsValid (Switch.any_waiting e.sched.blocked_send) (trap-IsValid deadlock_drain v)
              (trap-IsValid deadlock_fill v))
            (halt-IsValid _ (with_regs-IsValid _ (exit_code-RegsOk e.sched.main_exit e refl v) v))))
]

finish_exit-IsValid : (r : Emulator × Bool) → IsValid r.0 → IsValid (Sched.finish_exit r)
finish_exit-IsValid (e, true) v = v
finish_exit-IsValid (e, false) v = switch_away-IsValid e v

main_exit-IsWord :
    (b : Bool) (e : Emulator) (c : ℤ)
    → IsValid e
    → (if b then some (e.regs 1) else e.sched.main_exit) ≡ some c
    → IsWord c
main_exit-IsWord true e c v p = subst IsWord (some-injective (e.regs 1) c p) (v.regs_ok.0 1)
main_exit-IsWord false e c v p = v.exit_ok c p

exit_head-IsValid : (o : Option ℕ) (e : Emulator) → IsValid e → IsValid (Sched.exit_head o e)
exit_head-IsValid none e v = halt-IsValid e v
exit_head-IsValid (some me) e v = finish_exit-IsValid _ (
    end_of_program-IsValid _ (record {
      regs_ok = v.regs_ok;
      memory_ok = v.memory_ok;
      flags_ok = v.flags_ok;
      saved_ok = v.saved_ok;
      exit_ok = λ c p. main_exit-IsWord (me == 0) e c v p;
    }))

pub sched_task_exit-IsValid : (e : Emulator) → IsValid e → IsValid (Sched.sched_task_exit e)
unfolding Sched.sched_task_exit
sched_task_exit-IsValid e v =
    if-IsValid _ (exit_head-IsValid (Switch.current e.sched) e v) (halt-IsValid e v)

yield_head-IsValid : (o : Option ℕ) (e : Emulator) → IsValid e → IsValid (Sched.yield_head o e)
yield_head-IsValid none e v = v
yield_head-IsValid (some was) e v =
    switch_if_needed-IsValid was _ (with_sched-IsValid _ e refl refl v)

pub sched_yield-IsValid : (e : Emulator) → IsValid e → IsValid (Sched.sched_yield e)
unfolding Sched.sched_yield
sched_yield-IsValid e v = if-IsValid _ (yield_head-IsValid (Switch.current e.sched) e v) v
