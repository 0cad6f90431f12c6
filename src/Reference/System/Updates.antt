-- ===== src/Reference/System/Updates.antt =====
-- What the scheduler of src/reference/eval.rs does to the state of a program, one update at a time.
use mani_tc.Prelude.{
  ℕ, suc, ◌+◌, ◌==◌, ==_iff, ◌≡◌, ◌≢◌, refl, sym, subst, ap, ◌∙◌, Bool, true, false, ◌||◌, not,
  Bool-cases, some, List, [], ◌∷◌, ◌++◌, All, length, length-append, if◌then◌else◌, inl, inr, arith,
}
use mathlib.Core.Option.{some-injective}
use mani_tc.Prelude.Maps
use mani_tc.Reference.Comp.{Why, Comp}
use mani_tc.Reference.Behaves.{Behaves, Behaves-fewer}
use mani_tc.Reference.Scheduler.{
  Row, Task, System, set_row, remove_first, is_empty, deadlock, check_end, record_trap, resume,
  finish, open_channel, enqueue_new_task,
}
use mani_tc.Reference.System.Valid.{Ends, Present, IsRow, IsCore, IsSystem}
use mani_tc.Reference.System.Valid.Rows.{
  Behaves-more, All-append, All-map, length-set_row, All-set_row, Present-insert, IsRow-more,
}

module _ (fuel : ℕ) where
  pub stopping-IsSystem : (g : System) → IsCore fuel g → g.stopping ≡ true → IsSystem fuel g
  stopping-IsSystem g h e = record { core = h; somebody = λ f. cc (e, f) }

  pub at_work-IsSystem : (g : System) → IsCore fuel g → g.run ≢ [] → IsSystem fuel g
  at_work-IsSystem g h w = record { core = h; somebody = λ f. w }

  pub check_end-IsSystem : (g : System) → IsCore fuel g → IsSystem fuel (check_end g)
  unfolding check_end
  check_end-IsSystem g h = cases g.run g.stopping refl refl
    where
      cases :
          (run : List ℕ) (b : Bool)
          → g.run ≡ run
          → g.stopping ≡ b
          → IsSystem fuel (
              if not (is_empty run) || b
              then g
              else record g { trapped = deadlock g; stopping = true })
      cases [] true e f = stopping-IsSystem g h f
      cases [] false e f = record {
        core = record {
          fuel_left = h.fuel_left;
          tasks_ok = h.tasks_ok;
          rows_ok = h.rows_ok;
          queue_ok = h.queue_ok;
        };
        somebody = λ f. cc f;
      }
      cases (id ∷ ids) b e f = at_work-IsSystem g h (λ empty. cc (e, empty))

  pub record_trap-IsSystem :
      (w : Why) (g : System) → IsCore fuel g → IsSystem fuel (record_trap w g)
  unfolding record_trap
  record_trap-IsSystem w g h = record {
    core = record {
      fuel_left = h.fuel_left;
      tasks_ok = h.tasks_ok;
      rows_ok = h.rows_ok;
      queue_ok = h.queue_ok;
    };
    somebody = λ f. cc f;
  }

  pub tasks-insert :
      (g : System) (key : ℕ) (new : Task)
      → IsCore fuel g
      → Behaves Ends g.budget (length g.rows) new.rest
      → IsCore fuel (record g { tasks = Maps.insert key new g.tasks })
  tasks-insert g key new h k = record {
    fuel_left = h.fuel_left;
    tasks_ok = λ id t e. elim (Bool-cases (key == id)) [
      | inl same ↦
          subst (λ x. Behaves Ends g.budget (length g.rows) x.rest)
            (some-injective new t (sym (Maps.lookup-insert key id new g.tasks ∙ (rw same)) ∙ e)) k
      | inr other ↦ h.tasks_ok id t (sym (Maps.lookup-insert key id new g.tasks ∙ (rw other)) ∙ e)
    ];
    rows_ok =
        All-map (IsRow (length g.rows) g.tasks) _ g.rows
          (λ row r.
            IsRow-more (length g.rows) (length g.rows) g.tasks _ row (omega arith)
              (λ id p. Present-insert g.tasks key id new p) r)
          h.rows_ok;
    queue_ok =
        All-map (Present g.tasks) _ g.run (λ id p. Present-insert g.tasks key id new p) h.queue_ok;
  }

  pub resume-IsSystem :
      (id : ℕ) (main : Bool) (k : Comp Unit) (g : System)
      → IsCore fuel g
      → g.run ≢ []
      → Behaves Ends g.budget (length g.rows) k
      → IsSystem fuel (resume id main k g)
  unfolding resume
  resume-IsSystem id main k g h w b =
      at_work-IsSystem _ (tasks-insert g id (record { is_main = main; rest = k }) h b) w

  pub with_run :
      (g : System) (run : List ℕ)
      → IsCore fuel g
      → All (Present g.tasks) run
      → IsCore fuel (record g { run = run })
  with_run g run h p = record {
    fuel_left = h.fuel_left;
    tasks_ok = h.tasks_ok;
    rows_ok = h.rows_ok;
    queue_ok = p;
  }

  pub with_row :
      (g : System) (c : ℕ) (row : Row)
      → IsCore fuel g
      → IsRow (length g.rows) g.tasks row
      → IsCore fuel (record g { rows = set_row g.rows c row })
  with_row g c row h r =
      let same = length-set_row g.rows c row in
      record {
        fuel_left = h.fuel_left;
        tasks_ok =
            λ id t e. subst (λ n. Behaves Ends g.budget n t.rest) (sym same) (h.tasks_ok id t e);
        rows_ok =
            subst (λ n. All (IsRow n g.tasks) (set_row g.rows c row)) (sym same)
              (All-set_row (IsRow (length g.rows) g.tasks) g.rows c row r h.rows_ok);
        queue_ok = h.queue_ok;
      }

  pub remove_first-Present :
      (tasks : List (ℕ × Task)) (id : ℕ) (run : List ℕ)
      → All (Present tasks) run
      → All (Present tasks) (remove_first id run)
  unfolding remove_first
  remove_first-Present tasks id [] h = tt
  remove_first-Present tasks id (t ∷ ts) h =
      either (t == id) ts (t ∷ remove_first id ts) h.1 (h.0, remove_first-Present tasks id ts h.1)
    where
      either :
          (b : Bool) (x y : List ℕ)
          → All (Present tasks) x
          → All (Present tasks) y
          → All (Present tasks) (if b then x else y)
      either true x y p q = p
      either false x y p q = q

  pub finish-IsSystem : (id : ℕ) (g : System) → IsCore fuel g → IsSystem fuel (finish id g)
  unfolding finish
  finish-IsSystem id g h =
      check_end-IsSystem _
        (with_run g (remove_first id g.run) h (remove_first-Present g.tasks id g.run h.queue_ok))

  -- A tick of the budget.
  pub with_budget :
      (g : System) (b : ℕ)
      → g.budget ≡ suc b
      → IsCore fuel g
      → IsCore fuel (record g { budget = b })
  with_budget g b e h = record {
    fuel_left = omega (arith, e, h.fuel_left);
    tasks_ok = λ id t f.
        Behaves-fewer Ends b (length g.rows) t.rest
          (subst (λ n. Behaves Ends n (length g.rows) t.rest) e (h.tasks_ok id t f));
    rows_ok = h.rows_ok;
    queue_ok = h.queue_ok;
  }

  pub open_channel-IsCore :
      (cap : ℕ) (g : System) → IsCore fuel g → IsCore fuel (open_channel cap g)
  unfolding open_channel
  open_channel-IsCore cap g h =
      let new : Row = record {
        values = [];
        blocked = [];
        blocked_send = [];
        closed = false;
        cap = cap;
      } in
      let more : length (g.rows ++ new ∷ []) ≡ length g.rows + 1 =
        length-append g.rows (new ∷ []) in
      record {
        fuel_left = h.fuel_left;
        tasks_ok = λ id t e.
            Behaves-more g.budget (length g.rows) _ t.rest (omega (arith, more))
              (h.tasks_ok id t e);
        rows_ok =
            All-append _ g.rows (new ∷ [])
              (All-map (IsRow (length g.rows) g.tasks) _ g.rows
                (λ row r.
                  IsRow-more (length g.rows) _ g.tasks g.tasks row (omega (arith, more)) (λ id p. p)
                    r)
                h.rows_ok)
              (
                record { values_ok = tt; within = λ p. omega arith; receivers = tt; senders = tt },
                tt,
              );
        queue_ok = h.queue_ok;
      }

  pub enqueue-IsCore :
      (k : Comp Unit) (g : System)
      → IsCore fuel g
      → Behaves Ends g.budget (length g.rows) k
      → IsCore fuel (enqueue_new_task k g)
  unfolding enqueue_new_task
  enqueue-IsCore k g h b =
      let new : Task = record { is_main = false; rest = k } in
      let added = tasks-insert g g.next_id new h b in
      record {
        fuel_left = h.fuel_left;
        tasks_ok = added.tasks_ok;
        rows_ok = added.rows_ok;
        queue_ok =
            All-append (Present (Maps.insert g.next_id new g.tasks)) g.run (g.next_id ∷ [])
              added.queue_ok
              (
                (
                  new,
                  Maps.lookup-insert g.next_id g.next_id new g.tasks
                      ∙ ap (λ b. if b then some new else Maps.lookup g.next_id g.tasks)
                          ((==_iff g.next_id g.next_id).1 refl),
                ),
                tt,
              );
      }
