-- ===== src/Reference/System/Valid.antt =====
-- The invariant of a program that src/reference/eval.rs runs.
pub mod Rows
use mani_tc.Prelude.{
  ℕ, ◌+◌, ◌≤◌, ◌<◌, ◌≡◌, ◌≢◌, Bool, true, false, Option, some, List, [], ◌∷◌, All, length, arith,
}
use mani_tc.Prelude.Maps
use mani_tc.Reference.Ops.{Val}
use mani_tc.Reference.Comp.{Comp}
use mani_tc.Reference.Valid.{IsVal}
use mani_tc.Reference.Behaves.{Behaves}
use mani_tc.Reference.Scheduler.{Row, Task, System, Outcome, panics, hangs, out_of_fuel, over, goes}

abbrev pub Ends : ℕ → Unit {0} → Type 0
Ends m a = Unit {0}

-- A task that has a thread.
abbrev pub Present : List (ℕ × Task) → ℕ → Type 0
Present tasks id = (t : Task) × (Maps.lookup id tasks ≡ some t)

-- A row where m channels exist: valid values, no more than the capacity, and waiting tasks that
-- have threads.
pub record IsRow (m : ℕ) (tasks : List (ℕ × Task)) (row : Row) : Type 0 where
  pub values_ok : All (IsVal m) row.values
  pub within : 0 < row.cap → length row.values ≤ row.cap
  pub receivers : All (Present tasks) row.blocked
  pub senders : All (Present tasks) row.blocked_send

pub record IsCore (fuel : ℕ) (g : System) : Type 0 where
  pub fuel_left : g.budget < fuel
  pub tasks_ok :
      (id : ℕ) (t : Task)
      → Maps.lookup id g.tasks ≡ some t
      → Behaves Ends g.budget (length g.rows) t.rest
  pub rows_ok : All (IsRow (length g.rows) g.tasks) g.rows
  pub queue_ok : All (Present g.tasks) g.run

-- A program that has not ended has a task whose turn it is.
pub record IsSystem (fuel : ℕ) (g : System) : Type 0 where
  pub core : IsCore fuel g
  pub somebody : g.stopping ≡ false → g.run ≢ []

-- A step ends where the program has ended, or keeps the invariant.
abbrev pub IsFine : ℕ → Outcome → Type 0
IsFine fuel (over g) = (g.stopping ≡ true) × IsSystem fuel g
IsFine fuel (goes g) = IsSystem fuel g
IsFine fuel panics = ⊥
IsFine fuel hangs = ⊥
IsFine fuel out_of_fuel = ⊥
