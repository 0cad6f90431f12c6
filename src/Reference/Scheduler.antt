-- ===== src/Reference/Scheduler.antt =====
-- The state of the scheduler of src/reference/eval.rs and its operations.
use mani_tc.Prelude.{
  ℕ, zero, suc, ◌+◌, ◌==◌, ltb, Bool, true, false, ◌||◌, not, Option, none, some, List, [], ◌∷◌,
  ◌++◌, length, if◌then◌else◌,
}
use mani_tc.Prelude.Maps
use mani_tc.Prelude.Int.{pos}
use mani_tc.Reference.Ops.{Val, int}
use mani_tc.Reference.Comp.{Why, Comp}

-- What `Shared` has for a channel. Its five vectors grow together, in `new_channel`, so they are one
-- list of rows.
pub record Row : Type 0 where
  pub values : List Val
  pub blocked : List ℕ
  pub blocked_send : List ℕ
  pub closed : Bool
  pub cap : ℕ

-- A thread: what it has left to do, and whether it runs `main`.
pub record Task : Type 0 where
  pub is_main : Bool
  pub rest : Comp Unit

-- `Shared` and `Sched`, with the threads by their task's name.
pub record System : Type 0 where
  pub out : List ℕ
  pub budget : ℕ
  pub run : List ℕ
  pub rows : List Row
  pub trapped : Option Why
  pub stopping : Bool
  pub next_id : ℕ
  pub tasks : List (ℕ × Task)

unfoldable pub row_at : List Row → ℕ → Option Row
row_at [] c = none
row_at (r ∷ rs) zero = some r
row_at (r ∷ rs) (suc c) = row_at rs c

unfoldable pub set_row : List Row → ℕ → Row → List Row
set_row [] c row = []
set_row (r ∷ rs) zero row = row ∷ rs
set_row (r ∷ rs) (suc c) row = r ∷ set_row rs c row

abbrev pub pop_front : List ℕ → List ℕ
pop_front [] = []
pop_front (t ∷ ts) = ts

abbrev pub first : List ℕ → List ℕ
first [] = []
first (t ∷ ts) = t ∷ []

-- `g.run.remove(at)` at the first place of a task.
unfoldable pub remove_first : ℕ → List ℕ → List ℕ
remove_first id [] = []
remove_first id (t ∷ ts) = let rest = remove_first id ts in if t == id then ts else t ∷ rest

abbrev pub is_empty {ℓ} : {A : Type ℓ} → List A → Bool
is_empty [] = true
is_empty (x ∷ xs) = false

unfoldable pub any_row : (Row → Bool) → List Row → Bool
any_row p [] = false
any_row p (r ∷ rs) = p r || any_row p rs

abbrev pub deadlock : System → Option Why
deadlock g =
    if any_row (λ r. not (is_empty r.blocked_send)) g.rows
    then some Why.deadlock_drain
    else if any_row (λ r. not (is_empty r.blocked)) g.rows
    then some Why.deadlock_fill
    else g.trapped

unfoldable pub check_end : System → System
check_end g =
    if not (is_empty g.run) || g.stopping
    then g
    else record g { trapped = deadlock g; stopping = true }

abbrev pub or_why : Option Why → Why → Option Why
or_why none w = some w
or_why (some first) w = some first

unfoldable pub record_trap : Why → System → System
record_trap w g = record g { trapped = or_why g.trapped w; stopping = true }

-- The task goes on with what it has left.
unfoldable pub resume : ℕ → Bool → Comp Unit → System → System
resume id main k g = record g {
  tasks = Maps.insert id (record { is_main = main; rest = k }) g.tasks;
}

unfoldable pub finish : ℕ → System → System
finish id g = check_end (record g { run = remove_first id g.run })

unfoldable pub open_channel : ℕ → System → System
open_channel cap g = record g {
  rows =
      g.rows
      ++ record { values = []; blocked = []; blocked_send = []; closed = false; cap = cap } ∷ [];
}

unfoldable pub enqueue_new_task : Comp Unit → System → System
enqueue_new_task k g = record g {
  run = g.run ++ g.next_id ∷ [];
  next_id = g.next_id + 1;
  tasks = Maps.insert g.next_id (record { is_main = false; rest = k }) g.tasks;
}

-- What a step gives: the program is over, or goes on, or a way in which only a faulty interpreter
-- could end: an index out of range, nobody's turn, or the model's fuel used up.
pub data Outcome : Type 0 where
  panics hangs out_of_fuel : Outcome
  over goes : System → Outcome

abbrev pub has_room : Row → Bool
has_room row = if row.cap == 0 then true else ltb (length row.values) row.cap

-- `send` of a task, on the row of its channel. A task that blocks keeps its `send` before it.
abbrev pub send_on : ℕ → Bool → ℕ → Val → Comp Unit → System → Row → System
send_on id main c v k g row =
    if row.closed
    then record_trap Why.send_closed g
    else if has_room row
    then resume id main k (record g {
      rows =
          set_row g.rows c
            (record row { values = row.values ++ v ∷ []; blocked = pop_front row.blocked });
      run = g.run ++ first row.blocked;
    })
    else check_end (record g {
      run = pop_front g.run;
      rows = set_row g.rows c (record row { blocked_send = row.blocked_send ++ id ∷ [] });
    })

-- `recv` of a task.
abbrev pub recv_on : ℕ → Bool → ℕ → (Val → Comp Unit) → System → Row → List Val → System
recv_on id main c k g row (v ∷ vs) = resume id main (k v) (record g {
  rows = set_row g.rows c (record row { values = vs; blocked_send = pop_front row.blocked_send });
  run = g.run ++ first row.blocked_send;
})
recv_on id main c k g row [] =
    if row.closed
    then resume id main (k (int (pos 0))) g
    else check_end (record g {
      run = pop_front g.run;
      rows = set_row g.rows c (record row { blocked = row.blocked ++ id ∷ [] });
    })

-- `close` wakes every task that waits on the channel.
abbrev pub close_on : ℕ → System → Row → System
close_on c g row = record g {
  rows = set_row g.rows c (record row { closed = true; blocked = []; blocked_send = [] });
  run = g.run ++ (row.blocked ++ row.blocked_send);
}

abbrev pub on_row : (Row → System) → Option Row → Outcome
on_row f none = panics
on_row f (some row) = goes (f row)
