-- ===== src/Reference/Comp.antt =====
-- What a task of src/reference/eval.rs does: the value of an evaluation, or why it stopped, after the
-- operations of the scheduler that it asks for, each with the rest of the task. The rest stands for
-- the call stack of the task's thread, which waits while other tasks run. `exhausted` is the end of
-- the model's fuel.
use Prim.Native.String.{String}
use mani_tc.Prelude.{ℕ, Bool, List}
use mani_tc.Reference.Ops.{Val, Fault}
use mani_tc.Reference.Syntax.{Stmts}

-- The traps, each with what its message names.
pub data Why : Type 0 where
  operator : Fault → Why
  not_three_valued not_a_word not_a_result no_such_method : Val → Why
  unbound immutable unbound_assignment undefined wrong_arguments not_a_channel_operation :
      String → Why
  no_value no_arm capacity_below_one unwrap_unknown unwrap_err : Why
  send_closed budget_exhausted deadlock_drain deadlock_fill : Why
  propagated_out_of_main propagated_out_of_task : Why

-- `Abort`; a cancelled task is one that the scheduler does not resume.
pub data Abort : Type 0 where
  trap : Why → Abort
  propagate : Val → Abort

-- What a scope has for a name.
pub record Slot : Type 0 where
  pub value : Val
  pub mutable : Bool

abbrev pub Scope : Type 0
Scope = List (String × Slot)

-- The scopes of a task, innermost first.
abbrev pub Env : Type 0
Env = List Scope

pub data Comp (A : Type 0) : Type 0 where
  done : A → Comp A
  abort : Abort → Comp A
  exhausted : Comp A
  tick yield_now : Comp A → Comp A
  emit : List ℕ → Comp A → Comp A
  new_channel : ℕ → (ℕ → Comp A) → Comp A
  spawn : Stmts → Env → Comp A → Comp A
  send : ℕ → Val → Comp A → Comp A
  recv : ℕ → (Val → Comp A) → Comp A
  close : ℕ → Comp A → Comp A

-- A task that goes on with f after its value and with g after an abort.
unfoldable pub handle : {A B : Type 0} → Comp A → (A → Comp B) → (Abort → Comp B) → Comp B
handle (done a) f g = f a
handle (abort w) f g = g w
handle exhausted f g = exhausted
handle (tick k) f g = tick (handle k f g)
handle (yield_now k) f g = yield_now (handle k f g)
handle (emit s k) f g = emit s (handle k f g)
handle (new_channel cap k) f g = new_channel cap (λ c. handle (k c) f g)
handle (spawn b env k) f g = spawn b env (handle k f g)
handle (send c v k) f g = send c v (handle k f g)
handle (recv c k) f g = recv c (λ v. handle (k v) f g)
handle (close c k) f g = close c (handle k f g)

-- The `?` of Rust.
infixl 5 ◌>>=◌
abbrev pub ◌>>=◌ : {A B : Type 0} → Comp A → (A → Comp B) → Comp B
m >>= f = handle m f abort
