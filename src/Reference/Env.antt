-- ===== src/Reference/Env.antt =====
-- The scopes of src/reference/eval.rs: the look-up of a variable, `let` and assignment.
use Prim.Native.String.{String}
use text.Mathlib.Text.{◌==◌ as str_eq}
use mani_tc.Prelude.{Bool, Option, none, some, List, [], ◌∷◌, if◌then◌else◌}
use mani_tc.Reference.Ops.{Val}
use mani_tc.Reference.Cast.{reshape}
use mani_tc.Reference.Comp.{Slot, Scope, Env}

-- The part of `HashMap<String, T>` that is used.
module _ {ℓ} {A : Type ℓ} where
  unfoldable pub find : String → List (String × A) → Option A
  find name [] = none
  find name ((at, found) ∷ rest) = if str_eq at name then some found else find name rest

  unfoldable pub put : String → A → List (String × A) → List (String × A)
  put name new [] = (name, new) ∷ []
  put name new ((at, old) ∷ rest) =
      if str_eq at name then (name, new) ∷ rest else (at, old) ∷ put name new rest

abbrev pub or_outside : Option Slot → Option Val → Option Val
or_outside none rest = rest
or_outside (some slot) rest = some slot.value

-- The loop of `Expr::Var`.
unfoldable pub read : String → Env → Option Val
read name [] = none
read name (scope ∷ rest) = or_outside (find name scope) (read name rest)

-- `env.last_mut().unwrap().insert(name, (v, mutable))`.
unfoldable pub declare_in : String → Val → Bool → Env → Env
declare_in name v mutable [] = []
declare_in name v mutable (scope ∷ rest) =
    put name (record { value = v; mutable = mutable }) scope ∷ rest

-- The end of an assignment.
pub data Assigned : Type 0 where
  unbound immutable : Assigned
  stored : Env → Assigned

abbrev pub outside : Scope → Assigned → Assigned
outside scope unbound = unbound
outside scope immutable = immutable
outside scope (stored rest) = stored (scope ∷ rest)

abbrev pub assign_at : String → Val → Scope → Env → Option Slot → Assigned → Assigned
assign_at name v scope rest none later = outside scope later
assign_at name v scope rest (some slot) later =
    if slot.mutable
    then stored (put name (record slot { value = reshape v slot.value }) scope ∷ rest)
    else immutable

-- The loop of `Stmt::Assign`.
unfoldable pub assign_in : String → Val → Env → Assigned
assign_in name v [] = unbound
assign_in name v (scope ∷ rest) =
    assign_at name v scope rest (find name scope) (assign_in name v rest)

-- `env.pop()`.
unfoldable pub pop : Env → Env
pop [] = []
pop (scope ∷ rest) = rest
