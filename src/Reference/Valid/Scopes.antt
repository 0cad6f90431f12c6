-- ===== src/Reference/Valid/Scopes.antt =====
-- The scopes of src/reference/eval.rs with valid values.
use Prim.Native.String.{String}
use text.Mathlib.Text.{◌==◌ as str_eq}
use mani_tc.Prelude.{ℕ, ◌≤◌, Bool, true, false, Option, none, some, [], ◌∷◌, if◌then◌else◌}
use mani_tc.Reference.Ops.{Val}
use mani_tc.Reference.Cast.{reshape}
use mani_tc.Reference.Comp.{Slot, Scope, Env}
use mani_tc.Reference.Env.{
  find, put, or_outside, read, declare_in, Assigned, unbound, immutable, stored, outside, assign_at,
  assign_in, pop,
}
use mani_tc.Reference.Valid.{IsVal, IsScope, IsEnv, IsVal-more}
use mani_tc.Reference.Valid.Casts.{reshape-IsVal}

IsScope-more : (m n : ℕ) (scope : Scope) → m ≤ n → IsScope m scope → IsScope n scope
IsScope-more m n [] le h = tt
IsScope-more m n (entry ∷ rest) le h =
    (IsVal-more m n entry.1.value le h.0, IsScope-more m n rest le h.1)

pub IsEnv-more : (m n : ℕ) (env : Env) → m ≤ n → IsEnv m env → IsEnv n env
IsEnv-more m n [] le h = tt
IsEnv-more m n (scope ∷ rest) le h = (IsScope-more m n scope le h.0, IsEnv-more m n rest le h.1)

abbrev pub IsFound {ℓ} : {A : Type ℓ} → (A → Type 0) → Option A → Type 0
IsFound P none = Unit
IsFound P (some a) = P a

module _ (m : ℕ) where
  find-IsVal :
      (name : String) (scope : Scope)
      → IsScope m scope
      → IsFound (λ slot. IsVal m slot.value) (find name scope)
  unfolding find
  find-IsVal name [] h = tt
  find-IsVal name ((at, slot) ∷ rest) h =
      either (str_eq at name) slot (find name rest) h.0 (find-IsVal name rest h.1)
    where
      either :
          (b : Bool) (slot : Slot) (later : Option Slot)
          → IsVal m slot.value
          → IsFound (λ slot. IsVal m slot.value) later
          → IsFound (λ slot. IsVal m slot.value) (if b then some slot else later)
      either true slot later p q = p
      either false slot later p q = q

  pub put-IsScope :
      (name : String) (slot : Slot) (scope : Scope)
      → IsVal m slot.value
      → IsScope m scope
      → IsScope m (put name slot scope)
  unfolding put
  put-IsScope name slot [] v h = (v, tt)
  put-IsScope name slot ((at, old) ∷ rest) v h =
      either (str_eq at name) _ _ (v, h.1) (h.0, put-IsScope name slot rest v h.1)
    where
      either : (b : Bool) (x y : Scope) → IsScope m x → IsScope m y → IsScope m (if b then x else y)
      either true x y p q = p
      either false x y p q = q

  pub read-IsVal : (name : String) (env : Env) → IsEnv m env → IsFound (IsVal m) (read name env)
  unfolding read
  read-IsVal name [] h = tt
  read-IsVal name (scope ∷ rest) h =
      here (find name scope) (read name rest) (find-IsVal name scope h.0) (read-IsVal name rest h.1)
    where
      here :
          (slot : Option Slot) (later : Option Val)
          → IsFound (λ slot. IsVal m slot.value) slot
          → IsFound (IsVal m) later
          → IsFound (IsVal m) (or_outside slot later)
      here none later p q = q
      here (some slot) later p q = p

  pub declare_in-IsEnv :
      (name : String) (v : Val) (mutable : Bool) (env : Env)
      → IsVal m v
      → IsEnv m env
      → IsEnv m (declare_in name v mutable env)
  unfolding declare_in
  declare_in-IsEnv name v mutable [] p h = tt
  declare_in-IsEnv name v mutable (scope ∷ rest) p h = (put-IsScope name _ scope p h.0, h.1)

  abbrev pub IsStored : Assigned → Type 0
  IsStored unbound = Unit
  IsStored immutable = Unit
  IsStored (stored env) = IsEnv m env

  pub assign_in-IsEnv :
      (name : String) (v : Val) (env : Env)
      → IsVal m v
      → IsEnv m env
      → IsStored (assign_in name v env)
  unfolding assign_in
  assign_in-IsEnv name v [] p h = tt
  assign_in-IsEnv name v (scope ∷ rest) p h =
      here (find name scope) (assign_in name v rest) (assign_in-IsEnv name v rest p h.1)
    where
      outer : (later : Assigned) → IsStored later → IsStored (outside scope later)
      outer unbound q = tt
      outer immutable q = tt
      outer (stored env) q = (h.0, q)

      either : (b : Bool) (x : Env) → IsEnv m x → IsStored (if b then stored x else immutable)
      either true x q = q
      either false x q = tt

      here :
          (slot : Option Slot) (later : Assigned)
          → IsStored later
          → IsStored (assign_at name v scope rest slot later)
      here none later q = outer later q
      here (some slot) later q = either slot.mutable _ (
        put-IsScope name (record slot { value = reshape v slot.value }) scope
            (reshape-IsVal m v slot.value p) h.0,
        h.1,
      )

  pub pop-IsEnv : (env : Env) → IsEnv m env → IsEnv m (pop env)
  unfolding pop
  pop-IsEnv [] h = tt
  pop-IsEnv (scope ∷ rest) h = h.1
