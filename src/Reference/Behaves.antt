-- ===== src/Reference/Behaves.antt =====
-- What a task of src/reference/eval.rs may do: the scheduler's side of the interface to the evaluator.
pub mod Operators
pub mod Rules
pub mod Methods
pub mod Calls
pub mod Expressions
pub mod Statements
use mani_tc.Prelude.{ℕ, zero, suc, ◌≤◌, ◌<◌, Bool, true, false, if◌then◌else◌, List, arith}
use mani_tc.Reference.Ops.{Val, Result, ok}
use mani_tc.Reference.Ops
use mani_tc.Reference.Comp.{
  Why, Abort, trap, propagate, Comp, done, abort, exhausted, tick, yield_now, emit, new_channel,
  spawn, send, recv, close, handle, ◌>>=◌,
}
use mani_tc.Reference.Rules.{lift, fail}
use mani_tc.Reference.Valid.{IsVal, IsEnv, IsVal-more, LiteralsB}
use mani_tc.Reference.Valid.Operators.{IsOk}

abbrev pub IsAbort : ℕ → Abort → Type 0
IsAbort m (trap w) = Unit
IsAbort m (propagate v) = IsVal m v

-- With a budget of n ticks and m channels, the computation does not come to the end of its fuel; it
-- uses and sends what is valid, and it ends with a value that has Q. While it waits there may be
-- more channels.
unfoldable pub Behaves : {A : Type 0} → (ℕ → A → Type 0) → ℕ → ℕ → Comp A → Type 0
Behaves Q n m (done a) = Q m a
Behaves Q n m (abort w) = IsAbort m w
Behaves Q n m exhausted = ⊥
Behaves Q zero m (tick k) = Unit
Behaves Q (suc n) m (tick k) = Behaves Q n m k
Behaves Q n m (yield_now k) = (p : ℕ) → m ≤ p → Behaves Q n p k
Behaves Q n m (emit s k) = Behaves Q n m k
Behaves Q n m (new_channel cap k) = (p c : ℕ) → m ≤ p → c < p → Behaves Q n p (k c)
Behaves Q n m (spawn b env k) = LiteralsB b × IsEnv m env × Behaves Q n m k
Behaves Q n m (send c v k) = (c < m) × IsVal m v × ((p : ℕ) → m ≤ p → Behaves Q n p k)
Behaves Q n m (recv c k) = (c < m) × ((p : ℕ) (v : Val) → m ≤ p → IsVal p v → Behaves Q n p (k v))
Behaves Q n m (close c k) = (c < m) × Behaves Q n m k

module _ {A : Type 0} (Q : ℕ → A → Type 0) where
  pub Behaves-fewer : (n m : ℕ) (c : Comp A) → Behaves Q (suc n) m c → Behaves Q n m c
  unfolding Behaves
  Behaves-fewer n m (done a) h = h
  Behaves-fewer n m (abort w) h = h
  Behaves-fewer n m exhausted h = h
  Behaves-fewer zero m (tick k) h = tt
  Behaves-fewer (suc n) m (tick k) h = Behaves-fewer n m k h
  Behaves-fewer n m (yield_now k) h = λ p le. Behaves-fewer n p k (h p le)
  Behaves-fewer n m (emit s k) h = Behaves-fewer n m k h
  Behaves-fewer n m (new_channel cap k) h = λ p c le lt. Behaves-fewer n p (k c) (h p c le lt)
  Behaves-fewer n m (spawn b env k) (lits, valid, h) = (lits, valid, Behaves-fewer n m k h)
  Behaves-fewer n m (send c v k) (lt, valid, h) = (lt, valid, λ p le. Behaves-fewer n p k (h p le))
  Behaves-fewer n m (recv c k) (lt, h) =
      (lt, λ p v le valid. Behaves-fewer n p (k v) (h p v le valid))
  Behaves-fewer n m (close c k) (lt, h) = (lt, Behaves-fewer n m k h)

module _ {A B : Type 0} (Q : ℕ → A → Type 0) (R : ℕ → B → Type 0) (f : A → Comp B)
    (g : Abort → Comp B) where
  pub Behaves-handle :
      (n m : ℕ) (c : Comp A)
      → Behaves Q n m c
      → ((p : ℕ) (a : A) → m ≤ p → Q p a → Behaves R n p (f a))
      → ((p : ℕ) (w : Abort) → m ≤ p → IsAbort p w → Behaves R n p (g w))
      → Behaves R n m (handle c f g)
  unfolding Behaves handle
  Behaves-handle n m (done a) h u w = u m a (omega arith) h
  Behaves-handle n m (abort x) h u w = w m x (omega arith) h
  Behaves-handle n m exhausted h u w = h
  Behaves-handle zero m (tick k) h u w = tt
  Behaves-handle (suc n) m (tick k) h u w =
      Behaves-handle n m k h (λ p a le q. Behaves-fewer R n p (f a) (u p a le q))
        (λ p x le q. Behaves-fewer R n p (g x) (w p x le q))
  Behaves-handle n m (yield_now k) h u w = λ p le.
      Behaves-handle n p k (h p le) (λ q a s. u q a (omega arith)) (λ q x s. w q x (omega arith))
  Behaves-handle n m (emit s k) h u w = Behaves-handle n m k h u w
  Behaves-handle n m (new_channel cap k) h u w = λ p c le lt.
      Behaves-handle n p (k c) (h p c le lt) (λ q a s. u q a (omega arith))
        (λ q x s. w q x (omega arith))
  Behaves-handle n m (spawn b env k) (lits, valid, h) u w =
      (lits, valid, Behaves-handle n m k h u w)
  Behaves-handle n m (send c v k) (lt, valid, h) u w = (
    lt,
    valid,
    λ p le.
        Behaves-handle n p k (h p le) (λ q a s. u q a (omega arith)) (λ q x s. w q x (omega arith)),
  )
  Behaves-handle n m (recv c k) (lt, h) u w = (
    lt,
    λ p v le valid.
        Behaves-handle n p (k v) (h p v le valid) (λ q a s. u q a (omega arith))
          (λ q x s. w q x (omega arith)),
  )
  Behaves-handle n m (close c k) (lt, h) u w = (lt, Behaves-handle n m k h u w)

pub Behaves-bind :
    {A B : Type 0} (Q : ℕ → A → Type 0) (R : ℕ → B → Type 0) (n m : ℕ) (c : Comp A) (f : A → Comp B)
    → Behaves Q n m c
    → ((p : ℕ) (a : A) → m ≤ p → Q p a → Behaves R n p (f a))
    → Behaves R n m (c >>= f)
unfolding Behaves
Behaves-bind Q R n m c f h u = Behaves-handle Q R f abort n m c h u (λ p w le q. q)

pub Behaves-if :
    {A : Type 0} (Q : ℕ → A → Type 0) (n m : ℕ) (b : Bool) (x y : Comp A)
    → Behaves Q n m x
    → Behaves Q n m y
    → Behaves Q n m (if b then x else y)
Behaves-if Q n m true x y h k = h
Behaves-if Q n m false x y h k = k

pub Behaves-lift :
    {A : Type 0} (P : ℕ → A → Type 0) (n m : ℕ) (r : Result A)
    → IsOk (P m) r
    → Behaves P n m (lift r)
unfolding Behaves
Behaves-lift P n m (ok a) h = h
Behaves-lift P n m (Ops.trap f) h = tt

module _ {A : Type 0} (Q : ℕ → A → Type 0) (n m : ℕ) where
  pub Behaves-done : (a : A) → Q m a → Behaves Q n m (done a)
  unfolding Behaves
  Behaves-done a h = h

  pub Behaves-fail : (w : Why) → Behaves Q n m (fail w)
  unfolding Behaves
  Behaves-fail w = tt

  pub Behaves-emit : (s : List ℕ) (k : Comp A) → Behaves Q n m k → Behaves Q n m (emit s k)
  unfolding Behaves
  Behaves-emit s k h = h
