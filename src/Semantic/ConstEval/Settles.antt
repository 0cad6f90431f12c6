-- ===== src/Semantic/ConstEval/Settles.antt =====
-- What an evaluation of src/semantic/const_eval.rs leaves of its state.
use mani_tc.Prelude.{
  ℕ, suc, ◌+◌, ◌-◌, ◌==◌, ◌≤◌, ◌<◌, ◌≡◌, refl, ◌∙◌, Bool, true, false, none, some, [], ◌∷◌, length,
  if◌then◌else◌, arith,
}
use mani_tc.Prelude.Int.{ℤ}
use mani_tc.Semantic.ConstEval.{
  EvalError, Res, err, ok, Eval, Out, ◌>>=◌, step, popped, scoped, innermost_off, swallowed, kept,
  returned, declare, assign_in, beneath, Flow, normal, return,
}
use mani_tc.Semantic.ConstEval

-- A later state with no more budget, as many scopes and the same depth of calls.
pub record Follows (s t : Eval) : Type 0 where
  pub spent : t.budget ≤ s.budget
  pub scopes_kept : length t.scopes ≡ length s.scopes
  pub depth_kept : t.depth ≡ s.depth

-- The evaluation comes to an end, with an error or not, in a state that follows.
abbrev pub Settles : {A : Type 0} → Eval → Out A → Type 0
Settles s none = ⊥
Settles s (some (r, t)) = Follows s t

pub Follows-refl : (s : Eval) → Follows s s
Follows-refl s = record { spent = omega arith; scopes_kept = refl; depth_kept = refl }

pub Follows-trans : (s t u : Eval) → Follows s t → Follows t u → Follows s u
Follows-trans s t u h k = record {
  spent = omega (arith, h.spent, k.spent);
  scopes_kept = k.scopes_kept ∙ h.scopes_kept;
  depth_kept = k.depth_kept ∙ h.depth_kept;
}

pub Settles-trans : {A : Type 0} (s t : Eval) (o : Out A) → Follows s t → Settles t o → Settles s o
Settles-trans s t none h k = k
Settles-trans s t (some (r, u)) h k = Follows-trans s t u h k

pub Settles-bind :
    {A B : Type 0} (s : Eval) (o : Out A) (f : A → Eval → Out B)
    → Settles s o
    → ((a : A) (t : Eval) → Follows s t → Settles t (f a t))
    → Settles s (o >>= f)
Settles-bind s none f h k = h
Settles-bind s (some (err e, t)) f h k = h
Settles-bind s (some (ok a, t)) f h k = Settles-trans s t (f a t) h (k a t h)

pub Settles-if :
    {A : Type 0} (b : Bool) (s : Eval) (x y : Out A)
    → Settles s x
    → Settles s y
    → Settles s (if b then x else y)
Settles-if true s x y h k = h
Settles-if false s x y h k = k

-- The evaluation settles, and where it gives a value less than n is left of the budget.
abbrev pub Spends : {A : Type 0} → ℕ → Eval → Out A → Type 0
Spends n s none = ⊥
Spends n s (some (err e, t)) = Follows s t
Spends n s (some (ok a, t)) = Follows s t × (t.budget < n)

Spends-later :
    {A : Type 0} (n : ℕ) (s t : Eval) (o : Out A)
    → Follows s t
    → t.budget < n
    → Settles t o
    → Spends n s o
Spends-later n s t none h lt k = k
Spends-later n s t (some (err e, u)) h lt k = Follows-trans s t u h k
Spends-later n s t (some (ok a, u)) h lt k = (Follows-trans s t u h k, omega (arith, k.spent, lt))

pub Spends-step :
    {A : Type 0} (n : ℕ) (s : Eval) (k : Eval → Out A)
    → s.budget < suc n
    → ((t : Eval) → t.budget < n → Settles t (k t))
    → Spends n s (step s k)
Spends-step n s k lt h = spend (s.budget == 0) refl
  where
    spend :
        (b : Bool)
        → (s.budget == 0) ≡ b
        → Spends n s
            (if b then some (err ConstEval.budget, s) else k (record s { budget = s.budget - 1 }))
    spend true e = Follows-refl s
    spend false e =
        let t = record s { budget = s.budget - 1 } in
        let less : t.budget < n = ground (arith, e, lt) in
        let later : Follows s t = record {
          spent = omega arith;
          scopes_kept = refl;
          depth_kept = refl;
        } in
        Spends-later n s t (k t) later less (h t less)

pub Settles-Spends : {A : Type 0} (n : ℕ) (s : Eval) (o : Out A) → Spends n s o → Settles s o
Settles-Spends n s none h = h
Settles-Spends n s (some (err e, t)) h = h
Settles-Spends n s (some (ok a, t)) h = h.0

pub Spends-bind :
    {A B : Type 0} (n : ℕ) (s : Eval) (o : Out A) (f : A → Eval → Out B)
    → Spends n s o
    → ((a : A) (t : Eval) → t.budget < n → Settles t (f a t))
    → Settles s (o >>= f)
Spends-bind n s none f h k = h
Spends-bind n s (some (err e, t)) f h k = h
Spends-bind n s (some (ok a, t)) f h k = Settles-trans s t (f a t) h.0 (k a t h.1)

pub Settles-scoped :
    {A : Type 0} (s : Eval) (run : Eval → Out A)
    → ((t : Eval) → t.budget ≡ s.budget → Settles t (run t))
    → Settles s (scoped run s)
Settles-scoped {A = A} s run h =
    off (run (record s { scopes = [] ∷ s.scopes })) (h (record s { scopes = [] ∷ s.scopes }) refl)
  where
    off : (o : Out A) → Settles (record s { scopes = [] ∷ s.scopes }) o → Settles s (popped o)
    off none k = k
    off (some (r, t)) k = record {
      spent = k.spent;
      scopes_kept = ground (arith, k.scopes_kept);
      depth_kept = k.depth_kept;
    }

pub Settles-swallowed : (s : Eval) (o : Out ℤ) → Settles s o → Settles s (swallowed o)
Settles-swallowed s none h = h
Settles-swallowed s (some (r, t)) h = h

pub Settles-kept : (s : Eval) (o : Out ℤ) → Settles s o → Settles s (kept o)
Settles-kept s none h = h
Settles-kept s (some (err e, t)) h = h
Settles-kept s (some (ok v, t)) h = h

pub Settles-returned :
    (s t : Eval) (o : Out ℤ)
    → t.budget ≡ s.budget
    → t.depth ≡ s.depth + 1
    → Settles t o
    → Settles s (returned s o)
Settles-returned s t none b d h = h
Settles-returned s t (some (r, u)) b d h = record {
  spent = omega (arith, h.spent, b);
  scopes_kept = refl;
  depth_kept = omega (arith, h.depth_kept, d);
}
