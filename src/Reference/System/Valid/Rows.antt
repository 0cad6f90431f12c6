-- ===== src/Reference/System/Valid/Rows.antt =====
-- Rows, queues and threads of src/reference/eval.rs under the invariant.
use mani_tc.Prelude.{
  ℕ, zero, suc, ◌≤◌, ◌<◌, ◌≡◌, refl, subst, ap, ◌∙◌, ◌==◌, Bool-cases, some, List, [], ◌∷◌, ◌++◌,
  All, length, inl, inr, arith,
}
use mathlib.Core.Option.{some-injective}
use mani_tc.Prelude.Maps
use mani_tc.Reference.Comp.{
  trap, propagate, Comp, done, abort, exhausted, tick, yield_now, emit, new_channel, spawn, send,
  recv, close,
}
use mani_tc.Reference.Valid.{IsVal, IsVal-more}
use mani_tc.Reference.Valid.Scopes.{IsEnv-more}
use mani_tc.Reference.Behaves.{Behaves}
use mani_tc.Reference.Scheduler.{Row, Task, row_at, set_row, pop_front, first}
use mani_tc.Reference.System.Valid.{Ends, Present, IsRow}

-- A task stays well behaved while channels are opened.
pub Behaves-more : (n m p : ℕ) (c : Comp Unit) → m ≤ p → Behaves Ends n m c → Behaves Ends n p c
unfolding Behaves
Behaves-more n m p (done a) le h = tt
Behaves-more n m p (abort (trap w)) le h = tt
Behaves-more n m p (abort (propagate v)) le h = IsVal-more m p v le h
Behaves-more n m p exhausted le h = h
Behaves-more zero m p (tick k) le h = tt
Behaves-more (suc n) m p (tick k) le h = Behaves-more n m p k le h
Behaves-more n m p (yield_now k) le h = λ q up. h q (omega arith)
Behaves-more n m p (emit s k) le h = Behaves-more n m p k le h
Behaves-more n m p (new_channel cap k) le h = λ q c up lt. h q c (omega arith) lt
Behaves-more n m p (spawn b env k) le (lits, valid, h) =
    (lits, IsEnv-more m p env le valid, Behaves-more n m p k le h)
Behaves-more n m p (send c v k) le (lt, valid, h) =
    (omega arith, IsVal-more m p v le valid, λ q up. h q (omega arith))
Behaves-more n m p (recv c k) le (lt, h) = (omega arith, λ q v up valid. h q v (omega arith) valid)
Behaves-more n m p (close c k) le (lt, h) = (omega arith, Behaves-more n m p k le h)

module _ {ℓ} {A : Type ℓ} (P : A → Type 0) where
  pub All-append : (xs ys : List A) → All P xs → All P ys → All P (xs ++ ys)
  All-append [] ys h k = k
  All-append (x ∷ xs) ys h k = (h.0, All-append xs ys h.1 k)

  pub All-map : (Q : A → Type 0) (xs : List A) → ((x : A) → P x → Q x) → All P xs → All Q xs
  All-map Q [] f h = tt
  All-map Q (x ∷ xs) f h = (f x h.0, All-map Q xs f h.1)

module _ (P : ℕ → Type 0) where
  pub All-pop_front : (xs : List ℕ) → All P xs → All P (pop_front xs)
  All-pop_front [] h = tt
  All-pop_front (x ∷ xs) h = h.1

  pub All-first : (xs : List ℕ) → All P xs → All P (first xs)
  All-first [] h = tt
  All-first (x ∷ xs) h = (h.0, tt)

pub length-set_row :
    (rows : List Row) (c : ℕ) (row : Row) → length (set_row rows c row) ≡ length rows
unfolding set_row
length-set_row [] c row = refl
length-set_row (r ∷ rs) zero row = refl
length-set_row (r ∷ rs) (suc c) row = ap suc (length-set_row rs c row)

pub row_at-some :
    (rows : List Row) (c : ℕ) → c < length rows → (row : Row) × (row_at rows c ≡ some row)
unfolding row_at
row_at-some [] c lt = absurd (omega arith)
row_at-some (r ∷ rs) zero lt = (r, refl)
row_at-some (r ∷ rs) (suc c) lt = row_at-some rs c (omega arith)

module _ (P : Row → Type 0) where
  pub All-row_at :
      (rows : List Row) (c : ℕ) (row : Row) → row_at rows c ≡ some row → All P rows → P row
  unfolding row_at
  All-row_at [] c row e h = cc
  All-row_at (r ∷ rs) zero row e h = subst P (some-injective r row e) h.0
  All-row_at (r ∷ rs) (suc c) row e h = All-row_at rs c row e h.1

  pub All-set_row :
      (rows : List Row) (c : ℕ) (row : Row) → P row → All P rows → All P (set_row rows c row)
  unfolding set_row
  All-set_row [] c row p h = tt
  All-set_row (r ∷ rs) zero row p h = (p, h.1)
  All-set_row (r ∷ rs) (suc c) row p h = (h.0, All-set_row rs c row p h.1)

-- A thread stays where another entry is written.
pub Present-insert :
    (tasks : List (ℕ × Task)) (key id : ℕ) (t : Task)
    → Present tasks id
    → Present (Maps.insert key t tasks) id
Present-insert tasks key id t (old, e) = elim (Bool-cases (key == id)) [
  | inl same ↦ (t, Maps.lookup-insert key id t tasks ∙ (rw same))
  | inr other ↦ (old, Maps.lookup-insert key id t tasks ∙ (rw other) ∙ e)
]

pub IsRow-more :
    (m p : ℕ) (tasks tasks' : List (ℕ × Task)) (row : Row)
    → m ≤ p
    → ((id : ℕ) → Present tasks id → Present tasks' id)
    → IsRow m tasks row
    → IsRow p tasks' row
IsRow-more m p tasks tasks' row le keep h = record {
  values_ok = All-map (IsVal m) (IsVal p) row.values (λ v k. IsVal-more m p v le k) h.values_ok;
  within = h.within;
  receivers = All-map (Present tasks) (Present tasks') row.blocked keep h.receivers;
  senders = All-map (Present tasks) (Present tasks') row.blocked_send keep h.senders;
}
