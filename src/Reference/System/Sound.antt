-- ===== src/Reference/System/Sound.antt =====
-- The invariant of src/reference/eval.rs as a test of what `run_with` gives.
use mani_tc.Prelude.{
  ℕ, suc, ◌==◌, leb, ◌≤◌, ◌<◌, ◌≡◌, ◌≢◌, refl, Bool, true, false, ◌&&◌, ◌||◌, not, List, [], ◌∷◌,
  All, length, arith,
}
use mani_tc.Prelude.Int.{ℤ, pos_part, neg_part, abs_ℕ}
use mani_tc.Isa.Word.{t3_bound, IsWord, IsTrit}
use mani_tc.Reference.Ops.{
  Lang, Val, int, trit, bool3, bool, res, text, chan, Payload, absent, present,
}
use mani_tc.Reference.Syntax.{Fn}
use mani_tc.Reference.Valid.{IsVal, IsPayload, LiteralsF}
use mani_tc.Reference.System.{Observed, duplicate_function, no_main, ran, run_with, step_budget}
use mani_tc.Reference.Scheduler.{
  Row, Task, System, is_empty, Outcome, panics, hangs, out_of_fuel, over, goes,
}
use mani_tc.Reference.System.Valid.{IsRow, IsSystem, IsFine}
use mani_tc.Reference.System.Runs.{IsObserved, run_with-IsObserved}

abbrev pub is_word : ℤ → Bool
is_word v = leb (pos_part v) t3_bound && leb (neg_part v) t3_bound

abbrev pub is_trit : ℤ → Bool
is_trit t = leb (abs_ℕ t) 1

-- A value in its range; a channel that exists where there are m.
unfoldable mutual
  pub is_val : ℕ → Val → Bool
  is_val m (int n) = is_word n
  is_val m (trit t) = is_trit t
  is_val m (bool3 t) = is_trit t
  is_val m (bool b) = true
  is_val m (res tag p msg) = is_trit tag && is_payload m p
  is_val m (text s) = true
  is_val m (chan c) = leb (suc c) m

  pub is_payload : ℕ → Payload → Bool
  is_payload m absent = true
  is_payload m (present v) = is_val m v

unfoldable pub are_vals : ℕ → List Val → Bool
are_vals m [] = true
are_vals m (v ∷ vs) = is_val m v && are_vals m vs

-- Valid values, and no more than the capacity.
unfoldable pub is_row : ℕ → Row → Bool
is_row m row = are_vals m row.values && (row.cap == 0 || leb (length row.values) row.cap)

unfoldable pub are_rows : ℕ → List Row → Bool
are_rows m [] = true
are_rows m (r ∷ rs) = is_row m r && are_rows m rs

-- Valid channels, and a task in the run queue unless the program has ended.
unfoldable pub is_sound : System → Bool
is_sound g = are_rows (length g.rows) g.rows && (g.stopping || not (is_empty g.run))

-- An end of the program or a state from which it goes on, which is sound.
unfoldable pub sound_outcome : Outcome → Bool
sound_outcome (over g) = g.stopping && is_sound g
sound_outcome (goes g) = is_sound g
sound_outcome panics = false
sound_outcome hangs = false
sound_outcome out_of_fuel = false

unfoldable pub sound_observed : Observed → Bool
sound_observed (duplicate_function name) = true
sound_observed no_main = true
sound_observed (ran o) = sound_outcome o

pub both : (a b : Bool) → a ≡ true → b ≡ true → (a && b) ≡ true
both a b h k = ground arith

is_word_lem : (v : ℤ) → IsWord v → is_word v ≡ true
is_word_lem v h = ground arith

is_trit_lem : (t : ℤ) → IsTrit t → is_trit t ≡ true
is_trit_lem t h = ground arith

mutual
  unfolding IsVal is_val

  pub is_val_lem : (m : ℕ) (v : Val) → IsVal m v → is_val m v ≡ true
  is_val_lem m (int n) h = is_word_lem n h
  is_val_lem m (trit t) h = is_trit_lem t h
  is_val_lem m (bool3 t) h = is_trit_lem t h
  is_val_lem m (bool b) h = refl
  is_val_lem m (res tag p msg) h = both _ _ (is_trit_lem tag h.0) (is_payload_lem m p h.1)
  is_val_lem m (text s) h = refl
  is_val_lem m (chan c) h = ground arith

  is_payload_lem : (m : ℕ) (p : Payload) → IsPayload m p → is_payload m p ≡ true
  is_payload_lem m absent h = refl
  is_payload_lem m (present v) h = is_val_lem m v h

are_vals_lem : (m : ℕ) (vs : List Val) → All (IsVal m) vs → are_vals m vs ≡ true
unfolding are_vals
are_vals_lem m [] h = refl
are_vals_lem m (v ∷ vs) h = both _ _ (is_val_lem m v h.0) (are_vals_lem m vs h.1)

capacity_lem : (cap n : ℕ) → (0 < cap → n ≤ cap) → (cap == 0 || leb n cap) ≡ true
capacity_lem cap n h = ground arith

are_rows_lem :
    (m : ℕ) (tasks : List (ℕ × Task)) (rows : List Row)
    → All (IsRow m tasks) rows
    → are_rows m rows ≡ true
unfolding are_rows is_row
are_rows_lem m tasks [] h = refl
are_rows_lem m tasks (r ∷ rs) h =
    both _ _
      (both _ _ (are_vals_lem m r.values h.0.values_ok)
        (capacity_lem r.cap (length r.values) h.0.within))
      (are_rows_lem m tasks rs h.1)

somebody_lem : (b : Bool) (run : List ℕ) → (b ≡ false → run ≢ []) → (b || not (is_empty run)) ≡ true
somebody_lem true run h = refl
somebody_lem false [] h = absurd (h refl refl)
somebody_lem false (id ∷ ids) h = refl

is_sound_lem : (fuel : ℕ) (g : System) → IsSystem fuel g → is_sound g ≡ true
unfolding is_sound
is_sound_lem fuel g h =
    both _ _ (are_rows_lem (length g.rows) g.tasks g.rows h.core.rows_ok)
      (somebody_lem g.stopping g.run h.somebody)

sound_outcome_lem : (fuel : ℕ) (o : Outcome) → IsFine fuel o → sound_outcome o ≡ true
unfolding sound_outcome
sound_outcome_lem fuel (over g) h = both _ _ h.0 (is_sound_lem fuel g h.1)
sound_outcome_lem fuel (goes g) h = is_sound_lem fuel g h
sound_outcome_lem fuel panics h = absurd h
sound_outcome_lem fuel hangs h = absurd h
sound_outcome_lem fuel out_of_fuel h = absurd h

sound_observed_lem : (fuel : ℕ) (o : Observed) → IsObserved fuel o → sound_observed o ≡ true
unfolding sound_observed
sound_observed_lem fuel (duplicate_function name) h = refl
sound_observed_lem fuel no_main h = refl
sound_observed_lem fuel (ran o) h = sound_outcome_lem fuel o h

-- After any number of steps, a program whose trit literals are trits has been refused, or has ended, or
-- can go on: no channel was used that is not there, some task has the turn, and the evaluator's fuel,
-- one more than the budget of steps, is not used up; every value in a channel is in its range, and no
-- channel holds more than its capacity.
pub sound_observed-run_with :
    (lang : Lang) (fns : List Fn) (n : ℕ)
    → LiteralsF fns
    → sound_observed (run_with lang fns n) ≡ true
sound_observed-run_with lang fns n l =
    sound_observed_lem (suc step_budget) (run_with lang fns n) (run_with-IsObserved lang fns n l)
