-- ===== src/Reference/System/Alone.antt =====
-- One evaluation of src/reference/eval.rs by itself, with the values that it receives given.
use mani_tc.Prelude.{ℕ, zero, suc, ◌<◌, ◌≤◌, leb, ◌≡◌, refl, Bool, true, false, ◌&&◌, List, arith}
use mani_tc.Reference.Ops.{Lang, Val}
use mani_tc.Reference.Syntax.{Expr, Fn}
use mani_tc.Reference.Comp.{
  Abort, trap, propagate, Env, Comp, done, abort, exhausted, tick, yield_now, emit, new_channel,
  spawn, send, recv, close,
}
use mani_tc.Reference.Eval.{evaluator}
use mani_tc.Reference.Valid.{IsVal, IsEnv, LiteralsE, LiteralsF, IsVal-more}
use mani_tc.Reference.Behaves.{Behaves, IsAbort}
use mani_tc.Reference.Behaves.Rules.{ValEnv}
use mani_tc.Reference.Behaves.Statements.{expr-Behaves}
use mani_tc.Reference.System.Sound.{is_val, is_val_lem, both}

abbrev pub is_abort : ℕ → Abort → Bool
is_abort m (trap w) = true
is_abort m (propagate v) = is_val m v

module _ (ask : ℕ → Val) where
  -- On a budget of n ticks and with m channels: every value that is sent or given back is valid, every
  -- channel used exists, and the fuel is not used up. The i-th value received is `ask i`.
  unfoldable pub sound_alone : ℕ → ℕ → ℕ → Comp (Val × Env) → Bool
  sound_alone i n m (done (v, env)) = is_val m v
  sound_alone i n m (abort w) = is_abort m w
  sound_alone i n m exhausted = false
  sound_alone i zero m (tick k) = true
  sound_alone i (suc n) m (tick k) = sound_alone i n m k
  sound_alone i n m (yield_now k) = sound_alone i n m k
  sound_alone i n m (emit s k) = sound_alone i n m k
  sound_alone i n m (new_channel cap k) = sound_alone i n (suc m) (k m)
  sound_alone i n m (spawn b env k) = sound_alone i n m k
  sound_alone i n m (send c v k) = (leb (suc c) m && is_val m v) && sound_alone i n m k
  sound_alone i n m (recv c k) = leb (suc c) m && sound_alone (suc i) n m (k (ask i))
  sound_alone i n m (close c k) = leb (suc c) m && sound_alone i n m k

  is_abort_lem : (m : ℕ) (w : Abort) → IsAbort m w → is_abort m w ≡ true
  is_abort_lem m (trap w) h = refl
  is_abort_lem m (propagate v) h = is_val_lem m v h

  index_lem : (c m : ℕ) → c < m → leb (suc c) m ≡ true
  index_lem c m h = ground arith

  sound_alone-Behaves :
      (i n m l : ℕ) (c : Comp (Val × Env))
      → l ≤ m
      → ((j : ℕ) → IsVal l (ask j))
      → Behaves ValEnv n m c
      → sound_alone i n m c ≡ true
  unfolding sound_alone Behaves
  sound_alone-Behaves i n m l (done (v, env)) le a h = is_val_lem m v h.0
  sound_alone-Behaves i n m l (abort w) le a h = is_abort_lem m w h
  sound_alone-Behaves i n m l exhausted le a h = absurd h
  sound_alone-Behaves i zero m l (tick k) le a h = refl
  sound_alone-Behaves i (suc n) m l (tick k) le a h = sound_alone-Behaves i n m l k le a h
  sound_alone-Behaves i n m l (yield_now k) le a h =
      sound_alone-Behaves i n m l k le a (h m (omega arith))
  sound_alone-Behaves i n m l (emit s k) le a h = sound_alone-Behaves i n m l k le a h
  sound_alone-Behaves i n m l (new_channel cap k) le a h =
      sound_alone-Behaves i n (suc m) l (k m) (omega arith) a
        (h (suc m) m (omega arith) (omega arith))
  sound_alone-Behaves i n m l (spawn b env k) le a (lits, valid, h) =
      sound_alone-Behaves i n m l k le a h
  sound_alone-Behaves i n m l (send c v k) le a (lt, valid, h) =
      both _ _ (both _ _ (index_lem c m lt) (is_val_lem m v valid))
        (sound_alone-Behaves i n m l k le a (h m (omega arith)))
  sound_alone-Behaves i n m l (recv c k) le a (lt, h) = both _ _ (index_lem c m lt) (
      sound_alone-Behaves (suc i) n m l (k (ask i)) le a
        (h m (ask i) (omega arith) (IsVal-more l m (ask i) le (a i))))
  sound_alone-Behaves i n m l (close c k) le a (lt, h) =
      both _ _ (index_lem c m lt) (sound_alone-Behaves i n m l k le a h)

-- With trit literals that are trits, in scopes with valid values and m channels, where the values
-- received are valid and the budget of ticks is less than the fuel: the evaluation of an expression does
-- not come to the end of the fuel, uses only channels that are there, and the values that it sends, its
-- own value and one that a `?` carries out of it are valid: an integer in the range of a word, a trit
-- that is one, a channel that is there.
pub sound_alone-expr :
    (lang : Lang) (fns : List Fn) (fuel budget m : ℕ) (e : Expr) (env : Env) (ask : ℕ → Val)
    → LiteralsF fns
    → LiteralsE e
    → budget < fuel
    → IsEnv m env
    → ((j : ℕ) → IsVal m (ask j))
    → sound_alone ask 0 budget m ((evaluator lang fns fuel).expr e env) ≡ true
sound_alone-expr lang fns fuel budget m e env ask lf le lt h a =
    sound_alone-Behaves ask 0 budget m m ((evaluator lang fns fuel).expr e env) (omega arith) a
      (expr-Behaves lang fns fuel budget m e env lf lt le h)
