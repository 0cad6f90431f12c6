-- ===== src/Reference/Machine.antt =====
-- The operators of src/reference/eval.rs beside the instructions of
-- src/codegen_t3/emulator/execute.rs that compute them.
use mani_tc.Prelude.{ℕ, suc, ◌≤◌, ◌<◌, ◌≡◌, refl, sym, true, false, Bool-cases, inl, inr, arith}
use mani_tc.Prelude.Int.{
  ℤ, pos, negsuc, abs_ℕ, ◌-ℤ◌, ◌*ℤ◌, neg_ℤ, min_ℤ, max_ℤ, ◌==ℤ◌, quot, rem, one_part,
}
use mani_tc.Isa.Word.{IsWord, sign_i64, clamp27, clamp27_id, clamp27-IsWord}
use mani_tc.Isa.Opcode
use mani_tc.Isa.Trits.{from_trits27}
use mani_tc.Isa.Lanes.{lanewise2, trit_xor, trit_imp, trit_cmp}
use mani_tc.Lang.{div_nearest, rem_balanced}
use mani_tc.Lang.Division.{division-IsWord, rem_balanced-eq}
use mani_tc.Emulator.State.{Emulator, Message, overflow_div, overflow_rem, trap}
use mani_tc.Emulator.Execute.{finish, fits, finish_checked, exec_arith, exec_lanes}
use mani_tc.Emulator.Exact.{IsExact, finish_exact, arith-IsExact}
use mani_tc.Reference.Bin.{Bin}
use mani_tc.Reference.Ops.{
  Lang, v1, v2, Val, int, Result, ok, as_print_int, checked, divide, lane_apply, lane_op,
  word_operand, apply, div_nearest_ref,
}
use mani_tc.Reference.Ops
use mani_tc.Reference.Division.{div_nearest_ref-eq}
use mani_tc.Reference.Lanes.{lane_operators-eq}

pub fits_word : (x : ℤ) → IsWord x → fits x ≡ true
fits_word x w = ground arith

-- The machine has the reference's value in register k + 1 and its sign in the flags, and has not
-- trapped anew; or the reference traps, the machine has trapped and its registers are as before.
abbrev pub Matches : Result Val → ℕ → Emulator → Emulator → Type 0
Matches (ok v) k e e' =
    (e'.regs (suc k) ≡ as_print_int v)
    × (e'.flags ≡ sign_i64 (as_print_int v))
    × (e'.trapped ≡ e.trapped)
Matches (Ops.trap f) k e e' = (e'.trapped ≡ true) × (e'.regs ≡ e.regs)

pub checked-word : (x : ℤ) → IsWord x → checked x ≡ ok (int x)
unfolding checked neg_ℤ
checked-word x w = ground arith

checked-no_word : (x : ℤ) → ¬ IsWord x → checked x ≡ Ops.trap (Ops.overflow x)
unfolding checked neg_ℤ
checked-no_word x w = ground arith

checked-Matches : (x : ℤ) (k : ℕ) (e e' : Emulator) → IsExact x k e e' → Matches (checked x) k e e'
checked-Matches x k e e' (inl (w, r, f, t)) =
    rw (checked-word x w) (unfold as_print_int in (r, f, t))
checked-Matches x k e e' (inr (n, t, r)) = rw (checked-no_word x n) (t, r)

module _ (k : ℕ) (h : suc k ≤ 26) (e : Emulator) where
  finish-Matches : (x : ℤ) → IsWord x → Matches (ok (int x)) k e (finish (pos (suc k)) x e)
  unfolding as_print_int
  finish-Matches x w = finish_exact x k e h w

  finish_checked-Matches :
      (what : ℤ → Message) (x : ℤ)
      → IsWord x
      → Matches (checked x) k e (finish_checked what (pos (suc k)) x e)
  unfolding finish_checked
  finish_checked-Matches what x w = rw (fits_word x w, checked-word x w) (finish-Matches x w)

  clamped-Matches :
      (x : ℤ) → IsWord x → Matches (ok (int x)) k e (finish (pos (suc k)) (clamp27 x) e)
  clamped-Matches x w = rw (clamp27_id x w) (finish-Matches x w)

pub quot-IsWord : (a b : ℤ) → IsWord a → IsWord (quot a b) × IsWord (rem a b)
unfolding quot rem neg_ℤ
quot-IsWord (pos m) (pos n) w = ground arith
quot-IsWord (pos m) (negsuc n) w = ground arith
quot-IsWord (negsuc m) (pos n) w = ground arith
quot-IsWord (negsuc m) (negsuc n) w = ground arith

lanewise2-IsWord : (f : ℤ → ℤ → ℤ) (a b : ℤ) → IsWord (lanewise2 f a b)
unfolding lanewise2 from_trits27
lanewise2-IsWord f a b = clamp27-IsWord _

module _ (k : ℕ) (a b : ℤ) (e next : Emulator) (h : suc k ≤ 26) (wa : IsWord a)
    (wb : IsWord b) where
  div_trunc-Matches :
      Matches
        (apply v1 Bin.div (int a) (int b))
        k
        e
        (exec_arith Opcode.tdiv (pos (suc k)) a b e next)
      × Matches
          (apply v1 Bin.rem (int a) (int b))
          k
          e
          (exec_arith Opcode.tmod (pos (suc k)) a b e next)
  unfolding apply divide as_print_int exec_arith trap
  div_trunc-Matches = elim (Bool-cases (b ==ℤ pos 0)) [
    | inl p ↦ rw p ((refl, refl), (refl, refl))
    | inr p ↦ rw p (
      clamped-Matches k h e _ (quot-IsWord a b wa).0,
      clamped-Matches k h e _ (quot-IsWord a b wa).1,
    )
  ]

  div_near-Matches :
      Matches
        (apply v2 Bin.div (int a) (int b))
        k
        e
        (exec_arith Opcode.tdivn (pos (suc k)) a b e next)
      × Matches
          (apply v2 Bin.rem (int a) (int b))
          k
          e
          (exec_arith Opcode.tmodn (pos (suc k)) a b e next)
  unfolding apply divide as_print_int exec_arith trap
  div_near-Matches = elim (Bool-cases (b ==ℤ pos 0)) [
    | inl p ↦ rw p ((refl, refl), (refl, refl))
    | inr p ↦ rw p (near (omega (arith, nonzero b p)))
  ]
    where
      nonzero : (b : ℤ) → (b ==ℤ pos 0) ≡ false → 0 < abs_ℕ b
      nonzero b p = ground arith

      near :
          0 < abs_ℕ b
          → Matches
              (checked (div_nearest_ref a b))
              k
              e
              (finish_checked overflow_div (pos (suc k)) (div_nearest a b) e)
            × Matches
                (checked (a -ℤ div_nearest_ref a b *ℤ b))
                k
                e
                (finish_checked overflow_rem (pos (suc k)) (rem_balanced a b) e)
      near hb =
          let ha : abs_ℕ a ≤ 9223372036854775807 = omega (arith, one_part a) in
          let hk : abs_ℕ b ≤ 9223372036854775808 = omega (arith, one_part b) in
          let (wq, wr) = division-IsWord a b wa wb hb in
          rw (div_nearest_ref-eq a b ha hb hk, sym (rem_balanced-eq a b ha hb hk))
            (
              finish_checked-Matches k h e overflow_div _ wq,
              finish_checked-Matches k h e overflow_rem _ wr,
            )

  -- For two words and a target R1 to R26, TADD, TSUB, TMUL, and TDIV and TMOD under version 1,
  -- TDIVN and TMODN under version 2, give the value of the reference's operator and its sign, or
  -- trap where the reference traps and leave the registers as they are.
  pub arithmetic-Matches :
      (lang : Lang)
      → Matches
          (apply lang Bin.add (int a) (int b))
          k
          e
          (exec_arith Opcode.tadd (pos (suc k)) a b e next)
        × Matches
            (apply lang Bin.sub (int a) (int b))
            k
            e
            (exec_arith Opcode.tsub (pos (suc k)) a b e next)
        × Matches
            (apply lang Bin.mul (int a) (int b))
            k
            e
            (exec_arith Opcode.tmul (pos (suc k)) a b e next)
        × Matches
            (apply v1 Bin.div (int a) (int b))
            k
            e
            (exec_arith Opcode.tdiv (pos (suc k)) a b e next)
        × Matches
            (apply v1 Bin.rem (int a) (int b))
            k
            e
            (exec_arith Opcode.tmod (pos (suc k)) a b e next)
        × Matches
            (apply v2 Bin.div (int a) (int b))
            k
            e
            (exec_arith Opcode.tdivn (pos (suc k)) a b e next)
        × Matches
            (apply v2 Bin.rem (int a) (int b))
            k
            e
            (exec_arith Opcode.tmodn (pos (suc k)) a b e next)
  arithmetic-Matches lang =
      let (sum, difference, product, shift) = arith-IsExact k a b e next h in
      unfold apply as_print_int in
      (
        checked-Matches _ k e _ sum,
        checked-Matches _ k e _ difference,
        checked-Matches _ k e _ product,
        div_trunc-Matches.0,
        div_trunc-Matches.1,
        div_near-Matches.0,
        div_near-Matches.1,
      )

  -- For two words and a target R1 to R26, TANDW, TORW, TXORW, TIMPW and TCMPW give the value of the
  -- reference's lane-wise operator and its sign, and do not trap.
  pub lane_wise-Matches :
      (lang : Lang) (c d : ℤ)
      → Matches
          (apply lang Bin.tandw (int a) (int b))
          k
          e
          (exec_lanes Opcode.tandw (pos (suc k)) a b c d e next)
        × Matches
            (apply lang Bin.torw (int a) (int b))
            k
            e
            (exec_lanes Opcode.torw (pos (suc k)) a b c d e next)
        × Matches
            (apply lang Bin.txorw (int a) (int b))
            k
            e
            (exec_lanes Opcode.txorw (pos (suc k)) a b c d e next)
        × Matches
            (apply lang Bin.timpw (int a) (int b))
            k
            e
            (exec_lanes Opcode.timpw (pos (suc k)) a b c d e next)
        × Matches
            (apply lang Bin.tcmpw (int a) (int b))
            k
            e
            (exec_lanes Opcode.tcmpw (pos (suc k)) a b c d e next)
  lane_wise-Matches lang c d =
      let (conj, disj, parity, implied, compared) = lane_operators-eq a b wa wb in
      unfold apply lane_apply lane_op word_operand exec_lanes in
      (
        rw conj (on_lanes min_ℤ),
        rw disj (on_lanes max_ℤ),
        rw parity (on_lanes trit_xor),
        rw implied (on_lanes trit_imp),
        rw compared (on_lanes trit_cmp),
      )
    where
      on_lanes :
          (f : ℤ → ℤ → ℤ)
          → Matches (ok (int (lanewise2 f a b))) k e (finish (pos (suc k)) (lanewise2 f a b) e)
      on_lanes f = finish-Matches k h e _ (lanewise2-IsWord f a b)
