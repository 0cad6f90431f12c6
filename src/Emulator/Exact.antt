-- ===== src/Emulator/Exact.antt =====
-- The arithmetic, memory and call instructions of src/codegen_t3/emulator/execute.rs.
use native.Mathlib.Nat.{pow-suc}
use mani_tc.Prelude.{
  ℕ, zero, suc, ◌+◌, ◌-◌, ◌*◌, ◌/◌, ◌%◌, ◌^◌, ◌≤◌, ◌<◌, ◌≡◌, refl, ap, ==_iff, fun_ext, ◌⊎◌, inl,
  inr, Bool-cases, ◌∷◌, true, false, arith, ltb, ◌==◌, if◌then◌else◌,
}
use mani_tc.Prelude.Int.{
  ℤ, pos, abs_ℕ, ltb_ℤ, ◌≤ℤ◌, ◌+ℤ◌, ◌-ℤ◌, ◌*ℤ◌, clamp, div_euclid, eq_of_parts, +ℤ_parts, -ℤ_parts,
  *ℤ_parts, one_part,
}
use mani_tc.Prelude.Maps.{update}
use mani_tc.Isa.Word.{IsWord, clamp27, clamp27_id, sign_i64}
use mani_tc.Isa.Opcode
use mani_tc.Isa.Encoding.{Fields}
use mani_tc.Lang.Wrap.{euclid_parts}
use mani_tc.Emulator.State.{Emulator, Message, trap, as_usize, write}
use mani_tc.Emulator.Execute.{
  saturate, wreg, set_flags, finish, fits, finish_checked, reg_index, exec_arith, exec_words,
  exec_memory, shift_amount, shift_right,
}
use mani_tc.Emulator.Control.{push_call_frame, return_to}

-- The machine has the exact result x in register k + 1 and its sign in the flags, or x fits no
-- word, the machine has trapped and its registers are as before.
abbrev pub IsExact : ℤ → ℕ → Emulator → Emulator → Type 0
IsExact x k e e' =
    (IsWord x × (e'.regs (suc k) ≡ x) × (e'.flags ≡ sign_i64 x) × (e'.trapped ≡ e.trapped))
    ⊎ ((¬ IsWord x) × (e'.trapped ≡ true) × (e'.regs ≡ e.regs))

pub fits_exact : (x : ℤ) → fits (saturate x) ≡ true → IsWord x × (saturate x ≡ x)
unfolding saturate clamp
fits_exact x h = ground arith

pub not_fits : (x : ℤ) → fits (saturate x) ≡ false → ¬ IsWord x
unfolding saturate clamp
not_fits x h w = ground arith

pub finish_exact :
    (x : ℤ) (k : ℕ) (e : Emulator)
    → suc k ≤ 26
    → IsWord x
    → ((finish (pos (suc k)) x e).regs (suc k) ≡ x)
      × ((finish (pos (suc k)) x e).flags ≡ sign_i64 x)
      × ((finish (pos (suc k)) x e).trapped ≡ e.trapped)
unfolding wreg set_flags reg_index as_usize update
finish_exact x k e h w = ground (arith, clamp27_id x w)

-- An operation that saturates at 64 bits and is then checked is exact or traps.
pub finish_checked-IsExact :
    (what : ℤ → Message) (x : ℤ) (k : ℕ) (e : Emulator)
    → suc k ≤ 26
    → IsExact x k e (finish_checked what (pos (suc k)) (saturate x) e)
unfolding finish_checked trap
finish_checked-IsExact what x k e h = elim (Bool-cases (fits (saturate x))) [
  | inl p ↦
      let (w, same) = fits_exact x p in
      let (r, f, t) = finish_exact x k e h w in rw p (rw same (inl (w, r, f, t)))
  | inr p ↦ rw p (inr (not_fits x p, refl, refl))
]

-- TADD, TSUB, TMUL and TSHI with a target R1 to R26 compute the exact sum, difference, product and
-- multiple by a power of three, or trap and write no register: 64-bit saturation on the way never
-- makes a wrong result that fits a word.
pub arith-IsExact :
    (k : ℕ) (a b : ℤ) (e next : Emulator)
    → suc k ≤ 26
    → IsExact (a +ℤ b) k e (exec_arith Opcode.tadd (pos (suc k)) a b e next)
      × IsExact (a -ℤ b) k e (exec_arith Opcode.tsub (pos (suc k)) a b e next)
      × IsExact (a *ℤ b) k e (exec_arith Opcode.tmul (pos (suc k)) a b e next)
      × IsExact
          (a *ℤ pos (3 ^ shift_amount 26 b))
          k
          e
          (exec_words Opcode.tshi (pos (suc k)) a b e next)
unfolding exec_arith exec_words
arith-IsExact k a b e next h = (
  finish_checked-IsExact _ _ k e h,
  finish_checked-IsExact _ _ k e h,
  finish_checked-IsExact _ _ k e h,
  finish_checked-IsExact _ _ k e h,
)

pub pow_three_odd : (n : ℕ) → (3 ^ n) % 2 ≡ 1
pow_three_odd zero = refl
pow_three_odd (suc n) = omega (arith, pow-suc 3 n, pow_three_odd n)

-- For a shift by n trits, the result of TSHR times 3^n differs from the operand by less than half
-- of 3^n.
pub shift_right_nearest : (a : ℤ) (n : ℕ) → 2 * abs_ℕ (a -ℤ shift_right a n *ℤ pos (3 ^ n)) < 3 ^ n
unfolding shift_right
shift_right_nearest a n = nearest (3 ^ n) (pow_three_odd n)
  where
    nearest :
        (p : ℕ) → p % 2 ≡ 1 → 2 * abs_ℕ (a -ℤ div_euclid (a +ℤ pos ((p - 1) / 2)) p *ℤ pos p) < p
    nearest p odd =
        let s = a +ℤ pos ((p - 1) / 2) in
        let q = div_euclid s p in
        omega (
          arith,
          euclid_parts s p (omega arith),
          +ℤ_parts a (pos ((p - 1) / 2)),
          *ℤ_parts q (pos p),
          -ℤ_parts a (q *ℤ pos p),
          one_part (a -ℤ q *ℤ pos p),
        )

-- STORE leaves every word of the program image as it is, and traps where its address lies in the
-- image; elsewhere it does not trap.
pub store_keeps_image :
    (word : ℤ) (f : Fields) (base : ℤ) (e next : Emulator) (a : ℕ)
    → a < e.program_words
    → ((exec_memory Opcode.store word f base e next).memory a ≡ e.memory a)
      × ((exec_memory Opcode.store word f base e next).trapped
          ≡ (if ltb (as_usize (base +ℤ f.imm)) e.program_words then true else e.trapped))
unfolding exec_memory trap write update
store_keeps_image word f base e next a h = ground arith

module _ (sp : ℤ) (h : pos 1 ≤ℤ sp) (w : IsWord sp) where
  sp_down : clamp27 (sp -ℤ pos 1) ≡ sp -ℤ pos 1
  sp_down = clamp27_id _ (omega (arith, -ℤ_parts sp (pos 1), one_part sp, one_part (sp -ℤ pos 1)))

  sp_nonneg : ltb_ℤ (clamp27 (sp -ℤ pos 1)) (pos 0) ≡ false
  sp_nonneg = rw sp_down (ground (arith, -ℤ_parts sp (pos 1)))

  sp_up : clamp27 (clamp27 (sp -ℤ pos 1) +ℤ pos 1) ≡ sp
  sp_up =
      let back : sp -ℤ pos 1 +ℤ pos 1 ≡ sp =
        eq_of_parts _ _ (omega (arith, -ℤ_parts sp (pos 1), +ℤ_parts (sp -ℤ pos 1) (pos 1))) in
      rw (sp_down, back) (clamp27_id sp w)

update_back : (f : ℕ → ℤ) (i : ℕ) (x y : ℤ) → y ≡ f i → update (update f i x) i y ≡ f
unfolding update
update_back f i x y e =
    fun_ext
      λ r. elim (Bool-cases (i == r)) [ inl p ↦ rw (p, e) (ap f ((==_iff i r).0 p)) | inr p ↦ rw p ]

-- Below the depth limit and with a word of at least 1 in the stack pointer, a call pushes a frame,
-- and the return from it gives the registers, the stack of frames, the depth and the program
-- counter back.
pub return_to-push_call_frame :
    (e : Emulator)
    → e.call_depth < 10000
    → pos 1 ≤ℤ e.regs 26
    → IsWord (e.regs 26)
    → ((push_call_frame e).1 ≡ true)
      × ((push_call_frame e).0.call_stack ≡ e.pc ∷ e.call_stack)
      × ((return_to (e.pc ∷ e.call_stack) (push_call_frame e).0).regs ≡ e.regs)
      × ((return_to (e.pc ∷ e.call_stack) (push_call_frame e).0).call_stack ≡ e.call_stack)
      × ((return_to (e.pc ∷ e.call_stack) (push_call_frame e).0).call_depth ≡ e.call_depth)
      × ((return_to (e.pc ∷ e.call_stack) (push_call_frame e).0).pc ≡ e.pc)
unfolding push_call_frame return_to
return_to-push_call_frame e hd hp hw =
    let shallow : ltb 10000 (e.call_depth + 1) ≡ false = ground arith in
    let deep : (e.call_depth + 1) - 1 ≡ e.call_depth = omega arith in
    rw (shallow, sp_nonneg (e.regs 26) hp hw)
      (
        refl,
        refl,
        update_back e.regs 26 _ _ (unfold update in sp_up (e.regs 26) hp hw),
        refl,
        deep,
        refl,
      )
