-- ===== src/Emulator/Invariant.antt =====
-- The well-formedness of the machine of src/codegen_t3/emulator: registers, memory, flags and
-- suspended tasks.
pub mod Sched
pub mod Step
use mani_tc.Prelude.{
  ℕ, ◌≤◌, ◌≡◌, inl, inr, Bool, Bool-cases, ltb, some, All, true, false, arith, ◌==◌, if◌then◌else◌,
}
use mani_tc.Prelude.Int.{ℤ, pos, negsuc, pos_part, neg_part, clamp}
use mani_tc.Prelude.Maps.{update, lookup}
use mani_tc.Isa.Word.{IsWord, IsTrit, clamp27, clamp27-IsWord, sign_i64, sign_i64-IsTrit}
use mani_tc.Emulator.State.{SavedTask, Emulator, Message, trap, read, write, as_usize}
use mani_tc.Emulator.Execute.{wreg, set_flags, finish_checked, load_reg, reg_index}

abbrev pub RegsOk : (ℕ → ℤ) → Type 0
RegsOk regs = ((r : ℕ) → IsWord (regs r)) × (regs 0 ≡ pos 0)

abbrev pub TaskOk : SavedTask → Type 0
TaskOk t = RegsOk t.regs × All IsWord t.stack

pub record IsValid (e : Emulator) : Type 0 where
  pub regs_ok : RegsOk e.regs
  pub memory_ok : (a : ℕ) → IsWord (e.memory a)
  pub flags_ok : IsTrit e.flags
  pub saved_ok : (t : ℕ) (s : SavedTask) → lookup t e.sched.saved ≡ some s → TaskOk s
  pub exit_ok : (c : ℤ) → e.sched.main_exit ≡ some c → IsWord c

pub update-IsWord :
    (f : ℕ → ℤ) (i : ℕ) (v : ℤ)
    → ((r : ℕ) → IsWord (f r))
    → IsWord v
    → (r : ℕ) → IsWord (update f i v r)
unfolding update
update-IsWord f i v h w r = elim (Bool-cases (i == r)) [ inl e ↦ rw e w | inr e ↦ rw e (h r) ]

pub update-RegsOk :
    (f : ℕ → ℤ) (i : ℕ) (v : ℤ) → RegsOk f → IsWord v → (i == 0) ≡ false → RegsOk (update f i v)
unfolding update
update-RegsOk f i v h w z = (update-IsWord f i v h.0 w, rw z h.1)

pub trap-IsValid : (m : Message) {e : Emulator} → IsValid e → IsValid (trap m e)
unfolding trap
trap-IsValid m v = record {
  regs_ok = v.regs_ok;
  memory_ok = v.memory_ok;
  flags_ok = v.flags_ok;
  saved_ok = v.saved_ok;
  exit_ok = v.exit_ok;
}

pub with_regs-IsValid :
    (regs : ℕ → ℤ) {e : Emulator} → RegsOk regs → IsValid e → IsValid (record e { regs = regs })
with_regs-IsValid regs h v = record {
  regs_ok = h;
  memory_ok = v.memory_ok;
  flags_ok = v.flags_ok;
  saved_ok = v.saved_ok;
  exit_ok = v.exit_ok;
}

pub set_flags-IsValid : (x : ℤ) {e : Emulator} → IsValid e → IsValid (set_flags x e)
unfolding set_flags
set_flags-IsValid x v = record {
  regs_ok = v.regs_ok;
  memory_ok = v.memory_ok;
  flags_ok = sign_i64-IsTrit x;
  saved_ok = v.saved_ok;
  exit_ok = v.exit_ok;
}

reg_index-ne-zero : (r : ℤ) → (as_usize r == 0) ≡ false → (reg_index r == 0) ≡ false
unfolding reg_index
reg_index-ne-zero r h = ground arith

pub if-IsValid : (b : Bool) {x y : Emulator} → IsValid x → IsValid y → IsValid (if b then x else y)
if-IsValid true hx hy = hx
if-IsValid false hx hy = hy

pub wreg-IsValid : (r x : ℤ) {e : Emulator} → IsValid e → IsValid (wreg r x e)
unfolding wreg
wreg-IsValid r x {e} v = elim (Bool-cases (as_usize r == 0)) [
  | inl z ↦ rw z v
  | inr z ↦ rw z (
      with_regs-IsValid _
        (update-RegsOk e.regs (reg_index r) (clamp27 x) v.regs_ok (clamp27-IsWord x)
          (reg_index-ne-zero r z))
        v)
]

pub finish-IsValid : (r x : ℤ) {e : Emulator} → IsValid e → IsValid (wreg r x (set_flags x e))
finish-IsValid r x v = wreg-IsValid r x (set_flags-IsValid x v)

pub finish_checked-IsValid :
    (m : ℤ → Message) (r x : ℤ) {e : Emulator} → IsValid e → IsValid (finish_checked m r x e)
unfolding finish_checked
finish_checked-IsValid m r x v = if-IsValid _ (finish-IsValid r x v) (trap-IsValid (m x) v)

pub load_reg-IsValid :
    (r : ℕ) (x : ℤ) {e : Emulator} → IsWord x → IsValid e → IsValid (load_reg r x e)
unfolding load_reg
load_reg-IsValid r x {e} w v = elim (Bool-cases (r == 0)) [
  | inl z ↦ rw z v
  | inr z ↦ rw z (with_regs-IsValid _ (update-RegsOk e.regs r x v.regs_ok w z) v)
]

pub write-IsValid : (a : ℕ) (x : ℤ) {e : Emulator} → IsWord x → IsValid e → IsValid (write a x e)
unfolding write
write-IsValid a x {e} w v =
    if-IsValid _
      (record {
        regs_ok = v.regs_ok;
        memory_ok = update-IsWord e.memory a x v.memory_ok w;
        flags_ok = v.flags_ok;
        saved_ok = v.saved_ok;
        exit_ok = v.exit_ok;
      })
      v

pub read-IsWord : (e : Emulator) (a : ℕ) → IsValid e → IsWord (read e a)
unfolding read
read-IsWord e a v = elim (Bool-cases (ltb a e.mem_len)) [
  | inl z ↦ rw z (v.memory_ok a)
  | inr z ↦ rw z (omega arith)
]

pub clamp_trit-IsWord : (x : ℤ) → IsWord (clamp (negsuc 0) (pos 1) x)
unfolding clamp
clamp_trit-IsWord x = ground arith
