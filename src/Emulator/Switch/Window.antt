-- ===== src/Emulator/Switch/Window.antt =====
-- The stack window that a context switch carries: `save_current` and `restore` of
-- src/codegen_t3/emulator/sched.rs.
use mani_tc.Prelude.{ℕ, zero, suc, ◌+◌, ◌≤◌, ◌≡◌, ap, Bool, ◌&&◌, arith, leb, ltb, if◌then◌else◌}
use mani_tc.Prelude.Int.{ℤ}
use mani_tc.Prelude.Maps.{update}
use mani_tc.Emulator.State.{stack_base, Emulator}
use mani_tc.Emulator.Switch.{read_window, write_window, window_base}

-- The address lies in the n words from sp.
abbrev inside : ℕ → ℕ → ℕ → Bool
inside sp n a = leb sp a && ltb a (sp + n)

-- Writing back a window that was read leaves the window's words as they were read, and no other
-- word changed.
pub write_window-read_window :
    (mem mem' : ℕ → ℤ) (n sp a : ℕ)
    → write_window mem' sp (read_window mem n sp) a ≡ (if inside sp n a then mem a else mem' a)
unfolding write_window read_window update
write_window-read_window mem mem' zero sp a = ground arith
write_window-read_window mem mem' (suc n) sp a =
    ground (arith, write_window-read_window mem mem' n (sp + 1) a, same a)
  where
    same : (b : ℕ) → sp ≡ b → mem sp ≡ mem b
    same b e = ap mem e

pub window_base-le : (regs : ℕ → ℤ) → window_base regs ≤ stack_base
unfolding window_base
window_base-le regs = ground arith
