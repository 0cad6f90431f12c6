-- ===== src/Lang.antt =====
-- src/lang.rs: round-to-nearest division and the remainder that pairs with it, on `i64`.
pub mod Wrap
pub mod Nearest
pub mod Division
mod Tests
use mani_tc.Prelude.{Bool, true, false, if◌then◌else◌}
use mani_tc.Prelude.Int.{
  ℤ, pos, negsuc, ◌+ℤ◌, ◌-ℤ◌, ◌*ℤ◌, neg_ℤ, leb_ℤ, ltb_ℤ, quot, rem, rem_euclid,
}

abbrev pub i64_max : ℤ
i64_max = pos 9223372036854775807

abbrev pub i64_min : ℤ
i64_min = negsuc 9223372036854775807

-- A result reduced to 64 bits, as Rust's `wrapping_` operations do.
unfoldable pub wrap64 : ℤ → ℤ
wrap64 v = rem_euclid (v +ℤ pos 9223372036854775808) 18446744073709551616 -ℤ pos 9223372036854775808

abbrev pub same_sign : Bool → Bool → Bool
same_sign a b = if a then b else (if b then false else true)

unfoldable pub div_nearest : ℤ → ℤ → ℤ
div_nearest a b =
    let q = wrap64 (quot a b) in
    let r = wrap64 (rem a b) in
    let nr = if ltb_ℤ (pos 0) r then neg_ℤ r else r in
    let nb = if ltb_ℤ (pos 0) b then neg_ℤ b else b in
    if leb_ℤ nr (nb -ℤ nr)
    then (if same_sign (ltb_ℤ a (pos 0)) (ltb_ℤ b (pos 0))
        then wrap64 (q +ℤ pos 1)
        else wrap64 (q -ℤ pos 1))
    else q

unfoldable pub rem_balanced : ℤ → ℤ → ℤ
rem_balanced a b = wrap64 (a -ℤ wrap64 (div_nearest a b *ℤ b))
