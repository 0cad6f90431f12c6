-- ===== src/Interval.antt =====
-- src/semantic/interval.rs: what the checker knows of an integer, a closed range open where
-- nothing is known. `i64` bounds are integers; an `Option` is the result of a checked operation.
pub mod Sound
pub mod Product
pub mod Decide
mod Tests
use mani_tc.Prelude.{ℕ, Bool, true, false, ◌&&◌, ◌||◌, not, Option, none, some, if◌then◌else◌}
use mani_tc.Prelude.Int.{ℤ, ◌+ℤ◌, ◌-ℤ◌, ◌*ℤ◌, neg_ℤ, leb_ℤ, ltb_ℤ, min_ℤ, max_ℤ}
use mani_tc.Lang.{i64_min, i64_max}

pub record Interval : Type 0 where
  pub lo : Option ℤ
  pub hi : Option ℤ

abbrev pub unknown : Interval
unknown = record { lo = none; hi = none }

unfoldable pub exact : ℤ → Interval
exact v = record { lo = some v; hi = some v }

unfoldable pub is_unknown : Interval → Bool
is_unknown i = is_none i.lo && is_none i.hi
  where
    is_none : Option ℤ → Bool
    is_none none = true
    is_none (some _) = false

-- `matches!((a, b), (Some(x), Some(y)) if test)`.
abbrev pub both {ℓ} : {A : Type ℓ} → (ℤ → ℤ → A) → A → Option ℤ → Option ℤ → A
both f d (some x) (some y) = f x y
both f d none _ = d
both f d (some x) none = d

unfoldable pub is_empty : Interval → Bool
is_empty i = both (λ l h. ltb_ℤ h l) false i.lo i.hi

-- The side condition of one bound in `within`: a bound of `other` needs a bound of `self`.
abbrev pub bounded_by : (ℤ → ℤ → Bool) → Option ℤ → Option ℤ → Bool
bounded_by test none _ = true
bounded_by test (some o) none = false
bounded_by test (some o) (some s) = test o s

unfoldable pub within : Interval → Interval → Bool
within self other =
    bounded_by (λ ol sl. leb_ℤ ol sl) other.lo self.lo
    && bounded_by (λ oh sh. leb_ℤ sh oh) other.hi self.hi

unfoldable pub disjoint_from : Interval → Interval → Bool
disjoint_from self other =
    both (λ sh ol. ltb_ℤ sh ol) false self.hi other.lo
    || both (λ sl oh. ltb_ℤ oh sl) false self.lo other.hi

-- `checked_add` and the others: `none` where the result does not fit 64 bits.
abbrev pub in64 : ℤ → Bool
in64 v = leb_ℤ i64_min v && leb_ℤ v i64_max

abbrev pub checked : ℤ → Option ℤ
checked v = if in64 v then some v else none

abbrev pub opt2 : (ℤ → ℤ → Option ℤ) → Option ℤ → Option ℤ → Option ℤ
opt2 f a b = both f none a b

unfoldable pub add : Interval → Interval → Interval
add self o = record {
  lo = opt2 (λ a b. checked (a +ℤ b)) self.lo o.lo;
  hi = opt2 (λ a b. checked (a +ℤ b)) self.hi o.hi;
}

unfoldable pub sub : Interval → Interval → Interval
sub self o = record {
  lo = opt2 (λ a b. checked (a -ℤ b)) self.lo o.hi;
  hi = opt2 (λ a b. checked (a -ℤ b)) self.hi o.lo;
}

abbrev pub bind {ℓ κ} : {A : Type ℓ} {B : Type κ} → Option A → (A → Option B) → Option B
bind none f = none
bind (some a) f = f a

unfoldable pub neg : Interval → Interval
neg self = record {
  lo = bind self.hi (λ v. checked (neg_ℤ v));
  hi = bind self.lo (λ v. checked (neg_ℤ v));
}

-- The four corners, or nothing where one of them overflows.
unfoldable pub corners : ℤ → ℤ → ℤ → ℤ → Option (ℤ × ℤ × ℤ × ℤ)
corners al ah bl bh = bind (checked (al *ℤ bl)) λ p.
    bind (checked (al *ℤ bh))
      λ q. bind (checked (ah *ℤ bl)) λ r. bind (checked (ah *ℤ bh)) λ s. some (p, q, r, s)

abbrev pub hull : Option (ℤ × ℤ × ℤ × ℤ) → Interval
hull none = unknown
hull (some (p, q, r, s)) = record {
  lo = some (min_ℤ (min_ℤ (min_ℤ p q) r) s);
  hi = some (max_ℤ (max_ℤ (max_ℤ p q) r) s);
}

unfoldable pub mul : Interval → Interval → Interval
unfolding corners
mul self o =
    both (λ al ah. both (λ bl bh. hull (corners al ah bl bh)) unknown o.lo o.hi) unknown self.lo
      self.hi
