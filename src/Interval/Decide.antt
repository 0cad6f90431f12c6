-- ===== src/Interval/Decide.antt =====
-- The three tests on intervals of src/semantic/interval.rs: emptiness, inclusion and disjointness.
use mani_tc.Prelude.{
  ◌≡◌, ◌↔◌, refl, inl, inr, Bool-cases, true, false, Option, none, some, ◌||◌, arith,
}
use mani_tc.Prelude.Int.{ℤ, pos, max_ℤ, min_ℤ, leb_ℤ, ltb_ℤ}
use mani_tc.Interval.{Interval, is_empty, within, disjoint_from, both, bounded_by}
use mani_tc.Interval.Sound.{Above, Below, Contains}

-- A value of an interval that lies within another, as the test reports it, is a value of the
-- other.
pub within-Contains : (i j : Interval) (v : ℤ) → within i j ≡ true → Contains i v → Contains j v
unfolding within
within-Contains i j v h c = (lower i.lo j.lo (ground arith) c.0, upper i.hi j.hi (ground arith) c.1)
  where
    lower : (s o : Option ℤ) → bounded_by (λ ol sl. leb_ℤ ol sl) o s ≡ true → Above s v → Above o v
    lower s none e a = tt
    lower none (some o) e a = cc
    lower (some s) (some o) e a = ground arith

    upper : (s o : Option ℤ) → bounded_by (λ oh sh. leb_ℤ sh oh) o s ≡ true → Below s v → Below o v
    upper s none e a = tt
    upper none (some o) e a = cc
    upper (some s) (some o) e a = ground arith

-- Some value fits a lower and an upper bound that do not cross.
middle : Option ℤ → Option ℤ → Option ℤ → Option ℤ → ℤ
middle none none none none = pos 0
middle (some a) _ (some c) _ = max_ℤ a c
middle (some a) _ none _ = a
middle none _ (some c) _ = c
middle none (some b) none (some d) = min_ℤ b d
middle none (some b) none none = b
middle none none none (some d) = d

common :
    (a b c d : Option ℤ)
    → both (λ l h. ltb_ℤ h l) false a b ≡ false
    → both (λ l h. ltb_ℤ h l) false c d ≡ false
    → both (λ sh ol. ltb_ℤ sh ol) false b c ≡ false
    → both (λ sl oh. ltb_ℤ oh sl) false a d ≡ false
    → (Above a (middle a b c d) × Below b (middle a b c d))
      × (Above c (middle a b c d) × Below d (middle a b c d))
unfolding middle max_ℤ min_ℤ
common a b c d h1 h2 h3 h4 = ground arith

crossed_none :
    (a b : Option ℤ) (v : ℤ) → Above a v → Below b v → both (λ l h. ltb_ℤ h l) false a b ≡ false
crossed_none a b v ha hb = ground arith

-- An interval is reported empty exactly when it holds no value.
pub is_empty_iff : (i : Interval) → (is_empty i ≡ true) ↔ ((v : ℤ) → ¬ Contains i v)
unfolding is_empty
is_empty_iff i = (
  λ e v c. cc (e, crossed_none i.lo i.hi v c.0 c.1),
  λ h. elim (Bool-cases (both (λ l h. ltb_ℤ h l) false i.lo i.hi)) [
    | inl e ↦ e
    | inr e ↦ absurd (h _ (common i.lo i.hi none none e refl (no_lo i.hi) (no_hi i.lo)).0)
  ],
)
  where
    no_lo : (b : Option ℤ) → both (λ sh ol. ltb_ℤ sh ol) false b none ≡ false
    no_lo none = refl
    no_lo (some b) = refl

    no_hi : (a : Option ℤ) → both (λ sl oh. ltb_ℤ oh sl) false a none ≡ false
    no_hi none = refl
    no_hi (some a) = refl

-- Two intervals that are not empty are reported disjoint exactly when they share no value.
pub disjoint_from_iff :
    (i j : Interval)
    → is_empty i ≡ false
    → is_empty j ≡ false
    → (disjoint_from i j ≡ true) ↔ ((v : ℤ) → ¬ (Contains i v × Contains j v))
unfolding is_empty disjoint_from
disjoint_from_iff i j hi hj = (
  λ e v c. apart i.lo i.hi j.lo j.hi v e c.0.0 c.0.1 c.1.0 c.1.1,
  λ h. elim (Bool-cases (both (λ sh ol. ltb_ℤ sh ol) false i.hi j.lo)) [
    | inl e ↦ rw e
    | inr e ↦ elim (Bool-cases (both (λ sl oh. ltb_ℤ oh sl) false i.lo j.hi)) [
      | inl f ↦ rw (e, f)
      | inr f ↦
          let (c, d) = common i.lo i.hi j.lo j.hi hi hj e f in
          absurd (h (middle i.lo i.hi j.lo j.hi) (c, d))
    ]
  ],
)
  where
    apart :
        (a b c d : Option ℤ) (v : ℤ)
        → (both (λ sh ol. ltb_ℤ sh ol) false b c || both (λ sl oh. ltb_ℤ oh sl) false a d) ≡ true
        → Above a v
        → Below b v
        → Above c v
        → Below d v
        → ⊥
    apart a b c d v e ha hb hc hd = ground arith
