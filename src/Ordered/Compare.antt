-- ===== src/Ordered/Compare.antt =====
-- The tests of two sets of src/codegen_t3/emulator/ordered.rs.
use mani_tc.Prelude.{
  ◌≡◌, ◌↔◌, refl, sym, ap, ◌∙◌, Bool, true, false, not, ◌&&◌, Bool-cases, List, [], ◌∷◌,
  if◌then◌else◌, inl, inr, arith,
}
use mani_tc.Prelude.Int.{ℤ, ◌==ℤ◌, ==ℤ_iff}
use mani_tc.Ordered.{OrderedSet, member, contains, all_members, is_subset, is_superset, is_disjoint}

all_members-member :
    (p : ℤ → Bool) (xs : List ℤ) (x : ℤ) → all_members p xs ≡ true → member x xs ≡ true → p x ≡ true
unfolding member
all_members-member p [] x a m = ground arith
all_members-member p (y ∷ ys) x a m = elim (Bool-cases (y ==ℤ x)) [
  | inl e ↦ sym (ap p ((==ℤ_iff y x).0 e)) ∙ (both a).0
  | inr e ↦ all_members-member p ys x (both a).1 (later e m)
]
  where
    both : (p y && all_members p ys) ≡ true → (p y ≡ true) × (all_members p ys ≡ true)
    both h = ground arith

    later : (y ==ℤ x) ≡ false → (if y ==ℤ x then true else member x ys) ≡ true → member x ys ≡ true
    later e h = ground arith

all_members-intro :
    (p : ℤ → Bool) (xs : List ℤ)
    → ((x : ℤ) → member x xs ≡ true → p x ≡ true)
    → all_members p xs ≡ true
unfolding member
all_members-intro p [] h = refl
all_members-intro p (y ∷ ys) h =
    let here = h y (at_head y ys) in
    let rest = all_members-intro p ys (λ x m. h x (further x m)) in ground arith
  where
    at_head : (y : ℤ) (ys : List ℤ) → (if y ==ℤ y then true else member y ys) ≡ true
    at_head y ys = ground arith

    further : (x : ℤ) → member x ys ≡ true → (if y ==ℤ x then true else member x ys) ≡ true
    further x m = ground arith

-- Of two sets, the first is a subset, or a superset, of the second exactly where each element of the
-- first is in the second, or the other way round, and they are disjoint exactly where no element of
-- the first is in the second.
pub set_tests_iff :
    (s other : OrderedSet)
    → ((is_subset s other ≡ true) ↔ ((x : ℤ) → contains x s ≡ true → contains x other ≡ true))
      × ((is_superset s other ≡ true) ↔ ((x : ℤ) → contains x other ≡ true → contains x s ≡ true))
      × ((is_disjoint s other ≡ true)
          ↔ ((x : ℤ) → contains x s ≡ true → not (contains x other) ≡ true))
unfolding is_subset is_superset is_disjoint contains
set_tests_iff s other = (
  (λ h x m. all_members-member _ s.entries x h m, all_members-intro _ s.entries),
  (λ h x m. all_members-member _ other.entries x h m, all_members-intro _ other.entries),
  (λ h x m. all_members-member _ s.entries x h m, all_members-intro _ s.entries),
)
