-- ===== src/Ordered/Tests.antt =====
-- The ordered map and set: runs, and the theorems at concrete values.
use mani_tc.Prelude.{◌≡◌, refl, ◌++◌, not}
use mani_tc.Prelude.Int.{pos}
use mani_tc.Ordered.{
  OrderedMap, new, insert, OrderedSet, empty_set, insert_elem, contains, iter, intersection,
  difference, union, member,
}
use mani_tc.Ordered.Map.{count, IsValid, new-IsValid, operations-IsValid}
use mani_tc.Ordered.Set.{IsValidSet, keep_only, iter-operations, set_operations-IsValid}

abbrev two : OrderedMap
two = insert (pos 2) (pos 20) (insert (pos 7) (pos 70) new)

two-IsValid : IsValid two
two-IsValid =
    let one = operations-IsValid (pos 7) (pos 70) new new-IsValid in
    (operations-IsValid (pos 2) (pos 20) (insert (pos 7) (pos 70) new) one.1).1

abbrev odd : OrderedSet
odd = insert_elem (pos 1) (insert_elem (pos 3) empty_set)

empty-IsValidSet : IsValidSet empty_set
unfolding member count
empty-IsValidSet y = refl

odd-IsValidSet : IsValidSet odd
odd-IsValidSet =
    let one = (set_operations-IsValid empty_set empty_set (pos 3) empty-IsValidSet).0 in
    (set_operations-IsValid _ empty_set (pos 1) one).0

abbrev single : OrderedSet
single = insert_elem (pos 3) empty_set

single-IsValidSet : IsValidSet single
single-IsValidSet = (set_operations-IsValid empty_set empty_set (pos 3) empty-IsValidSet).0

iter-operations_example :
    (iter (intersection odd single) ≡ keep_only (λ x. contains x single) (iter odd))
    × (iter (difference odd single) ≡ keep_only (λ x. not (contains x single)) (iter odd))
    × (iter (union odd single) ≡ iter odd ++ keep_only (λ x. not (contains x odd)) (iter single))
iter-operations_example = iter-operations odd single odd-IsValidSet single-IsValidSet
