-- ===== src/Ordered/Set.antt =====
-- The set of src/codegen_t3/emulator/ordered.rs: its operations on the sequence of its elements.
use mani_tc.Prelude.{
  ◌≤◌, ◌≡◌, refl, sym, ap, ◌∙◌, inl, inr, Bool, Bool-cases, true, false, not, ◌&&◌, List, [], ◌∷◌,
  ◌++◌, arith, if◌then◌else◌,
}
use mathlib.Core.List.{append_assoc, append-nil}
use mani_tc.Prelude.Int.{ℤ, ◌==ℤ◌, ==ℤ_iff}
use mani_tc.Ordered.{
  retain_ne, OrderedSet, empty_set, member, contains, insert_elem, remove_elem, iter, insert_kept,
  filtered, intersection, difference, union,
}
use mani_tc.Ordered.Map.{count, count-push, count-retain_ne}

-- Each element stands in the order exactly once, and nothing else does.
abbrev pub IsValidSet : OrderedSet → Type 0
IsValidSet s = (x : ℤ) → count x s.order ≡ (if member x s.entries then 1 else 0)

abbrev pub keep_only : (ℤ → Bool) → List ℤ → List ℤ
keep_only p [] = []
keep_only p (x ∷ xs) = if p x then x ∷ keep_only p xs else keep_only p xs

keep_only_congr :
    (p q : ℤ → Bool) (xs : List ℤ)
    → ((x : ℤ) → 1 ≤ count x xs → p x ≡ q x)
    → keep_only p xs ≡ keep_only q xs
keep_only_congr p q [] h = refl
keep_only_congr p q (x ∷ xs) h =
    let rest = keep_only_congr p q xs (λ y k. h y (unfold count in ground (arith, k))) in
    rw (h x (unfold count in ground arith)) (one (q x) rest)
  where
    one :
        (b : Bool)
        → keep_only p xs ≡ keep_only q xs
        → (if b then x ∷ keep_only p xs else keep_only p xs)
          ≡ (if b then x ∷ keep_only q xs else keep_only q xs)
    one true e = ap (λ (ys : List ℤ). x ∷ ys) e
    one false e = e

-- What the loop adds, on a sequence without repetition.
order-insert_kept :
    (keep : ℤ → Bool) (xs : List ℤ) (out : OrderedSet)
    → ((x : ℤ) → count x xs ≤ 1)
    → (insert_kept keep xs out).order
      ≡ out.order ++ keep_only (λ x. keep x && not (member x out.entries)) xs
unfolding insert_kept insert_elem
order-insert_kept keep [] out h = sym (append-nil out.order)
order-insert_kept keep (x ∷ xs) out h = elim (Bool-cases (keep x)) [
  | inr k ↦ goes out _ (rw k) (rw k) (order-insert_kept keep xs out fewer)
  | inl k ↦ elim (Bool-cases (member x out.entries)) [
    | inl m ↦ goes out _ (rw (k, m)) (rw (k, m)) (order-insert_kept keep xs out fewer)
    | inr m ↦
        goes (record { entries = x ∷ out.entries; order = out.order ++ x ∷ [] })
          (x ∷ keep_only p xs) (rw (k, m)) (rw (k, m))
          (order-insert_kept keep xs
              (record { entries = x ∷ out.entries; order = out.order ++ x ∷ [] }) fewer
            ∙ append_assoc out.order (x ∷ []) _
            ∙ ap (λ (ys : List ℤ). out.order ++ x ∷ ys) (keep_only_congr _ _ xs other))
  ]
]
  where
    p : ℤ → Bool
    p x = keep x && not (member x out.entries)

    goes :
        (o : OrderedSet) (ys : List ℤ)
        → (if keep x then insert_elem x out else out) ≡ o
        → keep_only p (x ∷ xs) ≡ ys
        → (insert_kept keep xs o).order ≡ out.order ++ ys
        → (insert_kept keep xs (if keep x then insert_elem x out else out)).order
          ≡ out.order ++ keep_only p (x ∷ xs)
    goes o ys e f g =
        ap (λ (o : OrderedSet). (insert_kept keep xs o).order) e
        ∙ g
        ∙ ap (λ (ys : List ℤ). out.order ++ ys) (sym f)

    fewer : (y : ℤ) → count y xs ≤ 1
    fewer y = unfold count in omega (arith, h y)

    other :
        (y : ℤ)
        → 1 ≤ count y xs
        → (keep y && not (member y (x ∷ out.entries))) ≡ (keep y && not (member y out.entries))
    other y k = unfold member count in ground (arith, h x, ==ℤ_iff x y, same y)
      where
        same : (y : ℤ) → x ≡ y → count x xs ≡ count y xs
        same y e = ap (λ (z : ℤ). count z xs) e

no_repeat : (s : OrderedSet) → IsValidSet s → (x : ℤ) → count x s.order ≤ 1
no_repeat s v x = ground (arith, v x)

-- For two sets whose orders have each of their elements exactly once, intersection and difference
-- keep the elements of the first in its order, and a union has the elements of the first in its
-- order, then those that only the second has in the order of the second.
pub iter-operations :
    (s other : OrderedSet)
    → IsValidSet s
    → IsValidSet other
    → (iter (intersection s other) ≡ keep_only (λ x. contains x other) (iter s))
      × (iter (difference s other) ≡ keep_only (λ x. not (contains x other)) (iter s))
      × (iter (union s other) ≡ iter s ++ keep_only (λ x. not (contains x s)) (iter other))
unfolding iter intersection difference union filtered contains
iter-operations s other v w = (
  order-insert_kept _ s.order empty_set (no_repeat s v)
      ∙ keep_only_congr _ _ s.order (λ x k. absent (member x other.entries) x),
  order-insert_kept _ s.order empty_set (no_repeat s v)
      ∙ keep_only_congr _ _ s.order (λ x k. absent (not (member x other.entries)) x),
  order-insert_kept _ other.order s (no_repeat other w),
)
  where
    absent : (b : Bool) (x : ℤ) → (b && not (member x [])) ≡ b
    absent true x = unfold member in refl
    absent false x = refl

insert_elem-IsValidSet : (x : ℤ) (s : OrderedSet) → IsValidSet s → IsValidSet (insert_elem x s)
unfolding insert_elem
insert_elem-IsValidSet x s h y = elim (Bool-cases (member x s.entries)) [
  | inl p ↦ rw p (h y)
  | inr p ↦ rw p (unfold member in ground (arith, h y, h x, count-push x y s.order, ==ℤ_iff x y))
]

member-retain_ne :
    (x y : ℤ) (ys : List ℤ) → member y (retain_ne x ys) ≡ (if x ==ℤ y then false else member y ys)
unfolding member retain_ne
member-retain_ne x y [] = ground arith
member-retain_ne x y (z ∷ zs) = ground (arith, member-retain_ne x y zs)

remove_elem-IsValidSet : (x : ℤ) (s : OrderedSet) → IsValidSet s → IsValidSet (remove_elem x s)
unfolding remove_elem
remove_elem-IsValidSet x s h y = elim (Bool-cases (member x s.entries)) [
  | inl p ↦ rw p (ground (arith, h y, member-retain_ne x y s.entries, count-retain_ne x y s.order))
  | inr p ↦ rw p (h y)
]

insert_kept-IsValidSet :
    (keep : ℤ → Bool) (xs : List ℤ) (s : OrderedSet)
    → IsValidSet s
    → IsValidSet (insert_kept keep xs s)
unfolding insert_kept
insert_kept-IsValidSet keep [] s h = h
insert_kept-IsValidSet keep (x ∷ xs) s h = insert_kept-IsValidSet keep xs _ (either (keep x))
  where
    either : (b : Bool) → IsValidSet (if b then insert_elem x s else s)
    either true = insert_elem-IsValidSet x s h
    either false = h

-- Where the order of a set has each of its elements exactly once and nothing else, so it is after
-- an insertion, a removal and a union with any set; the intersection and the difference with any
-- set have such an order too.
pub set_operations-IsValid :
    (s other : OrderedSet) (x : ℤ)
    → IsValidSet s
    → IsValidSet (insert_elem x s)
      × IsValidSet (remove_elem x s)
      × IsValidSet (union s other)
      × IsValidSet (intersection s other)
      × IsValidSet (difference s other)
unfolding union intersection difference filtered
set_operations-IsValid s other x h = (
  insert_elem-IsValidSet x s h,
  remove_elem-IsValidSet x s h,
  insert_kept-IsValidSet _ other.order s h,
  insert_kept-IsValidSet _ s.order empty_set empty_valid,
  insert_kept-IsValidSet _ s.order empty_set empty_valid,
)
  where
    empty_valid : IsValidSet empty_set
    empty_valid y = unfold count member in refl
