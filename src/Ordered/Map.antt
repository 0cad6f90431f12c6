-- ===== src/Ordered/Map.antt =====
-- The map of src/codegen_t3/emulator/ordered.rs: its entries and the order of its keys.
use mani_tc.Prelude.{
  ℕ, ◌+◌, ◌≤◌, ◌≡◌, refl, sym, ap, ◌∙◌, inl, inr, Bool-cases, true, false, ◌⊎◌, map, Option, none,
  some, List, [], ◌∷◌, ◌++◌, arith, if◌then◌else◌,
}
use mani_tc.Prelude.Int.{ℤ, ◌==ℤ◌, ==ℤ_iff}
use mani_tc.Ordered.{
  lookup, put, delete, is_some, retain_ne, OrderedMap, new, insert, get, remove, keys, values_of,
  cons_if, values,
}

pub lookup-put :
    (k j v : ℤ) (m : List (ℤ × ℤ)) → lookup j (put k v m) ≡ (if k ==ℤ j then some v else lookup j m)
unfolding lookup put
lookup-put k j v [] = refl
lookup-put k j v ((i, w) ∷ m) = ground (arith, lookup-put k j v m)

pub lookup-delete :
    (k j : ℤ) (m : List (ℤ × ℤ)) → lookup j (delete k m) ≡ (if k ==ℤ j then none else lookup j m)
unfolding lookup delete
lookup-delete k j [] = ground arith
lookup-delete k j ((i, w) ∷ m) = ground (arith, lookup-delete k j m)

-- How often a key stands in a list.
unfoldable pub count : ℤ → List ℤ → ℕ
count k [] = 0
count k (x ∷ xs) = (if x ==ℤ k then 1 else 0) + count k xs

pub count-push :
    (k j : ℤ) (xs : List ℤ) → count j (xs ++ k ∷ []) ≡ count j xs + (if k ==ℤ j then 1 else 0)
unfolding count
count-push k j [] = omega arith
count-push k j (x ∷ xs) = omega (arith, count-push k j xs)

pub count-retain_ne :
    (k j : ℤ) (xs : List ℤ) → count j (retain_ne k xs) ≡ (if k ==ℤ j then 0 else count j xs)
unfolding count retain_ne
count-retain_ne k j [] = ground arith
count-retain_ne k j (x ∷ xs) = ground (arith, count-retain_ne k j xs)

-- Each key of the entries stands in the order exactly once, and no other key does.
abbrev pub IsValid : OrderedMap → Type 0
IsValid m = (k : ℤ) → count k m.order ≡ (if is_some (lookup k m.entries) then 1 else 0)

insert-IsValid : (k v : ℤ) (m : OrderedMap) → IsValid m → IsValid (insert k v m)
unfolding insert
insert-IsValid k v m h j =
    ground (arith, h j, h k, lookup-put k j v m.entries, count-push k j m.order, ==ℤ_iff k j)

remove-IsValid : (k : ℤ) (m : OrderedMap) → IsValid m → IsValid (remove k m)
unfolding remove
remove-IsValid k m h j = elim (Bool-cases (is_some (lookup k m.entries))) [
  | inl p ↦ rw p (ground (arith, h j, lookup-delete k j m.entries, count-retain_ne k j m.order))
  | inr p ↦ rw p (h j)
]

pub new-IsValid : IsValid new
unfolding new count lookup
new-IsValid k = refl

-- In the empty map every key of the entries stands in the order exactly once and no other key does,
-- and where that holds of a map, it holds after an insertion and after a removal.
pub operations-IsValid :
    (k v : ℤ) (m : OrderedMap)
    → IsValid m
    → IsValid new × IsValid (insert k v m) × IsValid (remove k m)
operations-IsValid k v m h = (new-IsValid, insert-IsValid k v m h, remove-IsValid k m h)

-- In any map, looking a key up after an insertion gives the new value at the inserted key and the
-- old result at any other; after a removal it gives nothing at the removed key and the old result
-- at any other.
pub get-insert-remove :
    (k j v : ℤ) (m : OrderedMap)
    → (get j (insert k v m) ≡ (if k ==ℤ j then some v else get j m))
      × (get j (remove k m) ≡ (if k ==ℤ j then none else get j m))
unfolding get insert remove
get-insert-remove k j v m =
    (lookup-put k j v m.entries, removed (Bool-cases (is_some (lookup k m.entries))))
  where
    absent : (o : Option ℤ) → is_some o ≡ false → o ≡ none
    absent none e = refl
    absent (some x) e = cc

    same : (k ==ℤ j) ≡ true → lookup k m.entries ≡ lookup j m.entries
    same e = ap (λ (x : ℤ). lookup x m.entries) ((==ℤ_iff k j).0 e)

    removed :
        ((is_some (lookup k m.entries) ≡ true) ⊎ (is_some (lookup k m.entries) ≡ false))
        → get j (remove k m) ≡ (if k ==ℤ j then none else lookup j m.entries)
    removed (inl p) = rw p (lookup-delete k j m.entries)
    removed (inr p) = rw p (elim (Bool-cases (k ==ℤ j)) [
      | inl q ↦ rw q (sym (same q) ∙ absent (lookup k m.entries) p)
      | inr q ↦ rw q
    ])

values_of-keys :
    (m : List (ℤ × ℤ)) (ks : List ℤ)
    → ((k : ℤ) → 1 ≤ count k ks → is_some (lookup k m) ≡ true)
    → map some (values_of m ks) ≡ map (λ k. lookup k m) ks
unfolding values_of
values_of-keys m [] h = refl
values_of-keys m (k ∷ ks) h =
    found (lookup k m) refl (values_of-keys m ks (λ j p. h j (unfold count in ground (arith, p))))
  where
    found :
        (o : Option ℤ)
        → lookup k m ≡ o
        → map some (values_of m ks) ≡ map (λ k. lookup k m) ks
        → map some (cons_if (lookup k m) (values_of m ks)) ≡ lookup k m ∷ map (λ k. lookup k m) ks
    found none e rest = absurd (cc (h k (unfold count in ground arith), ap is_some e))
    found (some v) e rest = rw e (ap (λ (os : List (Option ℤ)). some v ∷ os) rest)

-- In a map whose order has each key of the entries exactly once and no other key, the values stand
-- in the order of the keys: the i-th value is what the i-th key is mapped to, and none is skipped.
pub values-keys : (m : OrderedMap) → IsValid m → map some (values m) ≡ map (λ k. get k m) (keys m)
unfolding values keys get
values-keys m h = values_of-keys m.entries m.order (λ k p. ground (arith, h k))
