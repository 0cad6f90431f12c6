-- ===== src/Ordered.antt =====
-- src/codegen_t3/emulator/ordered.rs: maps and sets that iterate in insertion order. The
-- `BTreeMap` that finds a key is an association list; the order vector is a list, oldest first.
pub mod Map
pub mod Set
pub mod Compare
mod Tests
use mani_tc.Prelude.{
  ℕ, Bool, true, false, ◌&&◌, not, Option, none, some, List, [], ◌∷◌, ◌++◌, length, if◌then◌else◌,
}
use mani_tc.Prelude.Int.{ℤ, ◌==ℤ◌}

-- The part of `BTreeMap` that is used.
unfoldable pub lookup : ℤ → List (ℤ × ℤ) → Option ℤ
lookup k [] = none
lookup k ((j, v) ∷ m) = if j ==ℤ k then some v else lookup k m

unfoldable pub put : ℤ → ℤ → List (ℤ × ℤ) → List (ℤ × ℤ)
put k v [] = (k, v) ∷ []
put k v ((j, w) ∷ m) = if j ==ℤ k then (k, v) ∷ m else (j, w) ∷ put k v m

unfoldable pub delete : ℤ → List (ℤ × ℤ) → List (ℤ × ℤ)
delete k [] = []
delete k ((j, w) ∷ m) = let rest = delete k m in if j ==ℤ k then rest else (j, w) ∷ rest

abbrev pub is_some : Option ℤ → Bool
is_some none = false
is_some (some _) = true

-- `order.retain(|e| e != k)`.
unfoldable pub retain_ne : ℤ → List ℤ → List ℤ
retain_ne k [] = []
retain_ne k (x ∷ xs) = let rest = retain_ne k xs in if x ==ℤ k then rest else x ∷ rest

pub record OrderedMap : Type 0 where
  pub entries : List (ℤ × ℤ)
  pub order : List ℤ

unfoldable pub new : OrderedMap
new = record { entries = []; order = [] }

unfoldable pub insert : ℤ → ℤ → OrderedMap → OrderedMap
insert k v m = record {
  entries = put k v m.entries;
  order = if is_some (lookup k m.entries) then m.order else m.order ++ k ∷ [];
}

unfoldable pub get : ℤ → OrderedMap → Option ℤ
get k m = lookup k m.entries

unfoldable pub contains_key : ℤ → OrderedMap → Bool
contains_key k m = is_some (lookup k m.entries)

unfoldable pub remove : ℤ → OrderedMap → OrderedMap
remove k m =
    if is_some (lookup k m.entries)
    then record { entries = delete k m.entries; order = retain_ne k m.order }
    else m

unfoldable pub len : OrderedMap → ℕ
len m = length m.entries

unfoldable pub keys : OrderedMap → List ℤ
keys m = m.order

abbrev pub cons_if : Option ℤ → List ℤ → List ℤ
cons_if none vs = vs
cons_if (some v) vs = v ∷ vs

-- `filter_map(|k| self.entries.get(k).copied())` over the order.
unfoldable pub values_of : List (ℤ × ℤ) → List ℤ → List ℤ
values_of m [] = []
values_of m (k ∷ ks) = cons_if (lookup k m) (values_of m ks)

unfoldable pub values : OrderedMap → List ℤ
values m = values_of m.entries m.order

pub record OrderedSet : Type 0 where
  pub entries : List ℤ
  pub order : List ℤ

-- The part of `BTreeSet` that is used.
unfoldable pub member : ℤ → List ℤ → Bool
member x [] = false
member x (y ∷ ys) = if y ==ℤ x then true else member x ys

abbrev pub empty_set : OrderedSet
empty_set = record { entries = []; order = [] }

unfoldable pub contains : ℤ → OrderedSet → Bool
contains x s = member x s.entries

unfoldable pub insert_elem : ℤ → OrderedSet → OrderedSet
insert_elem x s =
    if member x s.entries then s else record { entries = x ∷ s.entries; order = s.order ++ x ∷ [] }

unfoldable pub remove_elem : ℤ → OrderedSet → OrderedSet
remove_elem x s =
    if member x s.entries
    then record { entries = retain_ne x s.entries; order = retain_ne x s.order }
    else s

unfoldable pub iter : OrderedSet → List ℤ
iter s = s.order

-- The loops of `filtered` and `union`.
unfoldable pub insert_kept : (ℤ → Bool) → List ℤ → OrderedSet → OrderedSet
insert_kept keep [] out = out
insert_kept keep (x ∷ xs) out = insert_kept keep xs (if keep x then insert_elem x out else out)

unfoldable pub filtered : (ℤ → Bool) → OrderedSet → OrderedSet
filtered keep s = insert_kept keep s.order empty_set

unfoldable pub intersection : OrderedSet → OrderedSet → OrderedSet
intersection s other = filtered (λ x. contains x other) s

unfoldable pub difference : OrderedSet → OrderedSet → OrderedSet
difference s other = filtered (λ x. not (contains x other)) s

unfoldable pub union : OrderedSet → OrderedSet → OrderedSet
union s other = insert_kept (λ x. true) other.order s

-- The tests of two `BTreeSet`s.
abbrev pub all_members : (ℤ → Bool) → List ℤ → Bool
all_members p [] = true
all_members p (x ∷ xs) = p x && all_members p xs

unfoldable pub is_subset : OrderedSet → OrderedSet → Bool
is_subset s other = all_members (λ x. member x other.entries) s.entries

unfoldable pub is_superset : OrderedSet → OrderedSet → Bool
is_superset s other = all_members (λ x. member x s.entries) other.entries

unfoldable pub is_disjoint : OrderedSet → OrderedSet → Bool
is_disjoint s other = all_members (λ x. not (member x other.entries)) s.entries
