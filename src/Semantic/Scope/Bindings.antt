-- ===== src/Semantic/Scope/Bindings.antt =====
-- Names and scopes of the symbol table of src/semantic/scope.rs.
use mani_tc.Prelude.{
  ℕ, suc, ◌≤◌, ◌≡◌, refl, ap, ◌∙◌, Bool, true, false, Option, none, some, List, [], ◌∷◌, ◌++◌,
  length, ltb, ◌==◌, if◌then◌else◌, arith,
}
use mani_tc.Prelude.Maps
use mani_tc.Semantic.Types.{ManiType}
use mani_tc.Semantic.Scope.{
  SymbolInfo, Scope, SymbolTable, push_scope, depth, truncate_scopes, truncate_to, pop_of,
  pop_scope, define, or_outer, at_depth, lookup_in, lookup, lookup_deep, lookup_with_depth,
}

truncate-short :
    (d : ℕ) (scopes : List Scope) → length scopes ≤ d → truncate_scopes d scopes ≡ scopes
unfolding truncate_scopes
truncate-short d [] h = refl
truncate-short d (s ∷ rest) h = ground arith

length-longer : (extra base : List Scope) → length base ≤ length (extra ++ base)
length-longer [] base = omega arith
length-longer (s ∷ extra) base = omega (arith, length-longer extra base)

truncate-append : (extra base : List Scope) → truncate_scopes (length base) (extra ++ base) ≡ base
unfolding truncate_scopes
truncate-append [] base = truncate-short (length base) base (omega arith)
truncate-append (s ∷ extra) base =
    let longer = length-longer extra base in let rest = truncate-append extra base in ground arith

pop_of-inner : (s : Scope) (base : List Scope) → 1 ≤ length base → pop_of (s ∷ base) ≡ base
pop_of-inner s [] h = ground arith
pop_of-inner s (b ∷ base) h = refl

or_outer-if :
    (b : Bool) (info : SymbolInfo) (rest : Option SymbolInfo)
    → or_outer (if b then some info else none) rest ≡ (if b then some info else rest)
or_outer-if true info rest = refl
or_outer-if false info rest = refl

at_least : ℕ → ℕ
at_least d = if ltb d 1 then 1 else d

at_least-same : (d : ℕ) → 1 ≤ d → at_least d ≡ d
unfolding at_least
at_least-same d h = ground arith

truncated :
    (d : ℕ) (extra base : List Scope)
    → d ≡ length base
    → 1 ≤ d
    → truncate_scopes (if ltb d 1 then 1 else d) (extra ++ base) ≡ base
unfolding at_least
truncated d extra base e h = rw (at_least-same d h, e) (truncate-append extra base)

-- In a table with at least one scope, a name that is defined in a new scope is found there and all
-- other names as before, the end of that scope restores the table, and so does `truncate_to` with
-- the earlier depth, however many scopes were left open above it.
pub inner_scope :
    (t : SymbolTable) (name other : ℕ) (ty : ManiType) (mutable : Bool) (extra : List Scope)
    → 1 ≤ depth t
    → (lookup other (define name ty mutable (push_scope t))
        ≡ (if name == other then some (record { ty = ty; mutable = mutable }) else lookup other t))
      × (pop_scope (define name ty mutable (push_scope t)) ≡ t)
      × (truncate_to (depth t) (record { scopes = extra ++ t.scopes }) ≡ t)
unfolding lookup lookup_in define push_scope pop_scope truncate_to depth Maps.lookup Maps.insert
inner_scope t name other ty mutable extra h = (
  or_outer-if (name == other) _ _,
  ap (λ s. record { scopes = s }) (pop_of-inner _ t.scopes h),
  ap (λ s. record { scopes = s }) (truncated (length t.scopes) extra t.scopes refl h),
)

abbrev pub info_of : Option (ℕ × SymbolInfo) → Option SymbolInfo
info_of none = none
info_of (some (d, info)) = some info

abbrev pub is_below : ℕ → Option (ℕ × SymbolInfo) → Bool
is_below n none = true
is_below n (some (d, info)) = ltb d n

info-at_depth :
    (d : ℕ) (here : Option SymbolInfo) (rest : Option (ℕ × SymbolInfo))
    → info_of (at_depth d here rest) ≡ or_outer here (info_of rest)
info-at_depth d none rest = refl
info-at_depth d (some info) rest = refl

below-at_depth :
    (n : ℕ) (here : Option SymbolInfo) (rest : Option (ℕ × SymbolInfo))
    → is_below n rest ≡ true
    → is_below (suc n) (at_depth n here rest) ≡ true
below-at_depth n none none h = refl
below-at_depth n none (some (d, info)) h = ground arith
below-at_depth n (some info) rest h = ground arith

deep-lookup :
    (name : ℕ) (scopes : List Scope)
    → (info_of (lookup_deep name scopes) ≡ lookup_in name scopes)
      × (is_below (length scopes) (lookup_deep name scopes) ≡ true)
unfolding lookup_in lookup_deep
deep-lookup name [] = (refl, refl)
deep-lookup name (s ∷ rest) =
    let found = Maps.lookup name s.symbols in
    let (same, below) = deep-lookup name rest in
    (
      info-at_depth (length rest) found (lookup_deep name rest) ∙ ap (or_outer found) same,
      below-at_depth (length rest) found (lookup_deep name rest) below,
    )

-- `lookup_with_depth` finds what `lookup` finds, and the depth that it gives is that of a scope of
-- the table.
pub lookup_with_depth-lookup :
    (name : ℕ) (t : SymbolTable)
    → (info_of (lookup_with_depth name t) ≡ lookup name t)
      × (is_below (depth t) (lookup_with_depth name t) ≡ true)
unfolding lookup lookup_with_depth depth
lookup_with_depth-lookup name t = deep-lookup name t.scopes
