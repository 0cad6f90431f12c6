-- ===== src/Semantic/Tests.antt =====
-- The types and the symbol table of the checker: runs, and the theorems at concrete values.
use mani_tc.Prelude.{◌≡◌, refl, ◌≤◌, sym, subst, true, false, none, some, [], ◌∷◌, arith}
use mani_tc.Prelude.Maps
use mani_tc.Semantic.Types.{
  ManiType, nil, cons, is_numeric, is_known, same_type, at_once, parts_compatible, types_compatible,
}
use mani_tc.Semantic.Types
use mani_tc.Semantic.Compatible.{types_compatible_lem}
use mani_tc.Semantic.Scope.{
  SymbolTable, new, new_scope, push_scope, depth, truncate_to, pop_scope, define, lookup_in, lookup,
}
use mani_tc.Semantic.Scope.Bindings.{inner_scope}

abbrev int_array : ManiType
int_array = Types.array Types.int (some 2)

abbrev float_array : ManiType
float_array = Types.array Types.float none

array_run : types_compatible int_array float_array ≡ true
unfolding types_compatible at_once same_type is_known is_numeric parts_compatible
    Types.lengths_agree
array_run = refl

types_compatible_lem_example :
    (types_compatible int_array float_array ≡ types_compatible float_array int_array)
    × (types_compatible int_array int_array ≡ true)
    × (types_compatible Types.unknown int_array ≡ true)
types_compatible_lem_example = types_compatible_lem int_array float_array

abbrev globals : SymbolTable
globals = define 7 Types.int false new

one_scope : depth globals ≡ 1
unfolding depth define new
one_scope = refl

found_run : lookup 7 globals ≡ some (record { ty = Types.int; mutable = false })
unfolding lookup lookup_in define new Maps.lookup Maps.insert
found_run = refl

inner_scope_example :
    (lookup 7 (define 7 Types.str true (push_scope globals))
      ≡ some (record { ty = Types.str; mutable = true }))
    × (pop_scope (define 7 Types.str true (push_scope globals)) ≡ globals)
    × (truncate_to (depth globals) (record { scopes = new_scope ∷ new_scope ∷ globals.scopes })
        ≡ globals)
inner_scope_example =
    inner_scope globals 7 7 Types.str true (new_scope ∷ new_scope ∷ [])
      (subst (λ d. 1 ≤ d) (sym one_scope) (omega arith))
