-- ===== src/Semantic/Scope.antt =====
-- The symbol table of src/semantic/scope.rs. The scopes of the vector stand innermost first; a name
-- is a number.
pub mod Bindings
use mani_tc.Prelude.{
  ℕ, zero, suc, ◌-◌, Bool, true, false, Option, none, some, List, [], ◌∷◌, ◌++◌, map, length, ltb,
  if◌then◌else◌,
}
use mani_tc.Prelude.Maps
use mani_tc.Semantic.Types.{ManiType}

pub record SymbolInfo : Type 0 where
  pub ty : ManiType
  pub mutable : Bool

pub record Scope : Type 0 where
  pub symbols : List (ℕ × SymbolInfo)

pub record SymbolTable : Type 0 where
  pub scopes : List Scope

abbrev pub new_scope : Scope
new_scope = record { symbols = [] }

unfoldable pub new : SymbolTable
new = record { scopes = new_scope ∷ [] }

unfoldable pub push_scope : SymbolTable → SymbolTable
push_scope t = record { scopes = new_scope ∷ t.scopes }

unfoldable pub depth : SymbolTable → ℕ
depth t = length t.scopes

-- The loop drops a scope while more than d are left.
unfoldable pub truncate_scopes : ℕ → List Scope → List Scope
truncate_scopes d [] = []
truncate_scopes d (s ∷ rest) =
    let shorter = truncate_scopes d rest in if ltb d (length (s ∷ rest)) then shorter else s ∷ rest

unfoldable pub truncate_to : ℕ → SymbolTable → SymbolTable
truncate_to d t = record { scopes = truncate_scopes (if ltb d 1 then 1 else d) t.scopes }

abbrev pub pop_of : List Scope → List Scope
pop_of [] = []
pop_of (s ∷ []) = s ∷ []
pop_of (s ∷ outer ∷ rest) = outer ∷ rest

unfoldable pub pop_scope : SymbolTable → SymbolTable
pop_scope t = record { scopes = pop_of t.scopes }

abbrev pub define_in : ℕ → SymbolInfo → List Scope → List Scope
define_in name info [] = []
define_in name info (s ∷ rest) = record { symbols = Maps.insert name info s.symbols } ∷ rest

unfoldable pub define : ℕ → ManiType → Bool → SymbolTable → SymbolTable
define name ty mutable t = record {
  scopes = define_in name (record { ty = ty; mutable = mutable }) t.scopes;
}

abbrev pub or_outer : Option SymbolInfo → Option SymbolInfo → Option SymbolInfo
or_outer none rest = rest
or_outer (some info) rest = some info

unfoldable pub lookup_in : ℕ → List Scope → Option SymbolInfo
lookup_in name [] = none
lookup_in name (s ∷ rest) = or_outer (Maps.lookup name s.symbols) (lookup_in name rest)

unfoldable pub lookup : ℕ → SymbolTable → Option SymbolInfo
lookup name t = lookup_in name t.scopes

abbrev pub at_depth : ℕ → Option SymbolInfo → Option (ℕ × SymbolInfo) → Option (ℕ × SymbolInfo)
at_depth d none rest = rest
at_depth d (some info) rest = some (d, info)

unfoldable pub lookup_deep : ℕ → List Scope → Option (ℕ × SymbolInfo)
lookup_deep name [] = none
lookup_deep name (s ∷ rest) =
    at_depth (length rest) (Maps.lookup name s.symbols) (lookup_deep name rest)

unfoldable pub lookup_with_depth : ℕ → SymbolTable → Option (ℕ × SymbolInfo)
lookup_with_depth name t = lookup_deep name t.scopes

abbrev pub names_of : List Scope → List ℕ
names_of [] = []
names_of (s ∷ rest) = names_of rest ++ map (λ e. e.0) s.symbols

-- The names of all scopes, the outermost first.
unfoldable pub all_names : SymbolTable → List ℕ
all_names t = names_of t.scopes
