-- ===== src/Bytes/Split.antt =====
-- Splitting and replacing in byte strings, `bytes_split` and `bytes_replace` of
-- src/codegen_t3/emulator/mod.rs.
use mani_tc.Prelude.{
  append_assoc, append-nil, ℕ, zero, suc, ◌+◌, ◌-◌, ◌≤◌, ◌<◌, ◌≡◌, sym, ap, ◌∙◌, Option-cases, inl,
  inr, none, some, List, [], ◌∷◌, ◌++◌, true, false, length, length-append, Bool, arith,
  if◌then◌else◌,
}
use mani_tc.Bytes.{
  take, drop, is_nil, same_bytes, first_match, bytes_find, split_loop, replace_loop, bytes_split,
  bytes_replace,
}
use mani_tc.Bytes.Find.{
  first_at, first_at-le, take-drop, drop-drop, same_bytes-eq, first_match-some, length-take,
  bytes_find-first_at,
}

-- What stands after the first piece, with a separator before each further one.
abbrev pub joined : List ℕ → List (List ℕ) → List ℕ
joined sep [] = []
joined sep (p ∷ ps) = sep ++ (p ++ joined sep ps)

-- The pieces of a string, with a separator between each two.
abbrev pub join : List ℕ → List (List ℕ) → List ℕ
join sep [] = []
join sep (p ∷ ps) = p ++ joined sep ps

-- The separator is found first right after each piece but the last, and not in the last one.
abbrev pub EndsFirst : List ℕ → List ℕ → List (List ℕ) → Type 0
EndsFirst sep p [] = first_at sep p ≡ none
EndsFirst sep p (q ∷ ps) =
    (first_at sep (p ++ joined sep (q ∷ ps)) ≡ some (length p)) × EndsFirst sep q ps

abbrev pub AreLeftmost : List ℕ → List (List ℕ) → Type 0
AreLeftmost sep [] = ⊥
AreLeftmost sep (p ∷ ps) = EndsFirst sep p ps

module _ (rest needle : List ℕ) (h : is_nil needle ≡ false) where
  bytes_find-some :
      (i : ℕ)
      → bytes_find rest needle ≡ some i
      → take i rest ++ (needle ++ drop (i + length needle) rest) ≡ rest
  unfolding bytes_find
  bytes_find-some i e =
      let found : take (length needle) (drop i rest) ≡ needle =
        same_bytes-eq _ _ (either _ (rw h at e)) in
      ap (λ (l : List ℕ). take i rest ++ l)
        (ap (λ (l : List ℕ). l ++ drop (i + length needle) rest) (sym found)
          ∙ ap (λ (l : List ℕ). take (length needle) (drop i rest) ++ l)
              (sym (drop-drop i (length needle) rest))
          ∙ take-drop (length needle) (drop i rest))
      ∙ take-drop i rest
    where
      either :
          (b : Bool)
          → (if b then none else first_match rest needle (length rest - length needle + 1) 0)
            ≡ some i
          → same_bytes (take (length needle) (drop i rest)) needle ≡ true
      either true p = cc
      either false p = first_match-some rest needle _ 0 i p

  nonempty : 1 ≤ length needle
  nonempty = positive needle h
    where
      positive : (s : List ℕ) → is_nil s ≡ false → 1 ≤ length s
      positive [] e = cc
      positive (b ∷ s) e = omega arith

  shorter :
      (i : ℕ)
      → bytes_find rest needle ≡ some i
      → length (drop (i + length needle) rest) < length rest
  shorter i e = omega (
    arith,
    nonempty,
    ap (λ (l : List ℕ). length l) (bytes_find-some i e),
    length-append (take i rest) (needle ++ drop (i + length needle) rest),
    length-append needle (drop (i + length needle) rest),
  )

module _ (sep repl : List ℕ) (h : is_nil sep ≡ false) where
  -- The first piece, the others, and what the loops make of them.
  abbrev IsSplit : ℕ → List ℕ → List ℕ → List (List ℕ) → Type 0
  IsSplit fuel rest p ps =
      (split_loop fuel rest sep ≡ some (p ∷ ps))
      × (p ++ joined sep ps ≡ rest)
      × EndsFirst sep p ps
      × (replace_loop fuel rest sep repl ≡ some (p ++ joined repl ps))

  loops_total :
      (fuel : ℕ) (rest : List ℕ)
      → length rest < fuel
      → (p : List ℕ) × (ps : List (List ℕ)) × IsSplit fuel rest p ps
  unfolding split_loop replace_loop
  loops_total zero rest l = absurd (omega arith)
  loops_total (suc fuel) rest l = elim (Option-cases (bytes_find rest sep)) [
    | inl e ↦ (
      rest,
      [],
      (
        rw (split_loop, e),
        append-nil rest,
        sym (bytes_find-first_at rest sep h (nonempty rest sep h)) ∙ e,
        rw (replace_loop, e) (ap some (sym (append-nil rest))),
      ),
    )
    | inr (i, e) ↦
        let left = drop (i + length sep) rest in
        let (p, ps, (split, whole, ended, replaced)) =
          loops_total fuel left (omega (arith, shorter rest sep h i e)) in
        let found : first_at sep rest ≡ some i =
          sym (bytes_find-first_at rest sep h (nonempty rest sep h)) ∙ e in
        let all : take i rest ++ joined sep (p ∷ ps) ≡ rest =
          ap (λ (s : List ℕ). take i rest ++ (sep ++ s)) whole ∙ bytes_find-some rest sep h i e in
        (
          take i rest,
          p ∷ ps,
          (
            rw (split_loop, e, split),
            all,
            (
              ap (first_at sep) all
                  ∙ found
                  ∙ ap some (sym (length-take i rest (first_at-le sep rest i found))),
              ended,
            ),
            rw (replace_loop, e, replaced)
                (ap some (append_assoc (take i rest) repl (p ++ joined repl ps))),
          ),
        )
  ]

  -- For a separator that is not empty, splitting ends with pieces that, joined by the separator, are
  -- the string again; in the string from each piece on, the separator stands first right after that
  -- piece, and it stands nowhere in the last one; replacing ends with the same pieces joined by the
  -- replacement. Where the separator stands first is said by a search of its own, not by the code's.
  pub bytes_split-join :
      (hay : List ℕ)
      → (pieces : List (List ℕ)) × (bytes_split hay sep ≡ some pieces)
        × (join sep pieces ≡ hay)
        × AreLeftmost sep pieces
        × (bytes_replace hay sep repl ≡ some (join repl pieces))
  unfolding bytes_split bytes_replace
  bytes_split-join hay =
      let (p, ps, (split, whole, ended, replaced)) =
        loops_total (length hay + 1) hay (omega arith) in
      (p ∷ ps, rw h split, whole, ended, rw h replaced)
