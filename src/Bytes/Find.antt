-- ===== src/Bytes/Find.antt =====
-- The search of `bytes_find` of src/codegen_t3/emulator/mod.rs, and a search that is written without it:
-- the first place where a string starts with another.
use mani_tc.Prelude.{
  ℕ, zero, suc, ◌+◌, ◌-◌, ◌≤◌, ◌<◌, ◌≡◌, refl, sym, ap, ◌∙◌, Bool-cases, inl, inr, Option, none,
  some, List, [], ◌∷◌, ◌++◌, true, false, length, ltb, ◌&&◌, Bool, arith, ◌⊎◌, if◌then◌else◌,
  ==_iff, ◌==◌,
}
use mani_tc.Bytes.{take, drop, is_nil, same_bytes, first_match, bytes_find}

pub take-drop : (n : ℕ) (s : List ℕ) → take n s ++ drop n s ≡ s
unfolding take drop
take-drop zero s = refl
take-drop (suc n) [] = refl
take-drop (suc n) (b ∷ s) = ap (λ (l : List ℕ). b ∷ l) (take-drop n s)

drop-nil : (n : ℕ) → drop n [] ≡ []
unfolding drop
drop-nil zero = refl
drop-nil (suc n) = refl

pub drop-drop : (i n : ℕ) (s : List ℕ) → drop n (drop i s) ≡ drop (i + n) s
unfolding drop
drop-drop zero n s = ap (λ (k : ℕ). drop k s) (omega arith)
drop-drop (suc i) n [] = drop-nil n ∙ sym (drop-nil (suc i + n))
drop-drop (suc i) n (b ∷ s) = drop-drop i n s ∙ ap (λ (k : ℕ). drop k (b ∷ s)) same
  where
    same : suc (i + n) ≡ suc i + n
    same = omega arith

pub same_bytes-eq : (s t : List ℕ) → same_bytes s t ≡ true → s ≡ t
unfolding same_bytes
same_bytes-eq [] [] h = refl
same_bytes-eq [] (b ∷ t) h = cc
same_bytes-eq (a ∷ s) [] h = cc
same_bytes-eq (a ∷ s) (b ∷ t) h = heads (Bool-cases (a == b)) (λ e. same_bytes-eq s t e)
  where
    heads : ((a == b) ≡ true) ⊎ ((a == b) ≡ false) → (same_bytes s t ≡ true → s ≡ t) → a ∷ s ≡ b ∷ t
    heads (inl p) tails = cc ((==_iff a b).0 p, tails (rw p at h))
    heads (inr p) tails = cc (rw p at h)

pub first_match-some :
    (hay needle : List ℕ) (n i j : ℕ)
    → first_match hay needle n i ≡ some j
    → same_bytes (take (length needle) (drop j hay)) needle ≡ true
unfolding first_match
first_match-some hay needle zero i j h = cc
first_match-some hay needle (suc n) i j h = ground (arith, first_match-some hay needle n (i + 1) j)

-- A search of its own: whether a string starts with another, and the first place where it does.
unfoldable pub starts_with : List ℕ → List ℕ → Bool
starts_with [] s = true
starts_with (a ∷ needle) [] = false
starts_with (a ∷ needle) (b ∷ s) = (b == a) && starts_with needle s

abbrev pub one_on : Option ℕ → Option ℕ
one_on none = none
one_on (some i) = some (suc i)

unfoldable pub first_at : List ℕ → List ℕ → Option ℕ
first_at needle [] = if starts_with needle [] then some 0 else none
first_at needle (b ∷ s) =
    let later = one_on (first_at needle s) in if starts_with needle (b ∷ s) then some 0 else later

same_bytes-take :
    (needle s : List ℕ) → same_bytes (take (length needle) s) needle ≡ starts_with needle s
unfolding same_bytes take starts_with
same_bytes-take [] s = refl
same_bytes-take (a ∷ needle) [] = refl
same_bytes-take (a ∷ needle) (b ∷ s) = ap (λ t. (b == a) && t) (same_bytes-take needle s)

too_short : (needle s : List ℕ) → length s < length needle → starts_with needle s ≡ false
unfolding starts_with
too_short [] s h = absurd (omega arith)
too_short (a ∷ needle) [] h = refl
too_short (a ∷ needle) (b ∷ s) h = ground (arith, too_short needle s)

first_at-short : (needle s : List ℕ) → length s < length needle → first_at needle s ≡ none
unfolding first_at
first_at-short needle [] h = rw (too_short needle [] h)
first_at-short needle (b ∷ s) h =
    rw (too_short needle (b ∷ s) h, first_at-short needle s (omega arith))

abbrev shifted : ℕ → Option ℕ → Option ℕ
shifted i none = none
shifted i (some j) = some (i + j)

shifted-one_on :
    (i : ℕ) (b : Bool) (o : Option ℕ)
    → (if b then some i else shifted (i + 1) o) ≡ shifted i (if b then some 0 else one_on o)
shifted-one_on i true o = ap some (omega arith)
shifted-one_on i false none = refl
shifted-one_on i false (some j) = ap some (omega arith)

-- The search from a place on, where as many places are left as the needle fits.
first_match-first_at :
    (hay needle : List ℕ) (n i : ℕ) (s : List ℕ)
    → 1 ≤ length needle
    → drop i hay ≡ s
    → n + length needle ≡ length s + 1
    → first_match hay needle n i ≡ shifted i (first_at needle s)
unfolding first_match first_at drop
first_match-first_at hay needle zero i s l e h = rw (first_at-short needle s (omega (arith, h)))
first_match-first_at hay needle (suc n) i [] l e h = absurd (omega (arith, l, h))
first_match-first_at hay needle (suc n) i (b ∷ s) l e h =
    rw
      (
        e,
        same_bytes-take needle (b ∷ s),
        first_match-first_at hay needle n (i + 1) s l
            (sym (drop-drop i 1 hay) ∙ ap (λ (t : List ℕ). drop 1 t) e) (omega (arith, h)),
      )
      (shifted-one_on i (starts_with needle (b ∷ s)) (first_at needle s))

pub first_at-le : (needle s : List ℕ) (i : ℕ) → first_at needle s ≡ some i → i ≤ length s
unfolding first_at
first_at-le needle [] i h = ground (arith, h)
first_at-le needle (b ∷ s) i h =
    split (starts_with needle (b ∷ s)) (first_at needle s) (first_at-le needle s) h
  where
    split :
        (c : Bool) (o : Option ℕ)
        → ((j : ℕ) → o ≡ some j → j ≤ length s)
        → (if c then some 0 else one_on o) ≡ some i
        → i ≤ suc (length s)
    split true o k e = ground (arith, e)
    split false none k e = cc
    split false (some j) k e = let le = k j refl in ground (arith, e, le)

pub length-take : (i : ℕ) (s : List ℕ) → i ≤ length s → length (take i s) ≡ i
unfolding take
length-take zero s h = refl
length-take (suc i) [] h = absurd (omega arith)
length-take (suc i) (b ∷ s) h = ap suc (length-take i s (omega arith))

-- For a needle that is not empty.
pub bytes_find-first_at :
    (hay needle : List ℕ)
    → is_nil needle ≡ false
    → 1 ≤ length needle
    → bytes_find hay needle ≡ first_at needle hay
unfolding bytes_find drop
bytes_find-first_at hay needle h l = rw h (either (ltb (length hay) (length needle)) refl)
  where
    unshifted : (o : Option ℕ) → shifted 0 o ≡ o
    unshifted none = refl
    unshifted (some j) = ap some (omega arith)

    either :
        (b : Bool)
        → ltb (length hay) (length needle) ≡ b
        → (if b then none else first_match hay needle (length hay - length needle + 1) 0)
          ≡ first_at needle hay
    either true p = sym (first_at-short needle hay (ground (arith, p)))
    either false p =
        first_match-first_at hay needle (length hay - length needle + 1) 0 hay l refl
          (ground (arith, p))
        ∙ unshifted (first_at needle hay)
