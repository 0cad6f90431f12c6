-- ===== src/Ir/Reach/Worklist.antt =====
-- The worklist of dead block elimination in src/ir/optimize.rs beside reachability.
use mani_tc.Prelude.{
  ℕ, zero, suc, ◌+◌, ◌≤◌, ◌<◌, ◌≡◌, refl, sym, ap, ◌∙◌, ◌⊎◌, true, false, ◌||◌, Bool-cases, Option,
  none, some, List, [], ◌∷◌, if◌then◌else◌, ◌==◌, inl, inr, ==_iff, arith, length,
}
use mani_tc.Ir.Types.{Block}
use mani_tc.Ir.Dead.{contains}
use mani_tc.Ir.Reach.{later, index, pushes, push_all, mark}

-- The labels that control reaches from one label, or that a phi of a reached block names.
pub data Reaches (bs : List Block) (start : ℕ) : ℕ → Type 0 where
  entry : Reaches bs start start
  edge :
      {l t : ℕ} → Reaches bs start l → contains t (pushes (index bs l)) ≡ true → Reaches bs start t

contains-push_all :
    (t : ℕ) (ls work : List ℕ) → contains t (push_all ls work) ≡ (contains t ls || contains t work)
unfolding contains push_all
contains-push_all t [] work = refl
contains-push_all t (l ∷ ls) work = ground (arith, contains-push_all t ls (l ∷ work))

length-push_all : (ls work : List ℕ) → length (push_all ls work) ≡ length ls + length work
unfolding push_all
length-push_all [] work = omega arith
length-push_all (l ∷ ls) work = omega (arith, length-push_all ls (l ∷ work))

-- The pushes that are still to come: those of the blocks that are not live.
unfoldable pub pending : List Block → List ℕ → ℕ
pending [] live = 0
pending (b ∷ bs) live =
    (if contains b.label live then 0 else length (pushes (some b))) + pending bs live

pending_antitone :
    (l : ℕ) (bs : List Block) (live : List ℕ) → pending bs (l ∷ live) ≤ pending bs live
unfolding pending contains
pending_antitone l [] live = omega arith
pending_antitone l (b ∷ bs) live = ground (arith, pending_antitone l bs live)

-- A block more before the others: whether the label is its own or not.
visit-cons :
    (l : ℕ) (b : Block) (bs : List Block) (live : List ℕ) (o : Option Block)
    → contains l live ≡ false
    → length (pushes o) + pending bs (l ∷ live) ≤ pending bs live
    → length (pushes (later o (if b.label == l then some b else none)))
        + pending (b ∷ bs) (l ∷ live)
      ≤ pending (b ∷ bs) live
unfolding pending contains pushes
visit-cons l b bs live none h ih = elim (Bool-cases (b.label == l)) [
  | inl p ↦ ground (arith, pending_antitone l bs live)
  | inr p ↦ ground (arith, pending_antitone l bs live)
]
visit-cons l b bs live (some c) h ih = ground arith

pending-visit :
    (l : ℕ) (bs : List Block) (live : List ℕ)
    → contains l live ≡ false
    → length (pushes (index bs l)) + pending bs (l ∷ live) ≤ pending bs live
unfolding index
pending-visit l [] live h = unfold pending pushes in omega arith
pending-visit l (b ∷ bs) live h = visit-cons l b bs live (index bs l) h (pending-visit l bs live h)

unfoldable pub enough : List Block → ℕ
enough bs = suc (suc (pending bs []))

-- How a label moves between the live labels and the worklist.
module _ (t l : ℕ) (live : List ℕ) where
  same-contains : l ≡ t → contains l live ≡ contains t live
  same-contains e = ap (λ k. contains k live) e

  widen :
      (work : List ℕ)
      → (contains t live || contains t work) ≡ true
      → (contains t live || contains t (l ∷ work)) ≡ true
  unfolding contains
  widen work h = ground arith

  take_off :
      (work : List ℕ)
      → contains l live ≡ true
      → (contains t live || contains t (l ∷ work)) ≡ true
      → (contains t live || contains t work) ≡ true
  unfolding contains
  take_off work p h = elim (Bool-cases (l == t)) [
    | inl q ↦ rw (sym (same-contains ((==_iff l t).0 q)), p) refl
    | inr q ↦ ground arith
  ]

  split :
      (ls work : List ℕ)
      → (contains t (l ∷ live) || contains t (push_all ls work)) ≡ true
      → ((contains t live || contains t (l ∷ work)) ≡ true) ⊎ (contains t ls ≡ true)
  unfolding contains
  split ls work h = ground (arith, contains-push_all t ls work)

  from_pushes :
      (ls work : List ℕ)
      → contains t ls ≡ true
      → (contains t (l ∷ live) || contains t (push_all ls work)) ≡ true
  unfolding contains
  from_pushes ls work h = ground (arith, contains-push_all t ls work)

  from_before :
      (ls work : List ℕ)
      → (contains t live || contains t (l ∷ work)) ≡ true
      → (contains t (l ∷ live) || contains t (push_all ls work)) ≡ true
  unfolding contains
  from_before ls work h = ground (arith, contains-push_all t ls work)

older :
    (k l : ℕ) (live : List ℕ)
    → (l == k) ≡ false
    → contains k (l ∷ live) ≡ true
    → contains k live ≡ true
unfolding contains
older k l live p h = ground arith

top : (l : ℕ) (live work : List ℕ) → (contains l live || contains l (l ∷ work)) ≡ true
unfolding contains
top l live work = ground arith

module _ (bs : List Block) (start : ℕ) where
  -- What holds of the live labels and the worklist in every round.
  abbrev pub Sound : List ℕ → List ℕ → Type 0
  Sound live work = (t : ℕ) → (contains t live || contains t work) ≡ true → Reaches bs start t

  abbrev pub Closed : List ℕ → List ℕ → Type 0
  Closed live work =
      (l t : ℕ)
      → contains l live ≡ true
      → contains t (pushes (index bs l)) ≡ true
      → (contains t live || contains t work) ≡ true

  abbrev pub Marked : List ℕ → Type 0
  Marked live = Sound live [] × Closed live [] × (contains start live ≡ true)

  seen-invariant :
      (live work : List ℕ) (l : ℕ)
      → contains l live ≡ true
      → Sound live (l ∷ work)
      → Closed live (l ∷ work)
      → Sound live work × Closed live work
  seen-invariant live work l p s c =
      (λ t h. s t (widen t l live work h), λ k t h e. take_off t l live work p (c k t h e))

  visit-Sound :
      (live work : List ℕ) (l : ℕ)
      → Sound live (l ∷ work)
      → Sound (l ∷ live) (push_all (pushes (index bs l)) work)
  visit-Sound live work l s t h = elim (split t l live (pushes (index bs l)) work h) [
    | inl p ↦ s t p
    | inr p ↦ edge (s l (top l live work)) p
  ]

  visit-Closed :
      (live work : List ℕ) (l : ℕ)
      → Closed live (l ∷ work)
      → Closed (l ∷ live) (push_all (pushes (index bs l)) work)
  visit-Closed live work l c k t h e = elim (Bool-cases (l == k)) [
    | inl p ↦
        from_pushes t l live (pushes (index bs l)) work
          (ap (λ x. contains t (pushes (index bs x))) ((==_iff l k).0 p) ∙ e)
    | inr p ↦ from_before t l live (pushes (index bs l)) work (c k t (older k l live p h) e)
  ]

  pub mark-Marked :
      (n : ℕ) (live work : List ℕ)
      → length work + pending bs live < n
      → Sound live work
      → Closed live work
      → (contains start live || contains start work) ≡ true
      → (found : List ℕ) × (mark n bs live work ≡ some found) × Marked found
  unfolding mark
  mark-Marked zero live work h s c e = ground arith
  mark-Marked (suc n) live [] h s c e = (live, refl, (s, c, unfold contains in ground arith))
  mark-Marked (suc n) live (l ∷ work) h s c e = elim (Bool-cases (contains l live)) [
    | inl p ↦ rw p (
        let (s', c') = seen-invariant live work l p s c in
        mark-Marked n live work (omega arith) s' c' (take_off start l live work p e))
    | inr p ↦ rw p (
        mark-Marked n (l ∷ live) (push_all (pushes (index bs l)) work)
          (omega (arith, length-push_all (pushes (index bs l)) work, pending-visit l bs live p))
          (visit-Sound live work l s) (visit-Closed live work l c)
          (from_before start l live (pushes (index bs l)) work e))
  ]
