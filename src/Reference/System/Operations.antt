-- ===== src/Reference/System/Operations.antt =====
-- The operations on channels of src/reference/eval.rs, by the running task.
use mani_tc.Prelude.{
  ℕ, ◌≤◌, ◌<◌, ◌≡◌, ◌≢◌, refl, sym, subst, ap, Bool, true, false, Bool-cases, Option, some, List,
  [], ◌∷◌, ◌++◌, All, length, length-append, if◌then◌else◌, inl, inr, arith,
}
use mani_tc.Prelude.Int.{pos}
use mani_tc.Reference.Ops.{Val, int}
use mani_tc.Reference.Comp.{Why, Comp}
use mani_tc.Reference.Valid.{IsVal}
use mani_tc.Reference.Behaves.{Behaves}
use mani_tc.Reference.Behaves.Rules.{zero-IsVal}
use mani_tc.Reference.Scheduler.{
  Row, System, set_row, pop_front, first, check_end, resume, has_room, send_on, recv_on, close_on,
  on_row,
}
use mani_tc.Reference.System.Valid.{Ends, Present, IsRow, IsCore, IsSystem, IsFine}
use mani_tc.Reference.System.Valid.Rows.{All-append, All-pop_front, All-first, length-set_row}
use mani_tc.Reference.System.Updates.{
  check_end-IsSystem, record_trap-IsSystem, resume-IsSystem, with_run, with_row,
}

nonempty-append : (xs ys : List ℕ) → xs ≢ [] → (xs ++ ys) ≢ []
nonempty-append [] ys h e = h refl
nonempty-append (x ∷ xs) ys h e = cc e

pub nonempty-back : (xs : List ℕ) (y : ℕ) → (xs ++ y ∷ []) ≢ []
nonempty-back [] y e = cc e
nonempty-back (x ∷ xs) y e = cc e

room-within :
    (row : Row) (v : Val)
    → has_room row ≡ true
    → (0 < row.cap → length row.values ≤ row.cap)
    → 0 < row.cap
    → length (row.values ++ v ∷ []) ≤ row.cap
room-within row v room within p = ground (arith, length-append row.values (v ∷ []))

module _ (fuel : ℕ) where
  pub IsFine-if :
      (b : Bool) (x y : System)
      → IsSystem fuel x
      → IsSystem fuel y
      → IsSystem fuel (if b then x else y)
  IsFine-if true x y h k = h
  IsFine-if false x y h k = k

  pub on_row-IsFine :
      (f : Row → System) (o : Option Row) (row : Row)
      → o ≡ some row
      → IsSystem fuel (f row)
      → IsFine fuel (on_row f o)
  on_row-IsFine f o row e h = subst (λ x. IsFine fuel (on_row f x)) (sym e) h

  -- A running task, and the row of a channel that it names.
  module _ (id : ℕ) (main : Bool) (g : System) (h : IsCore fuel g) (w : g.run ≢ [])
      (here : Present g.tasks id) where
    module _ (c : ℕ) (row : Row) (r : IsRow (length g.rows) g.tasks row) where
      blocked-IsSystem :
          (row' : Row)
          → IsRow (length g.rows) g.tasks row'
          → IsSystem fuel
              (check_end (record g { run = pop_front g.run; rows = set_row g.rows c row' }))
      blocked-IsSystem row' r' = check_end-IsSystem fuel _ (
          with_run fuel _ (pop_front g.run) (with_row fuel g c row' h r')
            (All-pop_front (Present g.tasks) g.run h.queue_ok))

      woken-IsSystem :
          (row' : Row) (ids : List ℕ) (k : Comp Unit)
          → IsRow (length g.rows) g.tasks row'
          → All (Present g.tasks) ids
          → Behaves Ends g.budget (length g.rows) k
          → IsSystem fuel
              (resume id main k (record g { rows = set_row g.rows c row'; run = g.run ++ ids }))
      woken-IsSystem row' ids k r' p b =
          resume-IsSystem fuel id main k _
            (with_run fuel _ (g.run ++ ids) (with_row fuel g c row' h r')
              (All-append (Present g.tasks) g.run ids h.queue_ok p))
            (nonempty-append g.run ids w)
            (subst (λ n. Behaves Ends g.budget n k) (sym (length-set_row g.rows c row')) b)

      pub send_on-IsSystem :
          (v : Val) (k : Comp Unit)
          → IsVal (length g.rows) v
          → Behaves Ends g.budget (length g.rows) k
          → IsSystem fuel (send_on id main c v k g row)
      send_on-IsSystem v k valid b =
          IsFine-if row.closed _ _ (record_trap-IsSystem fuel Why.send_closed g h)
            (elim (Bool-cases (has_room row)) [
              | inl room ↦ rw room (
                  woken-IsSystem _ (first row.blocked) k
                    (record {
                      values_ok =
                          All-append (IsVal (length g.rows)) row.values (v ∷ []) r.values_ok
                            (valid, tt);
                      within = room-within row v room r.within;
                      receivers = All-pop_front (Present g.tasks) row.blocked r.receivers;
                      senders = r.senders;
                    })
                    (All-first (Present g.tasks) row.blocked r.receivers) b)
              | inr full ↦ rw full (
                  blocked-IsSystem _ (record {
                    values_ok = r.values_ok;
                    within = r.within;
                    receivers = r.receivers;
                    senders =
                        All-append (Present g.tasks) row.blocked_send (id ∷ []) r.senders
                          (here, tt);
                  }))
            ])

      pub recv_on-IsSystem :
          (k : Val → Comp Unit)
          → ((v : Val) → IsVal (length g.rows) v → Behaves Ends g.budget (length g.rows) (k v))
          → IsSystem fuel (recv_on id main c k g row row.values)
      recv_on-IsSystem k b = cases row.values refl
        where
          cases : (vs : List Val) → row.values ≡ vs → IsSystem fuel (recv_on id main c k g row vs)
          cases [] e =
              IsFine-if row.closed _ _
                (resume-IsSystem fuel id main (k (int (pos 0))) g h w (b _ (zero-IsVal _)))
                (blocked-IsSystem _ (record {
                  values_ok = r.values_ok;
                  within = r.within;
                  senders = r.senders;
                  receivers =
                      All-append (Present g.tasks) row.blocked (id ∷ []) r.receivers (here, tt);
                }))
          cases (v ∷ vs) e =
              let valid : All (IsVal (length g.rows)) (v ∷ vs) =
                subst (All (IsVal (length g.rows))) e r.values_ok in
              woken-IsSystem _ (first row.blocked_send) (k v)
                (record {
                  values_ok = valid.1;
                  within = λ p. omega (arith, r.within p, ap length e);
                  receivers = r.receivers;
                  senders = All-pop_front (Present g.tasks) row.blocked_send r.senders;
                })
                (All-first (Present g.tasks) row.blocked_send r.senders) (b v valid.0)

      pub close_on-IsSystem :
          (k : Comp Unit)
          → Behaves Ends g.budget (length g.rows) k
          → IsSystem fuel (resume id main k (close_on c g row))
      close_on-IsSystem k b =
          woken-IsSystem _ (row.blocked ++ row.blocked_send) k
            (record { values_ok = r.values_ok; within = r.within; receivers = tt; senders = tt })
            (All-append (Present g.tasks) row.blocked row.blocked_send r.receivers r.senders) b
