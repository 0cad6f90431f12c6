-- ===== src/Semantic/ConstEval/Parts.antt =====
-- The parts of an expression in src/semantic/const_eval.rs, over an evaluator of them that settles.
use mani_tc.Prelude.{
  ℕ, suc, ◌+◌, ◌==◌, ◌<◌, leb, ◌≡◌, refl, ap, not, Option, none, some, List, [], ◌∷◌, length, arith,
}
use mani_tc.Prelude.Maps
use mani_tc.Prelude.Int.{ℤ, pos, ◌==ℤ◌}
use mani_tc.Semantic.Syntax.{Expr, Block, Args, no_args, arg, Elifs, no_elifs, elif, FnDef}
use mani_tc.Semantic.ConstEval.{
  Eval, ConstCtx, Out, ◌>>=◌, declare, assign_in, entered, max_depth, count_args, assigned,
}
use mani_tc.Semantic.ConstEval.Run.{
  Evaluator, pick_elifs, pick_branch, value_of, flow_of, bind_args, in_frame, call_fn, expr_step,
}
use mani_tc.Semantic.ConstEval.Settles.{
  Follows, Settles, Follows-refl, Settles-bind, Settles-if, Settles-returned,
}

-- On a budget of fewer steps than n, the evaluator of the parts settles.
pub record IsEvaluator (n : ℕ) (ev : Evaluator) : Type 0 where
  pub expr_ok : (e : Expr) (s : Eval) → s.budget < n → Settles s (ev.expr e s)
  pub value_ok : (b : Block) (s : Eval) → s.budget < n → Settles s (ev.value b s)
  pub run_ok : (b : Block) (s : Eval) → s.budget < n → Settles s (ev.run b s)
  pub loop_ok : (c : Expr) (b : Block) (s : Eval) → s.budget < n → Settles s (ev.loop c b s)

length-declare : (n : ℕ) (v : ℤ) (scopes : _) → length (declare n v scopes) ≡ length scopes
length-declare n v [] = refl
length-declare n v (frame ∷ outer) = refl

pub declare-Follows :
    (n : ℕ) (v : ℤ) (s : Eval) → Follows s (record s { scopes = declare n v s.scopes })
declare-Follows n v s = record {
  spent = omega arith;
  scopes_kept = length-declare n v s.scopes;
  depth_kept = refl;
}

-- An assignment keeps the number of scopes.
abbrev pub IsAsLong : ℕ → Option (List (List (ℕ × ℤ))) → Type 0
IsAsLong n none = Unit
IsAsLong n (some scopes) = length scopes ≡ n

entered-IsAsLong :
    (n : ℕ) (v : ℤ) (frame : List (ℕ × ℤ)) (outer : List (List (ℕ × ℤ))) (at : Option ℤ)
    (later : Option (List (List (ℕ × ℤ))))
    → IsAsLong (length outer) later
    → IsAsLong (suc (length outer)) (entered n v frame outer at later)
entered-IsAsLong n v frame outer (some old) later h = refl
entered-IsAsLong n v frame outer none none h = tt
entered-IsAsLong n v frame outer none (some scopes) h = ap suc h

pub assign_in-IsAsLong :
    (n : ℕ) (v : ℤ) (scopes : List (List (ℕ × ℤ))) → IsAsLong (length scopes) (assign_in n v scopes)
unfolding assign_in
assign_in-IsAsLong n v [] = tt
assign_in-IsAsLong n v (frame ∷ outer) =
    entered-IsAsLong n v frame outer (Maps.lookup n frame) (assign_in n v outer)
      (assign_in-IsAsLong n v outer)

pub assigned-Settles :
    (n : ℕ) (s : Eval) (o : Option (List (List (ℕ × ℤ))))
    → IsAsLong (length s.scopes) o
    → Settles s (assigned n s o)
assigned-Settles n s none h = Follows-refl s
assigned-Settles n s (some scopes) h = record {
  spent = omega arith;
  scopes_kept = h;
  depth_kept = refl;
}

module _ (n : ℕ) (ctx : ConstCtx) (ev : Evaluator) (good : IsEvaluator n ev) where
  pub branch-Settles :
      {A : Type 0} (c : Expr) (s : Eval) (f : ℤ → Eval → Out A)
      → s.budget < n
      → ((v : ℤ) (t : Eval) → t.budget < n → Settles t (f v t))
      → Settles s (ev.expr c s >>= f)
  branch-Settles c s f lt h =
      Settles-bind s (ev.expr c s) f (good.expr_ok c s lt)
        (λ v t k. h v t (omega (arith, k.spent, lt)))

  pick_elifs-Settles :
      (elifs : Elifs) (els : Option Block) (s : Eval)
      → s.budget < n
      → Settles s (pick_elifs ctx ev elifs els s)
  unfolding pick_elifs
  pick_elifs-Settles no_elifs els s lt = Follows-refl s
  pick_elifs-Settles (elif c b rest) els s lt =
      branch-Settles c s _ lt
        (λ v t k. Settles-if (v ==ℤ pos 0) t _ _ (pick_elifs-Settles rest els t k) (Follows-refl t))

  pick_branch-Settles :
      (c : Expr) (b : Block) (elifs : Elifs) (els : Option Block) (s : Eval)
      → s.budget < n
      → Settles s (pick_branch ctx ev c b elifs els s)
  unfolding pick_branch
  pick_branch-Settles c b elifs els s lt =
      branch-Settles c s _ lt (λ v t k.
        Settles-if (v ==ℤ pos 0) t _ _ (pick_elifs-Settles elifs els t k) (Follows-refl t))

  value_of-Settles : (b : Option Block) (s : Eval) → s.budget < n → Settles s (value_of ctx ev b s)
  value_of-Settles none s lt = Follows-refl s
  value_of-Settles (some b) s lt = good.value_ok b s lt

  pub flow_of-Settles :
      (b : Option Block) (s : Eval) → s.budget < n → Settles s (flow_of ctx ev b s)
  flow_of-Settles none s lt = Follows-refl s
  flow_of-Settles (some b) s lt = good.run_ok b s lt

  pub chosen-Settles :
      {A : Type 0} (c : Expr) (b : Block) (elifs : Elifs) (els : Option Block) (s : Eval)
      (f : Option Block → Eval → Out A)
      → s.budget < n
      → ((o : Option Block) (t : Eval) → t.budget < n → Settles t (f o t))
      → Settles s (pick_branch ctx ev c b elifs els s >>= f)
  chosen-Settles c b elifs els s f lt h =
      Settles-bind s (pick_branch ctx ev c b elifs els s) f (pick_branch-Settles c b elifs els s lt)
        (λ o t k. h o t (omega (arith, k.spent, lt)))

  bind_args-Settles :
      (ps : List ℕ) (args : Args) (frame : List (ℕ × ℤ)) (s : Eval)
      → s.budget < n
      → Settles s (bind_args ctx ev ps args frame s)
  unfolding bind_args
  bind_args-Settles (p ∷ ps) (arg e rest) frame s lt =
      branch-Settles e s _ lt (λ v t k. bind_args-Settles ps rest (Maps.insert p v frame) t k)
  bind_args-Settles (p ∷ ps) no_args frame s lt = Follows-refl s
  bind_args-Settles [] args frame s lt = Follows-refl s

  in_frame-Settles :
      (name : ℕ) (body : Option Block) (frame : List (ℕ × ℤ)) (s : Eval)
      → s.budget < n
      → Settles s (in_frame ctx ev name body frame s)
  in_frame-Settles name none frame s lt = Follows-refl s
  in_frame-Settles name (some b) frame s lt =
      let t = record s { scopes = frame ∷ []; depth = s.depth + 1 } in
      Settles-returned s t (ev.value b t) refl refl (good.value_ok b t lt)

  call_fn-Settles :
      (name : ℕ) (f : Option FnDef) (args : Args) (s : Eval)
      → s.budget < n
      → Settles s (call_fn ctx ev name f args s)
  call_fn-Settles name none args s lt = Follows-refl s
  call_fn-Settles name (some f) args s lt =
      Settles-if (leb max_depth s.depth) s _ _ (Follows-refl s) (
        Settles-if (not (length f.params == count_args args)) s _ _ (Follows-refl s) (
          Settles-bind s (bind_args ctx ev f.params args [] s) _
            (bind_args-Settles f.params args [] s lt)
            (λ frame t k. in_frame-Settles name f.body frame t (omega (arith, k.spent, lt)))))

  pub expr_step-Settles : (e : Expr) (s : Eval) → s.budget < n → Settles s (expr_step ctx ev e s)
  unfolding expr_step
  expr_step-Settles (Expr.lit l) s lt = Follows-refl s
  expr_step-Settles (Expr.ident x) s lt = Follows-refl s
  expr_step-Settles (Expr.un_op op e) s lt = branch-Settles e s _ lt (λ v t k. Follows-refl t)
  expr_step-Settles (Expr.bin_op a op b) s lt =
      branch-Settles a s _ lt (λ x t k. branch-Settles b t _ k (λ y u m. Follows-refl u))
  expr_step-Settles (Expr.cast e) s lt = good.expr_ok e s lt
  expr_step-Settles (Expr.if_only c b elifs) s lt =
      chosen-Settles c b elifs none s _ lt value_of-Settles
  expr_step-Settles (Expr.if_else c b elifs els) s lt =
      chosen-Settles c b elifs (some els) s _ lt value_of-Settles
  expr_step-Settles (Expr.while c b) s lt =
      Settles-bind s (ev.loop c b s) _ (good.loop_ok c b s lt) (λ flow t k. Follows-refl t)
  expr_step-Settles (Expr.block b) s lt = good.value_ok b s lt
  expr_step-Settles (Expr.call name args) s lt =
      call_fn-Settles name (Maps.lookup name ctx.fns) args s lt
  expr_step-Settles (Expr.call_indirect e args) s lt = Follows-refl s
  expr_step-Settles Expr.other_expr s lt = Follows-refl s
