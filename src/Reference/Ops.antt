-- ===== src/Reference/Ops.antt =====
-- src/reference/eval.rs: the definitional interpreter of the core language, which states the
-- operators of docs/semantics.md independently of the compiler. Here are its values, the operators
-- on two evaluated operands, and the casts. A trap is a `Fault` with what its message names.
use mani_tc.Prelude.{
  ℕ, zero, suc, Bool, true, false, not, ◌&&◌, ◌||◌, List, [], ◌∷◌, zip_with, if◌then◌else◌,
}
use mani_tc.Prelude.Int.{
  ℤ, pos, negsuc, abs_ℕ, ◌+ℤ◌, ◌-ℤ◌, ◌*ℤ◌, neg_ℤ, ltb_ℤ, leb_ℤ, ◌==ℤ◌, min_ℤ, max_ℤ, quot, rem,
}
use mani_tc.Prelude.{leb, ◌*◌}
use mani_tc.Reference.Bin.{Bin}

-- `T3_MAX`: the reference keeps its own copy.
abbrev pub word_max : ℤ
word_max = pos 3812798742493

-- `LANES`.
abbrev pub lane_count : ℕ
lane_count = 27

pub data Lang : Type 0 where
  v1 v2 : Lang

-- A value of the core; a string is the list of its characters' code points.
mutual
  pub data Val : Type 0 where
    int : ℤ → Val
    trit : ℤ → Val
    bool3 : ℤ → Val
    bool : Bool → Val
    res : ℤ → Payload → List ℕ → Val
    text : List ℕ → Val
    chan : ℕ → Val

  pub data Payload : Type 0 where
    absent : Payload
    present : Val → Payload

pub data Fault : Type 0 where
  overflow : ℤ → Fault
  division_by_zero : ℤ → Fault
  not_three_valued not_a_word : Bin → Val → Fault

-- `R<Val>`, for the aborts that an operator can raise.
pub data Result {ℓ} (A : Type ℓ) : Type ℓ where
  ok : A → Result A
  trap : Fault → Result A

abbrev pub bind {ℓ κ} : {A : Type ℓ} {B : Type κ} → Result A → (A → Result B) → Result B
bind (ok a) k = k a
bind (trap f) k = trap f

unfoldable pub as_print_int : Val → ℤ
as_print_int (int n) = n
as_print_int (trit t) = t
as_print_int (bool3 t) = t
as_print_int (bool b) = if b then pos 1 else pos 0
as_print_int (res tag val msg) = tag
as_print_int (text s) = pos 0
as_print_int (chan c) = pos 0

-- On `i128`, where nothing overflows.
unfoldable pub div_nearest_ref : ℤ → ℤ → ℤ
div_nearest_ref a b =
    let q = quot a b in
    let r = a -ℤ q *ℤ b in
    if r ==ℤ pos 0
    then q
    else if leb (abs_ℕ b) (2 * abs_ℕ r)
    then (if ltb_ℤ a (pos 0)
        then (if ltb_ℤ b (pos 0) then q +ℤ pos 1 else q -ℤ pos 1)
        else if ltb_ℤ b (pos 0)
        then q -ℤ pos 1
        else q +ℤ pos 1)
    else q

-- One round of `lanes`: the digit that it stores and the `n` that it leaves.
unfoldable pub ref_digit : ℤ → ℤ
ref_digit n =
    let r = rem n (pos 3) in if r ==ℤ pos 2 then negsuc 0 else if r ==ℤ negsuc 1 then pos 1 else r

unfoldable pub ref_carry : ℤ → ℤ
ref_carry n =
    let r = rem n (pos 3) in
    let q = quot n (pos 3) in
    if r ==ℤ pos 2 then q +ℤ pos 1 else if r ==ℤ negsuc 1 then q -ℤ pos 1 else q

unfoldable pub lanes_loop : ℕ → ℤ → List ℤ
lanes_loop zero n = []
lanes_loop (suc k) n = ref_digit n ∷ lanes_loop k (ref_carry n)

unfoldable pub lanes : ℤ → List ℤ
lanes w = lanes_loop lane_count w

-- The loop of `from_lanes`: v is the sum so far and p the weight of the next lane.
unfoldable pub weigh : ℤ → ℕ → List ℤ → ℤ
weigh v p [] = v
weigh v p (d ∷ ds) = weigh (v +ℤ d *ℤ pos p) (p * 3) ds

unfoldable pub from_lanes : List ℤ → ℤ
from_lanes l = weigh (pos 0) 1 l

unfoldable pub t_and : ℤ → ℤ → ℤ
t_and a b = min_ℤ a b

unfoldable pub t_or : ℤ → ℤ → ℤ
t_or a b = max_ℤ a b

-- The table of the document.
unfoldable pub t_xor : ℤ → ℤ → ℤ
t_xor a b =
    if a ==ℤ negsuc 0
    then (if b ==ℤ negsuc 0 then pos 1 else if b ==ℤ pos 0 then negsuc 0 else pos 0)
    else if a ==ℤ pos 0
    then b
    else if b ==ℤ negsuc 0
    then pos 0
    else if b ==ℤ pos 0
    then pos 1
    else negsuc 0

unfoldable pub t_imp : ℤ → ℤ → ℤ
t_imp a b = min_ℤ (pos 1 -ℤ a +ℤ b) (pos 1)

unfoldable pub t_con : ℤ → ℤ → ℤ
t_con a b =
    if (a ==ℤ pos 1) && (b ==ℤ pos 1)
    then pos 1
    else if (a ==ℤ negsuc 0) && (b ==ℤ negsuc 0)
    then negsuc 0
    else pos 0

unfoldable pub t_any : ℤ → ℤ → ℤ
t_any a b =
    if (a ==ℤ pos 1) || (b ==ℤ pos 1)
    then pos 1
    else if (a ==ℤ negsuc 0) || (b ==ℤ negsuc 0)
    then negsuc 0
    else pos 0

unfoldable pub t_cmp : ℤ → ℤ → ℤ
t_cmp a b = if ltb_ℤ b a then pos 1 else if ltb_ℤ a b then negsuc 0 else pos 0

unfoldable pub checked : ℤ → Result Val
checked v = if ltb_ℤ word_max v || ltb_ℤ v (neg_ℤ word_max) then trap (overflow v) else ok (int v)

unfoldable pub trit_operand : Bin → Val → Result ℤ
trit_operand op (trit t) = ok t
trit_operand op (bool3 t) = ok t
trit_operand op (bool b) = ok (if b then pos 1 else negsuc 0)
trit_operand op (res tag val msg) = ok tag
trit_operand op v = trap (not_three_valued op v)

unfoldable pub word_operand : Bin → Val → Result ℤ
word_operand op (int n) = ok n
word_operand op v = trap (not_a_word op v)

unfoldable pub truthy : Val → Bool
truthy (bool b) = b
truthy v = not (as_print_int v ==ℤ pos 0)

-- `/` and `%` on two carriers, the divisor not 0, in the two versions of the language.
unfoldable pub divide : Lang → Bin → ℤ → ℤ → Result Val
divide v1 Bin.div x y = ok (int (quot x y))
divide v1 _ x y = ok (int (rem x y))
divide v2 Bin.div x y = checked (div_nearest_ref x y)
divide v2 _ x y = checked (x -ℤ div_nearest_ref x y *ℤ y)

unfoldable pub compare_ints : Bin → ℤ → ℤ → Bool
compare_ints Bin.eq x y = x ==ℤ y
compare_ints Bin.ne x y = not (x ==ℤ y)
compare_ints Bin.lt x y = ltb_ℤ x y
compare_ints Bin.gt x y = ltb_ℤ y x
compare_ints Bin.le x y = leb_ℤ x y
compare_ints _ x y = leb_ℤ y x

unfoldable pub three_valued : Bin → ℤ → ℤ → ℤ
three_valued Bin.tand x y = t_and x y
three_valued Bin.tor x y = t_or x y
three_valued Bin.txor x y = t_xor x y
three_valued Bin.tcon x y = t_con x y
three_valued Bin.tany x y = t_any x y
three_valued Bin.timp x y = t_imp x y
three_valued _ x y = t_and (t_imp x y) (t_imp y x)

-- The operators under which two `bool` operands give a `bool`.
unfoldable pub closed : Bin → Bool
closed Bin.tand = true
closed Bin.tor = true
closed Bin.tany = true
closed Bin.timp = true
closed Bin.teq = true
closed _ = false

-- The form of a three-valued result, by the forms of the operands.
unfoldable pub typed : Bool → Val → Val → ℤ → Val
typed c (bool _) (bool _) z = if c then bool (ltb_ℤ (pos 0) z) else bool3 z
typed c (bool3 _) (bool3 _) z = bool3 z
typed c (bool _) (bool3 _) z = bool3 z
typed c (bool3 _) (bool _) z = bool3 z
typed c _ _ z = trit z

unfoldable pub lane_op : Bin → ℤ → ℤ → ℤ
lane_op Bin.tandw x y = t_and x y
lane_op Bin.torw x y = t_or x y
lane_op Bin.txorw x y = t_xor x y
lane_op Bin.timpw x y = t_imp x y
lane_op _ x y = t_cmp x y

unfoldable pub three_valued_apply : Bin → Val → Val → Result Val
three_valued_apply op a b =
    bind (trit_operand op a)
      λ x. bind (trit_operand op b) λ y. ok (typed (closed op) a b (three_valued op x y))

unfoldable pub lane_apply : Bin → Val → Val → Result Val
lane_apply op a b = bind (word_operand op a) λ x.
    bind (word_operand op b) λ y. ok (int (from_lanes (zip_with (lane_op op) (lanes x) (lanes y))))

-- `binop` on the two evaluated operands. `&&` and `||`, whose right operand may stay unevaluated,
-- are decided before it is called; here they are what they give on two values.
unfoldable pub apply : Lang → Bin → Val → Val → Result Val
apply lang Bin.add a b = checked (as_print_int a +ℤ as_print_int b)
apply lang Bin.sub a b = checked (as_print_int a -ℤ as_print_int b)
apply lang Bin.mul a b = checked (as_print_int a *ℤ as_print_int b)
apply lang Bin.div a b =
    if as_print_int b ==ℤ pos 0
    then trap (division_by_zero (as_print_int a))
    else divide lang Bin.div (as_print_int a) (as_print_int b)
apply lang Bin.rem a b =
    if as_print_int b ==ℤ pos 0
    then trap (division_by_zero (as_print_int a))
    else divide lang Bin.rem (as_print_int a) (as_print_int b)
apply lang Bin.eq a b = ok (bool (compare_ints Bin.eq (as_print_int a) (as_print_int b)))
apply lang Bin.ne a b = ok (bool (compare_ints Bin.ne (as_print_int a) (as_print_int b)))
apply lang Bin.lt a b = ok (bool (compare_ints Bin.lt (as_print_int a) (as_print_int b)))
apply lang Bin.gt a b = ok (bool (compare_ints Bin.gt (as_print_int a) (as_print_int b)))
apply lang Bin.le a b = ok (bool (compare_ints Bin.le (as_print_int a) (as_print_int b)))
apply lang Bin.ge a b = ok (bool (compare_ints Bin.ge (as_print_int a) (as_print_int b)))
apply lang Bin.and_and a b = ok (bool (truthy a && truthy b))
apply lang Bin.or_or a b = ok (bool (truthy a || truthy b))
apply lang Bin.tandw a b = lane_apply Bin.tandw a b
apply lang Bin.torw a b = lane_apply Bin.torw a b
apply lang Bin.txorw a b = lane_apply Bin.txorw a b
apply lang Bin.timpw a b = lane_apply Bin.timpw a b
apply lang Bin.tcmpw a b = lane_apply Bin.tcmpw a b
apply lang op a b = three_valued_apply op a b
