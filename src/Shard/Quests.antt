-- ===== src/Shard/Quests.antt =====
-- apps/shard_01/src/main.rs: eval_gate_expr, which reads a character's quest keys to open exits.
-- `parse::<i64>()` is written out.
pub mod Contracts
use slopmud.Prelude.{
  ℕ, zero, suc, ◌+◌, ◌-◌, ◌*◌, ◌/◌, ◌%◌, ◌^◌, ◌≤◌, ◌<◌, min, max, ◌≡◌, refl, sym, ap, ap₂, ◌∙◌,
  subst, ◌≢◌, ◌↔◌, ◌⊎◌, inl, inr, Bool, true, false, not, ◌&&◌, ◌||◌, Option, none, some, List, [],
  ◌∷◌, ◌++◌, map, append-nil, append_assoc, arith, ltb, leb, ◌==◌, if◌then◌else◌, ==_iff,
  Bool-cases, Option-cases, Eq, ◌=?◌, =?_iff, =?_refl, nat_eq, list_eq, list_beq, list_beq_iff,
  length, get_elem?, take, drop, is_empty, any, all, concat, All, length-append, take-append-drop,
  length-take, length-drop, take_front, drop_front, take_all, take_front_of, drop_front_of,
  take-append_left, take_past, drop_past, get_elem?-front, get_elem?-append_left, All-append,
  All-left, reverse, reverse-append, reverse-reverse, filter, length-reverse, drop-append,
  drop-drop, drop_all, reverse-take, take_one, take_over, take_least, All-right,
}
use slopmud.Prelude.Text.{
  Text, text, trim, to_ascii_lowercase, starts_with, is_ascii_digit, strip_prefix,
}
use slopmud.Prelude.Map.{get, insert}
use slopmud.Prelude.Int.{ℤ, pos, negsuc, pos_part, neg_part, ltb_ℤ}

abbrev pub Quest : Type 0
Quest = List (Text × Text)

unfoldable pub digits_value : ℕ → Text → ℕ
digits_value acc [] = acc
digits_value acc (c ∷ s) = digits_value (10 * acc + (c - b'0')) s

unfoldable pub parse_digits : Text → Option ℕ
unfolding digits_value is_ascii_digit
parse_digits s = if not (is_empty s) && all is_ascii_digit s then some (digits_value 0 s) else none

abbrev pub negated : ℕ → ℤ
negated zero = pos 0
negated (suc n) = negsuc n

-- `str::parse::<i64>`: a sign or none, then digits, within 64 bits.
unfoldable pub parse_i64 : Text → Option ℤ
unfolding parse_digits
parse_i64 [] = none
parse_i64 (c ∷ s) =
    if c == b'-'
    then elim (parse_digits s) [
      | none ↦ none
      | some n ↦ if leb n (2 ^ 63) then some (negated n) else none
    ]
    else elim (parse_digits (if c == b'+' then s else c ∷ s)) [
      | none ↦ none
      | some n ↦ if ltb n (2 ^ 63) then some (pos n) else none
    ]

unfoldable pub is_nonzero : ℤ → Bool
is_nonzero (pos n) = not (n == 0)
is_nonzero (negsuc n) = true

unfoldable pub truthy : Option Text → Bool
unfolding parse_i64 is_nonzero
truthy none = false
truthy (some raw) =
    let v = trim raw in
    if is_empty v then false else elim (parse_i64 v) [
      | some n ↦ is_nonzero n
      | none ↦
          let t = to_ascii_lowercase v in
          (t =? text "true") || (t =? text "yes") || (t =? text "on")
    ]

-- `find(tok)`: what stands before the first occurrence, and after it.
unfoldable pub split_at : Text → Text → Option (Text × Text)
unfolding strip_prefix
split_at [] tok = elim (strip_prefix [] tok) [ none ↦ none | some rest ↦ some ([], rest) ]
split_at (c ∷ s) tok = elim (strip_prefix (c ∷ s) tok) [
  | some rest ↦ some ([], rest)
  | none ↦ elim (split_at s tok) [ none ↦ none | some (before, after) ↦ some (c ∷ before, after) ]
]

pub data GateOp : Type 0 where
  ge_op : GateOp
  le_op : GateOp
  ne_op : GateOp
  eq_op : GateOp
  gt_op : GateOp
  lt_op : GateOp

-- Longer operators come first.
abbrev pub gate_ops : List (Text × GateOp)
gate_ops =
    (text ">=", ge_op)
    ∷ (text "<=", le_op)
    ∷ (text "!=", ne_op)
    ∷ (text "==", eq_op)
    ∷ (text ">", gt_op)
    ∷ (text "<", lt_op)
    ∷ (text "=", eq_op)
    ∷ []

abbrev pub eq_ℤ : ℤ → ℤ → Bool
eq_ℤ a b = not (ltb_ℤ a b) && not (ltb_ℤ b a)

-- A test on two numbers, or what stands for it when a side is not one.
abbrev pub both : (ℤ → ℤ → Bool) → Bool → Option ℤ → Option ℤ → Bool
both p otherwise none b = otherwise
both p otherwise (some a) none = otherwise
both p otherwise (some a) (some b) = p a b

unfoldable pub compare_op : GateOp → Text → Text → Bool
compare_op eq_op a b = both eq_ℤ (a =? b) (parse_i64 a) (parse_i64 b)
compare_op ne_op a b = both (λ x y. not (eq_ℤ x y)) (not (a =? b)) (parse_i64 a) (parse_i64 b)
compare_op ge_op a b = both (λ x y. not (ltb_ℤ x y)) false (parse_i64 a) (parse_i64 b)
compare_op le_op a b = both (λ x y. not (ltb_ℤ y x)) false (parse_i64 a) (parse_i64 b)
compare_op gt_op a b = both (λ x y. ltb_ℤ y x) false (parse_i64 a) (parse_i64 b)
compare_op lt_op a b = both (λ x y. ltb_ℤ x y) false (parse_i64 a) (parse_i64 b)

unfoldable pub lookup_or_zero : Quest → Text → Text
lookup_or_zero q key = elim (get key q) [ none ↦ text "0" | some v ↦ trim v ]

unfoldable pub eval_ops : Quest → List (Text × GateOp) → Text → Bool
unfolding split_at compare_op lookup_or_zero truthy
eval_ops q [] expr = truthy (get expr q)
eval_ops q ((tok, op) ∷ ops) expr = elim (split_at expr tok) [
  | none ↦ eval_ops q ops expr
  | some (before, after) ↦
      let key = trim before in
      let rhs = trim after in
      if is_empty key || is_empty rhs then false else compare_op op (lookup_or_zero q key) rhs
]

unfoldable pub eval_gate_expr : Quest → Text → Bool
unfolding eval_ops
eval_gate_expr q raw =
    let expr = trim raw in if is_empty expr then true else eval_ops q gate_ops expr
