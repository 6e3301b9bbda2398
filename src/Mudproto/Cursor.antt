-- ===== src/Mudproto/Cursor.antt =====
-- Reading a payload from left to right: what stands at an index, and behind it.
use slopmud.Prelude.{
  ℕ, zero, suc, ◌+◌, ◌-◌, ◌≤◌, ◌≡◌, refl, sym, ◌∙◌, some, List, [], ◌∷◌, ◌++◌, arith, nat_eq,
  list_eq, length, get_elem?, drop, length-append, drop_front, take_front_of,
}
use native.Mathlib.Nat.{zero-add}
use slopmud.Mudproto.{ok, index, slice, slice_from, require}

-- At index `i` of `p` there follows `rest`.
pub record At (p : List ℕ) (i : ℕ) (rest : List ℕ) : Type 0 where
  pub tail : drop i p ≡ rest
  pub inside : i + length rest ≡ length p

pub At-start : (p : List ℕ) → At p 0 p
At-start p = record { tail = refl; inside = omega arith }

drop-nil : (n : ℕ) → drop {A = ℕ} n [] ≡ []
drop-nil zero = refl
drop-nil (suc n) = refl

drop-drop : (i n : ℕ) (p : List ℕ) → drop (i + n) p ≡ drop n (drop i p)
drop-drop zero n p = rw zero-add
drop-drop (suc i) n [] = drop-nil (suc i + n) ∙ sym (drop-nil n)
drop-drop (suc i) n (x ∷ p) = rw later (drop-drop i n p)
  where
    later : suc i + n ≡ suc (i + n)
    later = omega arith

get_elem?-head : (i b : ℕ) (p rest : List ℕ) → drop i p ≡ b ∷ rest → get_elem? p i ≡ some b
get_elem?-head zero b [] rest e = cc
get_elem?-head zero b (x ∷ p) rest e = ground (arith, e)
get_elem?-head (suc i) b [] rest e = cc
get_elem?-head (suc i) b (x ∷ p) rest e = get_elem?-head i b p rest e

module _ {p : List ℕ} {i : ℕ} where
  pub index-At : {b : ℕ} {rest : List ℕ} → At p i (b ∷ rest) → index p i ≡ ok b
  unfolding index
  index-At {b} {rest} a = rw (get_elem?-head i b p rest a.tail, index)

  pub next : {b : ℕ} {rest : List ℕ} → At p i (b ∷ rest) → At p (i + 1) rest
  next {b} {rest} a = record {
    tail = rw (drop-drop i 1 p, a.tail);
    inside = omega (arith, a.inside);
  }

  pub slice-At : (xs rest : List ℕ) → At p i (xs ++ rest) → slice p i (i + length xs) ≡ ok xs
  unfolding slice
  slice-At xs rest a = ground (
    arith,
    a.inside,
    a.tail,
    length-append xs rest,
    take_front_of (i + length xs - i) xs rest (omega arith),
  )

  pub skip : (xs rest : List ℕ) → At p i (xs ++ rest) → At p (i + length xs) rest
  skip xs rest a = record {
    tail = rw (drop-drop i (length xs) p, a.tail) (drop_front xs rest);
    inside = omega (arith, a.inside, length-append xs rest);
  }

  pub slice_from-At : {rest : List ℕ} → At p i rest → slice_from p i ≡ ok rest
  unfolding slice_from
  slice_from-At {rest} a = ground (arith, a.inside, a.tail)

  pub require-At :
      (n : ℕ) {rest : List ℕ} → At p i rest → n ≤ length rest → require p (i + n) ≡ ok tt
  unfolding require
  require-At n a h = ground (arith, a.inside)
