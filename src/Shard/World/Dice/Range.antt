-- ===== src/Shard/World/Dice/Range.antt =====
-- The ends of a roll.
use slopmud.Prelude.{
  ℕ, ◌+◌, ◌%◌, ◌^◌, ◌≤◌, ◌<◌, ◌≡◌, ◌↔◌, refl, sym, ap, ◌∙◌, subst, Bool, true, false, Option, none,
  some, arith, ◌==◌, ==_iff, if◌then◌else◌, ◌=?◌, nat_eq, list_eq,
}
use slopmud.Prelude.Text.{text}
use slopmud.Prelude.Int.{ℤ, pos, negsuc, pos_part, neg_part, ◌+ℤ◌, ◌-ℤ◌, ◌≤ℤ◌}
use slopmud.Shard.Creature.Scores.{as_i32, wrap_i32}
use slopmud.Shard.World.{Character}
use slopmud.Shard.World.Dice.{next_u64, as_u64, fall, roll_range, compute_mob_autoattack_damage}

-- There is a number, between the ends.
unfoldable pub IsWithin : ℤ → ℤ → Option (ℤ × ℕ) → Type 0
IsWithin lo hi none = ⊥
IsWithin lo hi (some thrown) = (lo ≤ℤ thrown.0) × (thrown.0 ≤ℤ hi)

-- An i32.
unfoldable pub IsI32 : ℤ → Type 0
IsI32 z = (pos_part z < 2 ^ 31) × (neg_part z ≤ 2 ^ 31)

IsI32-pos : (n : ℕ) → n < 2 ^ 31 → IsI32 (pos n)
unfolding IsI32
IsI32-pos n h = (h, omega arith)

wrap_i32_fits : (z : ℤ) → IsI32 z → wrap_i32 z ≡ z
unfolding wrap_i32 as_i32 IsI32
wrap_i32_fits (pos n) h = ground (arith, h.0)
wrap_i32_fits (negsuc n) h = ground (arith, h.1)

mod_below : (a n : ℕ) → 0 < n → a % n < n
mod_below a n h = omega (arith, h)

small_part : (z : ℤ) → IsI32 z → pos_part z < 2 ^ 31
unfolding IsI32
small_part z h = h.0

-- The sum of the lower end and less than the span is an i32 between the ends.
sum-between :
    (lo hi : ℤ) (v span : ℕ)
    → IsI32 lo
    → IsI32 hi
    → pos_part lo + neg_part hi + span ≡ pos_part hi + neg_part lo + 1
    → v < span
    → IsI32 (lo +ℤ pos v) × (lo ≤ℤ lo +ℤ pos v) × (lo +ℤ pos v ≤ℤ hi)
unfolding IsI32 ◌+ℤ◌
sum-between lo hi v span l h whole small = ground arith

fall-IsWithin :
    (lo hi : ℤ) (span : ℕ) (drawn : ℕ × ℕ)
    → IsI32 lo
    → IsI32 hi
    → pos_part lo + neg_part hi + span ≡ pos_part hi + neg_part lo + 1
    → 0 < span
    → span < 2 ^ 31
    → IsWithin lo hi (fall lo span drawn)
unfolding fall IsWithin
fall-IsWithin lo hi span drawn l h whole positive small = between (span == 0) (==_iff span 0)
  where
    v : ℕ
    v = drawn.0 % span

    fits : IsI32 (lo +ℤ pos v) × (lo ≤ℤ lo +ℤ pos v) × (lo +ℤ pos v ≤ℤ hi)
    fits = sum-between lo hi v span l h whole (mod_below drawn.0 span positive)

    v_fits : wrap_i32 (pos v) ≡ pos v
    v_fits =
        wrap_i32_fits (pos v) (IsI32-pos v (omega (arith, mod_below drawn.0 span positive, small)))

    same : wrap_i32 (lo +ℤ wrap_i32 (pos v)) ≡ lo +ℤ pos v
    same = ap (λ x. wrap_i32 (lo +ℤ x)) v_fits ∙ wrap_i32_fits (lo +ℤ pos v) fits.0

    between :
        (b : Bool)
        → (b ≡ true ↔ span ≡ 0)
        → IsWithin lo hi (if b then none else some (wrap_i32 (lo +ℤ wrap_i32 (pos v)), drawn.1))
    between true e = absurd (ground (arith, e, positive))
    between false e = subst (λ x. (lo ≤ℤ x) × (x ≤ℤ hi)) (sym same) (fits.1, fits.2)

as_u64-pos : (z : ℤ) → neg_part z ≡ 0 → as_u64 z ≡ pos_part z
unfolding as_u64
as_u64-pos (pos n) h = refl
as_u64-pos (negsuc n) h = absurd (ground (arith, h))

-- The count of numbers from one end to the other.
distance :
    (lo hi : ℤ)
    → IsI32 (hi -ℤ lo +ℤ pos 1)
    → lo ≤ℤ hi
    → IsI32 (hi -ℤ lo)
      × (neg_part (hi -ℤ lo +ℤ pos 1) ≡ 0)
      × (pos_part lo + neg_part hi + pos_part (hi -ℤ lo +ℤ pos 1) ≡ pos_part hi + neg_part lo + 1)
unfolding IsI32 ◌+ℤ◌ ◌-ℤ◌
distance lo hi near h = ground arith

-- A roll between two `i32`, in order and with fewer than 2^31 numbers from the one to the other, gives a
-- number, which is neither below the lower one nor above the upper one.
pub roll_range-IsWithin :
    (state : ℕ) (lo hi : ℤ)
    → IsI32 lo
    → IsI32 hi
    → lo ≤ℤ hi
    → IsI32 (hi -ℤ lo +ℤ pos 1)
    → IsWithin lo hi (roll_range state lo hi)
unfolding roll_range
roll_range-IsWithin state lo hi l h order near =
    subst (λ n. IsWithin lo hi (fall lo n (next_u64 state))) (sym span)
      (fall-IsWithin lo hi (pos_part (hi -ℤ lo +ℤ pos 1)) (next_u64 state) l h far.2
        (omega (arith, order, far.2)) (small_part (hi -ℤ lo +ℤ pos 1) near))
  where
    far :
        IsI32 (hi -ℤ lo)
        × (neg_part (hi -ℤ lo +ℤ pos 1) ≡ 0)
        × (pos_part lo + neg_part hi + pos_part (hi -ℤ lo +ℤ pos 1) ≡ pos_part hi + neg_part lo + 1)
    far = distance lo hi near order

    span : as_u64 (wrap_i32 (wrap_i32 (hi -ℤ lo) +ℤ pos 1)) ≡ pos_part (hi -ℤ lo +ℤ pos 1)
    span =
        ap (λ x. as_u64 (wrap_i32 (x +ℤ pos 1))) (wrap_i32_fits (hi -ℤ lo) far.0)
        ∙ ap as_u64 (wrap_i32_fits (hi -ℤ lo +ℤ pos 1) near)
        ∙ as_u64-pos (hi -ℤ lo +ℤ pos 1) far.1

widen :
    (lo hi : ℤ) (n : ℕ) (o : Option (ℤ × ℕ))
    → pos 0 ≤ℤ lo
    → hi ≤ℤ pos n
    → IsWithin lo hi o
    → IsWithin (pos 0) (pos n) o
unfolding IsWithin
widen lo hi n none l h w = w
widen lo hi n (some thrown) l h w = (omega (arith, l, w.0), omega (arith, h, w.1))

small_distance : (a b : ℕ) → a ≤ b → b ≤ 6 → IsI32 (pos b -ℤ pos a +ℤ pos 1)
unfolding IsI32 ◌+ℤ◌ ◌-ℤ◌
small_distance a b order small = ground arith

-- From one small number to another.
small_roll :
    (state a b : ℕ) → a ≤ b → b ≤ 6 → IsWithin (pos 0) (pos 6) (roll_range state (pos a) (pos b))
small_roll state a b order small =
    widen (pos a) (pos b) 6 (roll_range state (pos a) (pos b)) (omega arith) (omega (arith, small))
      (roll_range-IsWithin state (pos a) (pos b) (IsI32-pos a (omega (arith, order, small)))
        (IsI32-pos b (omega (arith, small))) (omega (arith, order))
        (small_distance a b order small))

-- Whatever the dice say, the blow of a mob is a number from 0 to 6.
pub compute_mob_autoattack_damage-IsWithin :
    (state : ℕ) (att : Character)
    → IsWithin (pos 0) (pos 6) (compute_mob_autoattack_damage state att)
unfolding compute_mob_autoattack_damage IsWithin
compute_mob_autoattack_damage-IsWithin state att =
    by_name (att.name =? text "dummy") (att.name =? text "spitter") (att.name =? text "grease_king")
  where
    by_name :
        (dummy spitter king : Bool)
        → IsWithin (pos 0) (pos 6) (
            if dummy
            then some (pos 0, state)
            else if spitter
            then roll_range state (pos 4) (pos 6)
            else if king
            then roll_range state (pos 2) (pos 5)
            else roll_range state (pos 1) (pos 3))
    by_name true spitter king = (omega arith, omega arith)
    by_name false true king = small_roll state 4 6 (omega arith) (omega arith)
    by_name false false true = small_roll state 2 5 (omega arith) (omega arith)
    by_name false false false = small_roll state 1 3 (omega arith) (omega arith)
