-- ===== src/Shard/World/Dice.antt =====
-- apps/shard_01/src/main.rs: Rng64, whose state is a number of 64 bits, and the blow of a mob, which the
-- dice decide. What `%` refuses, a span of 0, is none.
use slopmud.Prelude.{
  ℕ, zero, suc, ◌+◌, ◌-◌, ◌*◌, ◌/◌, ◌%◌, ◌^◌, Bool, true, false, Option, none, some, List, ltb,
  ◌==◌, if◌then◌else◌, ◌=?◌, nat_eq, list_eq, map_or,
}
use Prim.Native.Nat.{bit_xor}
use slopmud.Prelude.Text.{Text, text}
use slopmud.Prelude.Int.{ℤ, pos, negsuc, ◌+ℤ◌, ◌-ℤ◌}
use slopmud.Shard.Creature.Scores.{wrap_i32}
use slopmud.Shard.World.{Character}
pub mod Range
mod Tests

unfoldable pub from_seed : ℕ → ℕ
from_seed seed = if seed == 0 then 11400714819323198485 else seed

-- A xorshift, and the product with a constant. The number, then the state.
unfoldable pub next_u64 : ℕ → ℕ × ℕ
next_u64 state =
    let a = bit_xor state (state / 2 ^ 12) in
    let b = bit_xor a (a * 2 ^ 25 % 2 ^ 64) in
    let c = bit_xor b (b / 2 ^ 27) in (c * 2685821657736338717 % 2 ^ 64, c)

-- `as u64` of an `i32`: the sign is extended.
unfoldable pub as_u64 : ℤ → ℕ
as_u64 (pos n) = n
as_u64 (negsuc n) = 2 ^ 64 - 1 - n

-- `lo + v`, where v is what is left of x; and the state.
unfoldable pub fall : ℤ → ℕ → ℕ × ℕ → Option (ℤ × ℕ)
fall lo span drawn =
    if span == 0 then none else some (wrap_i32 (lo +ℤ wrap_i32 (pos (drawn.0 % span))), drawn.1)

unfoldable pub roll_range : ℕ → ℤ → ℤ → Option (ℤ × ℕ)
roll_range state lo hi_inclusive =
    fall lo (as_u64 (wrap_i32 (wrap_i32 (hi_inclusive -ℤ lo) +ℤ pos 1))) (next_u64 state)

unfoldable pub compute_mob_autoattack_damage : ℕ → Character → Option (ℤ × ℕ)
compute_mob_autoattack_damage state att =
    if att.name =? text "dummy"
    then some (pos 0, state)
    else if att.name =? text "spitter"
    then roll_range state (pos 4) (pos 6)
    else if att.name =? text "grease_king"
    then roll_range state (pos 2) (pos 5)
    else roll_range state (pos 1) (pos 3)
