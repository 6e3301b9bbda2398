-- ===== src/Shard/World/Dice/Tests.antt =====
-- The theorems at a small world.
use slopmud.Prelude.{arith}
use slopmud.Prelude.Int.{pos, negsuc, ◌+ℤ◌, ◌-ℤ◌}
use slopmud.Shard.World.Dice.{from_seed, roll_range}
use slopmud.Shard.World.Dice.Range.{IsWithin, IsI32, roll_range-IsWithin}

-- Ends around zero, from the seed 0.
roll_range-IsWithin_example :
    IsWithin (negsuc 3) (pos 5) (roll_range (from_seed 0) (negsuc 3) (pos 5))
unfolding IsI32 from_seed ◌+ℤ◌ ◌-ℤ◌
roll_range-IsWithin_example =
    roll_range-IsWithin (from_seed 0) (negsuc 3) (pos 5) (omega arith, omega arith)
      (omega arith, omega arith) (omega arith) (omega arith, omega arith)
