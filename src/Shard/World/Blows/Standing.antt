-- ===== src/Shard/World/Blows/Standing.antt =====
-- Who stands when a player is hit.
use slopmud.Prelude.{
  ℕ, ◌≡◌, Bool, false, not, ◌&&◌, Option, none, some, List, if◌then◌else◌, ◌=?◌, nat_eq, list_eq,
  map_or,
}
use slopmud.Prelude.Text.{Text, text}
use slopmud.Prelude.Map.{get}
use slopmud.Prelude.Int.{ℤ, pos, ◌-ℤ◌, ltb_ℤ, max_ℤ}
use slopmud.Shard.Creature.Scores.{wrap_i32}
use slopmud.Shard.Rooms.{has_room}
use slopmud.Shard.World.{World, Character, is_some}
use slopmud.Shard.World.Life.{IsSound}
use slopmud.Shard.World.Moves.{Output}
use slopmud.Shard.World.Blows.{is_down}

-- The character is there, with hit points left.
unfoldable pub stands : ℕ → World → Bool
unfolding is_down
stands cid w = map_or false (λ (c : Character). not (is_down c)) (get cid w.chars)

-- Both are there, in one room, and the target has a session.
abbrev pub reaches : World → ℕ → ℕ → Bool
reaches w attacker_id target_id =
    map_or false
      (λ (att : Character).
        map_or false (λ (tgt : Character). is_some tgt.controller && (att.room_id =? tgt.room_id))
          (get target_id w.chars))
      (get attacker_id w.chars)

-- The blow takes the last hit points.
abbrev pub kills : ℤ → Character → Bool
kills dmg c = not (ltb_ℤ (pos 0) (wrap_i32 (c.hp -ℤ dmg)))

-- Where who is killed comes back.
abbrev pub grave : World → Text
grave w =
    if has_room w.rooms (text "R_TOWN_GRAVEYARD_01")
    then text "R_TOWN_GRAVEYARD_01"
    else w.rooms.start_room

-- The target after the blow.
abbrev pub fate : World → ℤ → Character → Character
fate w dmg c =
    if kills dmg c
    then record c {
      hp = max_ℤ c.max_hp (pos 1);
      room_id = grave w;
      combat = record c.combat { autoattack = false; target = none };
    }
    else record c { hp = wrap_i32 (c.hp -ℤ dmg) }

-- Who has an id after the blow.
abbrev pub after : World → ℕ → ℕ → ℤ → ℕ → Option Character
after w attacker_id target_id dmg cid =
    if reaches w attacker_id target_id && (cid =? target_id)
    then map_or none (λ (c : Character). some (fate w dmg c)) (get cid w.chars)
    else get cid w.chars

-- What is said of the answer and the world after a blow.
abbrev Follows : World → ℕ → ℕ → ℤ → ℕ → Bool × World × List Output → Type 0
Follows w attacker_id target_id dmg cid r =
    IsSound r.1
    × (get cid r.1.chars ≡ after w attacker_id target_id dmg cid)
    × (r.0 ≡ (reaches w attacker_id target_id && map_or false (kills dmg) (get target_id w.chars)))
