-- ===== src/Shard/World/Runs.antt =====
-- apps/shard_01/src/main.rs: how a party's run moves characters: evacuate_rooms_with_prefix, by which a
-- run starts, and the end of PartyBuildNext, where the party goes into the rooms that were built. The
-- count that the first returns, which no caller uses, and what is printed are left out.
use slopmud.Prelude.{ℕ, List, [], ◌∷◌, ◌++◌, map, filter, if◌then◌else◌, nat_eq, list_eq, map_or}
use slopmud.Prelude.Text.{Text, text, starts_with}
use slopmud.Prelude.Map.{get, remove}
use slopmud.Prelude.Buckets.{mem, put_in}
use slopmud.Shard.World.{World, Character, Party, with_char}
use slopmud.Shard.World.Places.{set_room, move_char}

-- One of those who were in the room; its set is gone already.
unfoldable pub rehouse : ℕ → Text → World → World
unfolding put_in with_char
rehouse cid to w =
    map_or w
      (λ (c : Character). record w {
        chars = with_char cid (set_room to) w.chars;
        occupants = put_in to cid w.occupants;
      })
      (get cid w.chars)

-- A set gives each member once.
unfoldable pub rehouse_all : List ℕ → Text → World → World
unfolding rehouse
rehouse_all [] to w = w
rehouse_all (cid ∷ cids) to w = rehouse_all cids to (if mem cid cids then w else rehouse cid to w)

unfoldable pub evacuate_room : Text → World → Text → World
unfolding rehouse_all
evacuate_room to w rid =
    map_or w
      (λ (cids : List ℕ). rehouse_all cids to (record w { occupants = remove rid w.occupants }))
      (get rid w.occupants)

unfoldable pub evacuate_rooms : Text → List Text → World → World
unfolding evacuate_room
evacuate_rooms to [] w = w
evacuate_rooms to (rid ∷ rids) w = evacuate_rooms to rids (evacuate_room to w rid)

unfoldable pub evacuate_rooms_with_prefix : World → Text → Text → World
unfolding evacuate_rooms starts_with
evacuate_rooms_with_prefix w prefix to_room =
    let ids : List Text = map (λ (p : Text × List ℕ). p.0) w.occupants in
    evacuate_rooms to_room (filter (λ id. starts_with id (prefix ++ text ".")) ids) w

unfoldable pub enter_all : List ℕ → Text → World → World
unfolding move_char
enter_all [] to w = w
enter_all (mid ∷ mids) to w =
    enter_all mids to (map_or w (λ (c : Character). move_char mid c.room_id to w) (get mid w.chars))

-- PartyBuildNext when all rooms are there.
unfoldable pub enter_run : World → ℕ → Text → World
unfolding enter_all
enter_run w party_id start_room =
    enter_all (map_or [] (λ (p : Party). p.members) (get party_id w.parties)) start_room w
