-- ===== src/Shard/World/Departures.antt =====
-- apps/shard_01/src/main.rs: how characters leave the world, or a part of it: remove_char, detach_session
-- and evacuate_rooms_with_prefix.
use slopmud.Prelude.{ℕ, Option, none, some, List, [], ◌∷◌, ◌++◌, nat_eq, list_eq, filter, map_or}
use slopmud.Prelude.Text.{Text, text, starts_with}
use slopmud.Prelude.Map.{get, remove}
use slopmud.Prelude.Buckets.{take_out, put_in}
use slopmud.Shard.Rooms.{keys}
use slopmud.Shard.World.{World, Character, SessionState, with_char}
use slopmud.Shard.World.Parties.{party_leave}
use slopmud.Shard.World.Places.{set_room}
use slopmud.Shard.World.Snapshots.{remember_player}

-- No party and no invite has the character any more.
unfoldable pub unparty : World → ℕ → World
unfolding party_leave
unparty w cid = party_leave (record w { party_invites = remove cid w.party_invites }) cid

unfoldable pub take_away : World → ℕ → Character → World
unfolding take_out
take_away w cid c = record w {
  chars = remove cid w.chars;
  occupants = take_out c.room_id cid w.occupants;
}

unfoldable pub remove_char : World → ℕ → Option Character × World
unfolding unparty take_away
remove_char w cid =
    let out = unparty w cid in
    map_or (none, out) (λ c. (some c, take_away out cid c)) (get cid out.chars)

-- A character leaves with its session: it is remembered.
unfoldable pub detach_char : World → ℕ → Option Character × World
unfolding unparty take_away remember_player
detach_char w cid =
    let out = unparty w cid in
    map_or (none, out) (λ c. (some c, remember_player (take_away out cid c) c)) (get cid out.chars)

unfoldable pub detach_chars : World → List ℕ → List Character × World
unfolding detach_char
detach_chars w [] = ([], w)
detach_chars w (cid ∷ cids) =
    let first = detach_char w cid in
    let rest = detach_chars first.1 cids in (map_or rest.0 (λ c. c ∷ rest.0) first.0, rest.1)

unfoldable pub detach_session : World → ℕ → List Character × World
unfolding detach_chars
detach_session w session =
    map_or ([], w)
      (λ (ss : SessionState).
        detach_chars (record w { sessions = remove session w.sessions }) ss.controlled)
      (get session w.sessions)

-- The members of a set that was taken out of the map go to the room; ids without a character are dropped.
unfoldable pub evacuate_chars : World → List ℕ → Text → World
unfolding with_char put_in
evacuate_chars w [] to = w
evacuate_chars w (cid ∷ cids) to =
    let moved : World = record w {
      chars = with_char cid (set_room to) w.chars;
      occupants = put_in to cid w.occupants;
    } in
    evacuate_chars (map_or w (λ c. moved) (get cid w.chars)) cids to

unfoldable pub evacuate_rooms : World → List Text → Text → World
unfolding evacuate_chars
evacuate_rooms w [] to = w
evacuate_rooms w (room ∷ rooms) to =
    evacuate_rooms
      (map_or w (λ cids. evacuate_chars (record w { occupants = remove room w.occupants }) cids to)
        (get room w.occupants))
      rooms to

unfoldable pub evacuate_rooms_with_prefix : World → Text → Text → World
unfolding evacuate_rooms starts_with
evacuate_rooms_with_prefix w prefix to =
    evacuate_rooms w (filter (λ r. starts_with r (prefix ++ text ".")) (keys w.occupants)) to
