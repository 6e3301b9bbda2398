-- ===== src/Shard/World/Deeds/Moving.antt =====
-- Deaths and wandering mobs keep the world sound.
use slopmud.Prelude.{
  ℕ, ◌%◌, refl, Option, List, [], ◌∷◌, ◌++◌, if◌then◌else◌, nat_eq, list_eq, length, get_elem?,
  filter, map_or, map_or_intro, if_intro,
}
use slopmud.Prelude.Text.{Text, text}
use slopmud.Prelude.Map.{get}
use slopmud.Shard.Rooms.{ExitDef, has_room, exits_raw}
use slopmud.Shard.World.{World, Character, EventKind, mob_wander, is_some, with_char}
use slopmud.Shard.World.Events.{schedule_at_ms, schedule_in_ms}
use slopmud.Shard.World.Places.{move_char, IsPlaced}
use slopmud.Shard.World.Parties.Members.{HasParties}
use slopmud.Shard.World.Life.{IsSound, with_char-IsSound, leave_room}
use slopmud.Shard.World.Dice.{next_u64}
use slopmud.Shard.World.Moves.{
  drawn, Output, broadcast, reply, room_view, graveyard, revived, send_to_graveyard, wander,
}

pub schedule_in_ms-IsSound :
    (w : World) (delay_ms : ℕ) (kind : EventKind)
    → IsSound w
    → IsSound (schedule_in_ms w delay_ms kind)
unfolding schedule_in_ms schedule_at_ms IsSound IsPlaced HasParties
schedule_in_ms-IsSound w delay_ms kind h = h

pub send_to_graveyard-IsSound :
    (w : World) (cid : ℕ) → IsSound w → IsSound (send_to_graveyard w cid).0
unfolding send_to_graveyard
send_to_graveyard-IsSound w cid h =
    map_or_intro {B = World × List Output} (λ r. IsSound r.0) (w, []) buried (get cid w.chars) h
      (λ c e.
        with_char-IsSound (move_char cid c.room_id to w) cid revived (λ d. refl)
          (leave_room w cid c to e h))
  where
    to : Text
    to = if has_room w.rooms graveyard then graveyard else w.rooms.start_room

    buried : Character → World × List Output
    buried c = (
      record (move_char cid c.room_id to w) {
        chars = with_char cid revived (move_char cid c.room_id to w).chars;
      },
      broadcast to (text "* " ++ c.name ++ text " arrives, shivering.")
          ∷ map_or [] (λ sid. reply sid (text "you died.\\r\\n") ∷ room_view sid to ∷ [])
              c.controller,
    )

pub wander-IsSound : (w : World) (mob_id : ℕ) → IsSound w → IsSound (wander w mob_id)
unfolding wander IsSound IsPlaced HasParties
wander-IsSound w mob_id h = map_or_intro IsSound w roams (get mob_id w.chars) h (λ m e.
    if_intro IsSound (is_some m.controller) w (map_or stays (goes m) (pick m)) (λ b. h)
      (λ b.
        map_or_intro IsSound stays (goes m) (pick m)
          (schedule_in_ms-IsSound w w.mob_wander_ms (mob_wander mob_id) h)
          (λ ex k.
            schedule_in_ms-IsSound (move_char mob_id m.room_id ex.to (drawn w)) w.mob_wander_ms
              (mob_wander mob_id) (leave_room (drawn w) mob_id m ex.to e h))))
  where
    pick : Character → Option ExitDef
    pick m =
        let exits = filter (λ (e : ExitDef). has_room w.rooms e.to) (exits_raw w.rooms m.room_id) in
        get_elem? exits ((next_u64 w.rng).0 % length exits)

    stays : World
    stays = schedule_in_ms w w.mob_wander_ms (mob_wander mob_id)

    goes : Character → ExitDef → World
    goes m ex =
        schedule_in_ms (move_char mob_id m.room_id ex.to (drawn w)) w.mob_wander_ms
          (mob_wander mob_id)

    roams : Character → World
    roams m = if is_some m.controller then w else map_or stays (goes m) (pick m)
