-- ===== src/Shard/World/Deeds.antt =====
-- What happens in a shard, one deed after another: the handlers that move, make or remove characters, and
-- the party commands that change parties. A run of a party is an evacuation when it starts and an entry
-- when its rooms are built.
use slopmud.Prelude.{
  ℕ, zero, suc, ◌+◌, ◌-◌, ◌*◌, ◌/◌, ◌%◌, ◌^◌, ◌≤◌, ◌<◌, min, max, ◌≡◌, refl, sym, ap, ap₂, ◌∙◌,
  subst, ◌≢◌, ◌↔◌, ◌⊎◌, inl, inr, Bool, true, false, not, ◌&&◌, ◌||◌, Option, none, some, List, [],
  ◌∷◌, ◌++◌, map, append-nil, append_assoc, arith, ltb, leb, ◌==◌, if◌then◌else◌, ==_iff,
  Bool-cases, Option-cases, Eq, ◌=?◌, =?_iff, =?_refl, nat_eq, list_eq, list_beq, list_beq_iff,
  length, get_elem?, take, drop, is_empty, any, all, concat, All, length-append, take-append-drop,
  length-take, length-drop, take_front, drop_front, take_all, take_front_of, drop_front_of,
  take-append_left, take_past, drop_past, get_elem?-front, get_elem?-append_left, All-append,
  All-left, reverse, reverse-append, reverse-reverse, filter, length-reverse, drop-append,
  drop-drop, drop_all, reverse-take, take_one, take_over, take_least, All-right, List-cases,
  All-filter, map_or, map_or_intro, if_intro,
}
use slopmud.Prelude.Text.{Text, text}
use slopmud.Prelude.Map.{get, insert, remove}
use slopmud.Shard.Authority.{Capability}
use slopmud.Shard.Creature.{Race, Sex, PronounKey, Class}
use slopmud.Shard.World.{World}
use slopmud.Shard.World.Births.{spawn_mob, spawn_named_mob}
use slopmud.Shard.World.Runs.{evacuate_rooms_with_prefix, enter_run}
use slopmud.Shard.World.Snapshots.{spawn_or_restore_character}
use slopmud.Shard.World.Departures.{remove_char, detach_session}
use slopmud.Shard.World.Life.{IsSound}
use slopmud.Shard.World.Moves.{try_move, teleport_to, send_to_graveyard, wander}
use slopmud.Shard.World.Parties.Commands.{PartyCommand, party_command}
pub mod Moving
pub mod Running
pub mod Coming
pub mod Going
pub mod Sound

pub data Deed : Type 0 where
  walk : ℕ → Text → Deed
  warp : ℕ → Text → Text → Deed
  die : ℕ → Deed
  roam : ℕ → Deed
  spawn : Text → Text → Deed
  appear : Text → Text → Deed
  evacuate : Text → Text → Deed
  enter : ℕ → Text → Deed
  log_in : ℕ → Text → Text → List Capability → Bool → Race → Class → Sex → PronounKey → Deed
  vanish : ℕ → Deed
  log_out : ℕ → Deed
  party : ℕ → PartyCommand → Deed

unfoldable pub perform : World → Deed → World
unfolding try_move teleport_to send_to_graveyard wander spawn_named_mob spawn_or_restore_character
    remove_char detach_session party_command spawn_mob evacuate_rooms_with_prefix enter_run
perform w (walk session token) = (try_move w session token).1
perform w (warp session to verb) = (teleport_to w session to verb).0
perform w (die cid) = (send_to_graveyard w cid).0
perform w (roam mob_id) = wander w mob_id
perform w (spawn room_id token) = map_or w (λ r. r.1) (spawn_named_mob w room_id token)
perform w (appear room_id name) = (spawn_mob w room_id name).1
perform w (evacuate prefix to_room) = evacuate_rooms_with_prefix w prefix to_room
perform w (enter party_id start_room) = enter_run w party_id start_room
perform w (log_in session name principal capabilities is_bot race class sex pronouns) =
    (spawn_or_restore_character w session name principal capabilities is_bot race class sex
      pronouns).1
perform w (vanish cid) = (remove_char w cid).1
perform w (log_out session) = (detach_session w session).1
perform w (party cid cmd) = (party_command w cid cmd).1
