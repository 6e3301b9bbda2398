-- ===== src/Shard/World/Tests.antt =====
-- The theorems at a small world.
use slopmud.Prelude.{
  ℕ, ◌+◌, ◌-◌, ◌/◌, ◌≤◌, ◌<◌, min, ◌≡◌, refl, true, false, some, List, [], ◌∷◌, map, arith, leb,
  if◌then◌else◌, ◌=?◌, nat_eq, list_eq, length, All,
}
use slopmud.Prelude.Text.{Text, text}
use slopmud.Prelude.Map.{get}
use slopmud.Shard.Creature.{elf, bard, no_sex, they}
use slopmud.Shard.Rooms.{Rooms, RoomDef, has_room}
use slopmud.Shard.World.{
  World, Character, ScheduledEvent, room_msg, tick, ensure_tavern_mob, bartender_emote,
  ensure_first_fight_worm, ensure_class_hall_mobs, combat_act, boss_telegraph, boss_resolve,
  mob_wander, party_build_next, is_some,
}
use slopmud.Shard.World.Births.{mob}
use slopmud.Shard.World.Combat.{start_combat}
use slopmud.Shard.World.Combat.Start.{attacks, Grows}
use slopmud.Shard.World.Combat.Ending.{start_combat-attacks}
use slopmud.Shard.World.Deeds.{Deed, log_in, perform}
use slopmud.Shard.World.Deeds.Sound.{started, next, Reached-IsSound}
use slopmud.Shard.World.Events.{schedule_at_ms, drain}
use slopmud.Shard.World.Events.Loop.{
  Schedules, begins, adds, IsNumbered, Ran, Drained, drain-Drained,
}
use slopmud.Shard.World.Experience.{xp_needed_for_next, gain_xp, shares}
use slopmud.Shard.World.Experience.Levels.{spent, gain_xp-spent}
use slopmud.Shard.World.Experience.Shares.{total, total-shares}
use slopmud.Shard.World.Inventory.{take_one_item, take_n_items}
use slopmud.Shard.World.Inventory.Counts.{count, take_n_items-count}
use slopmud.Shard.World.Life.{IsSound}
use slopmud.Shard.World.Parties.Commands.{create, party_command}
use slopmud.Shard.World.Parties.Frame.{SamePeople}
use slopmud.Shard.World.Parties.Kept.{party_command-HasParties}
use slopmud.Shard.World.Parties.Members.{IsParty, HasParties}
use slopmud.Shard.World.Snapshots.{snapshot, restored}
use slopmud.Shard.World.Snapshots.Restoring.{awake, restored-snapshot}

abbrev start_room : RoomDef
start_room = record { name = text "Start"; area_name = []; description = []; exits = [] }

abbrev rooms : Rooms
rooms = record {
  rooms = (text "R_START", start_room) ∷ [];
  dyn_rooms = [];
  start_room = text "R_START";
}

abbrev new_world : World
new_world = record {
  rooms = rooms;
  sessions = [];
  chars = [];
  occupants = [];
  parties = [];
  party_invites = [];
  next_party_id = 1;
  party_of = [];
  rng = 1;
  next_char_id = 1;
  now_ms = 0;
  event_seq = 1;
  events = [];
  mob_wander_ms = 1000;
  bosses = [];
  players = [];
}

abbrev ann : Character
unfolding mob
ann = record (mob new_world (text "R_START") (text "Ann") 7) {
  controller = some 70;
  race = some elf;
  class = some bard;
}

abbrev ann_comes : Deed
ann_comes = log_in 70 (text "Ann") (text "acct:ann") [] false elf bard no_sex they

Reached-IsSound_example : IsSound (perform new_world ann_comes)
Reached-IsSound_example = Reached-IsSound (perform new_world ann_comes) (
    next new_world ann_comes (omega arith, omega arith)
      (started new_world (refl, refl, refl, refl)))

abbrev after_ann : World
after_ann = perform new_world ann_comes

abbrev ann_alone : World
ann_alone = record new_world { chars = (7, ann) ∷ []; occupants = (text "R_START", 7 ∷ []) ∷ [] }

no_parties : HasParties ann_alone
unfolding HasParties IsParty
no_parties = (λ cid pid e. absurd (ground (arith, e)), λ pid. refl, λ pid over. refl)

party_command-HasParties_example :
    HasParties (party_command ann_alone 7 create).1
    × SamePeople (party_command ann_alone 7 create).1 ann_alone
party_command-HasParties_example =
    party_command-HasParties ann_alone 7 create (omega arith) no_parties

abbrev queue : World
queue = record new_world {
  now_ms = 50;
  event_seq = 4;
  events =
      record { due_ms = 40; seq = 2; kind = tick }
      ∷ record { due_ms = 60; seq = 3; kind = tick }
      ∷ record { due_ms = 40; seq = 1; kind = room_msg [] [] }
      ∷ [];
}

-- A handler of ticks: it asks for the worm of the first fight, as the source's does.
abbrev on_event : World → ScheduledEvent → World
on_event w ev = elim ev.kind [
  | tick ↦ schedule_at_ms w w.now_ms ensure_first_fight_worm
  | room_msg r m ↦ w
  | ensure_tavern_mob ↦ w
  | bartender_emote ↦ w
  | ensure_first_fight_worm ↦ w
  | ensure_class_hall_mobs ↦ w
  | combat_act i ↦ w
  | boss_telegraph i ↦ w
  | boss_resolve i k ↦ w
  | mob_wander i ↦ w
  | party_build_next i ↦ w
]

on_event-Schedules : (w : World) (ev : ScheduledEvent) → Schedules w (on_event w ev)
on_event-Schedules w ev = elim ev.kind as (λ k. Schedules w (on_event w (record ev { kind = k }))) [
  | tick ↦ adds w w w.now_ms ensure_first_fight_worm (begins w) (omega arith)
  | room_msg r m ↦ begins w
  | ensure_tavern_mob ↦ begins w
  | bartender_emote ↦ begins w
  | ensure_first_fight_worm ↦ begins w
  | ensure_class_hall_mobs ↦ begins w
  | combat_act i ↦ begins w
  | boss_telegraph i ↦ begins w
  | boss_resolve i k ↦ begins w
  | mob_wander i ↦ begins w
  | party_build_next i ↦ begins w
]

drain-Drained_example :
    Ran on_event queue (drain on_event 9 queue).0 (drain on_event 9 queue).1
    × Drained 9 queue (drain on_event 9 queue)
unfolding IsNumbered
drain-Drained_example =
    drain-Drained on_event on_event-Schedules 9 queue
      ((omega arith, (omega arith, (omega arith, tt))), omega arith)

start_combat-attacks_example :
    (v : World) × (start_combat 2 ann_alone 7 7 ≡ some v)
    × Grows ann_alone v
    × (is_some (get 7 ann_alone.chars) ≡ true → attacks 7 v ≡ true)
unfolding mob
start_combat-attacks_example = start_combat-attacks 2 ann_alone 7 7 (omega arith)

gain_xp-spent_example :
    ((gain_xp 35 ann).xp < xp_needed_for_next (gain_xp 35 ann).level)
    × ((gain_xp 35 ann).xp + spent (gain_xp 35 ann).level ≡ ann.xp + 35 + spent ann.level)
    × ((gain_xp 35 ann).skill_points + ann.level ≡ ann.skill_points + (gain_xp 35 ann).level)
unfolding mob
gain_xp-spent_example = gain_xp-spent 35 ann (omega arith, omega arith)

abbrev three : List ℕ
three = 7 ∷ 8 ∷ 9 ∷ []

total-shares_example :
    (total (shares 11 three) ≡ 11)
    × (map (λ (p : ℕ × ℕ). p.0) (shares 11 three) ≡ three)
    × All (λ (p : ℕ × ℕ). 11 / length three ≤ p.1) (shares 11 three)
total-shares_example = total-shares 11 7 (8 ∷ 9 ∷ [])

abbrev bag : List (Text × ℕ)
bag = (text "rope", 2) ∷ (text "ale", 5) ∷ []

take_n_items-count_example :
    ((take_n_items bag (text "rope") 3).0 ≡ min (count (text "rope") bag) 3)
    × (count (text "ale") (take_n_items bag (text "rope") 3).1 ≡ (
        if text "ale" =? text "rope" then count (text "ale") bag - 3 else count (text "ale") bag))
    × (count (text "ale") (take_one_item bag (text "rope")).1
        ≡ count (text "ale") (take_n_items bag (text "rope") 1).1)
    × ((take_one_item bag (text "rope")).0 ≡ leb 1 (count (text "rope") bag))
take_n_items-count_example = take_n_items-count (text "ale") (text "rope") 3 bag

has_start : has_room rooms (text "R_START") ≡ true
unfolding has_room
has_start = refl

restored-snapshot_example :
    restored new_world 71 (snapshot ann elf bard) ann.principal [] 8 ≡ awake new_world 71 [] 8 ann
unfolding mob
restored-snapshot_example =
    restored-snapshot new_world 71 8 [] ann elf bard refl refl
      (omega arith, omega arith, omega arith, omega arith, omega arith, omega arith, omega arith)
      has_start
