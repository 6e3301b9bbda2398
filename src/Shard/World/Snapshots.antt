-- ===== src/Shard/World/Snapshots.antt =====
-- apps/shard_01/src/main.rs: what is kept of a player between logins, and a login that restores it. The
-- file that the snapshots are also written to is left out, and the sorting of `friends`, which are
-- restored as a set.
mod Slots
pub mod Restoring
use slopmud.Prelude.{
  ℕ, zero, suc, ◌+◌, ◌-◌, ◌*◌, ◌/◌, ◌%◌, ◌^◌, ◌≤◌, ◌<◌, min, max, ◌≡◌, refl, sym, ap, ap₂, ◌∙◌,
  subst, ◌≢◌, ◌↔◌, ◌⊎◌, inl, inr, Bool, true, false, not, ◌&&◌, ◌||◌, Option, none, some, List, [],
  ◌∷◌, ◌++◌, map, append-nil, append_assoc, arith, ltb, leb, ◌==◌, if◌then◌else◌, ==_iff,
  Bool-cases, Option-cases, Eq, ◌=?◌, =?_iff, =?_refl, nat_eq, list_eq, list_beq, list_beq_iff,
  length, get_elem?, take, drop, is_empty, any, all, concat, All, length-append, take-append-drop,
  length-take, length-drop, take_front, drop_front, take_all, take_front_of, drop_front_of,
  take-append_left, take_past, drop_past, get_elem?-front, get_elem?-append_left, All-append,
  All-left, reverse, reverse-append, reverse-reverse, filter, length-reverse, drop-append,
  drop-drop, drop_all, reverse-take, take_one, take_over, take_least, All-right, List-cases, map_or,
  map_or_intro, if_intro,
}
use slopmud.Prelude.Text.{Text, text}
use slopmud.Prelude.Map.{get, insert, values}
use slopmud.Prelude.Int.{ℤ, pos, min_ℤ, max_ℤ}
use slopmud.Shard.Authority.{Capability}
use slopmud.Shard.Creature.{
  Race, human, race_as_str, race_parse, Sex, no_sex, sex_as_str, sex_parse, PronounKey,
  pronoun_as_str, pronoun_parse, default_for_sex, Class, fighter, class_as_str, class_parse,
}
use slopmud.Shard.Equipment.{
  EquipSlot, all_slots, slot_as_str, slot_parse, Equipment, no_equipment, set_slot,
}
use slopmud.Shard.Rooms.{has_room}
use slopmud.Shard.World.{World, Character, PlayerSnapshot, new_combat}
use slopmud.Shard.World.Births.{settle, take_control, spawn_character}

unfoldable pub equip_to_map : Equipment → List EquipSlot → List (Text × Text)
unfolding slot_as_str
equip_to_map e [] = []
equip_to_map e (s ∷ ss) =
    let rest = equip_to_map e ss in
    map_or rest (λ item. insert (slot_as_str s) item rest) (e.slots s)

unfoldable pub equip_of_map : List (Text × Text) → Equipment
unfolding slot_parse set_slot
equip_of_map [] = no_equipment
equip_of_map ((slot, item) ∷ m) =
    let rest = equip_of_map m in map_or rest (λ s. set_slot rest s item) (slot_parse slot)

unfoldable pub snapshot : Character → Race → Class → PlayerSnapshot
unfolding equip_to_map race_as_str class_as_str sex_as_str pronoun_as_str
snapshot c race class = record {
  name = c.name;
  principal = c.principal;
  is_bot = c.is_bot;
  bot_ever = c.bot_ever;
  bot_ever_since_ms = c.bot_ever_since_ms;
  bot_mode_changed_ms = c.bot_mode_changed_ms;
  friends = c.friends;
  room_id = c.room_id;
  autoassist = c.autoassist;
  follow_leader = c.follow_leader;
  drink_level = c.drink_level;
  gold = c.gold;
  inv = c.inv;
  quest = c.quest;
  class = class_as_str class;
  level = c.level;
  xp = c.xp;
  skill_points = c.skill_points;
  skills = c.skills;
  race = race_as_str race;
  sex = sex_as_str c.sex;
  pronouns = pronoun_as_str c.pronouns;
  stats = c.stats;
  hp = c.hp;
  max_hp = c.max_hp;
  mana = c.mana;
  max_mana = c.max_mana;
  stamina = c.stamina;
  max_stamina = c.max_stamina;
  pvp_enabled = c.pvp_enabled;
  equip = equip_to_map c.equip all_slots;
}

unfoldable pub from_character : Character → Option PlayerSnapshot
unfolding snapshot
from_character c =
    map_or none (λ race. map_or none (λ class. some (snapshot c race class)) c.class) c.race

unfoldable pub remember_player : World → Character → World
unfolding from_character
remember_player w c =
    map_or w (λ (s : PlayerSnapshot). record w { players = insert s.principal s w.players })
      (from_character c)

unfoldable pub remember_player_by_id : World → ℕ → World
unfolding remember_player
remember_player_by_id w cid = map_or w (remember_player w) (get cid w.chars)

unfoldable pub remember_all : List Character → World → World
unfolding remember_player
remember_all [] w = w
remember_all (c ∷ cs) w = remember_all cs (remember_player w c)

unfoldable pub persist_live_players : World → World
unfolding remember_all
persist_live_players w = remember_all (values w.chars) w

unfoldable pub restored : World → ℕ → PlayerSnapshot → Text → List Capability → ℕ → Character
unfolding equip_of_map race_parse class_parse sex_parse pronoun_parse default_for_sex has_room
restored w session s principal capabilities cid =
    let sex = map_or no_sex (λ x. x) (sex_parse s.sex) in
    record {
      id = cid;
      controller = some session;
      created_by = some session;
      name = s.name;
      principal = principal;
      auth_caps = capabilities;
      is_bot = s.is_bot;
      bot_ever = s.bot_ever;
      bot_ever_since_ms = s.bot_ever_since_ms;
      bot_mode_changed_ms = s.bot_mode_changed_ms;
      friends = s.friends;
      room_id = if has_room w.rooms s.room_id then s.room_id else w.rooms.start_room;
      autoassist = s.autoassist;
      follow_leader = s.follow_leader;
      drink_level = s.drink_level;
      gold = s.gold;
      inv = s.inv;
      quest = s.quest;
      class = some (map_or fighter (λ x. x) (class_parse s.class));
      level = max s.level 1;
      xp = s.xp;
      skill_points = s.skill_points;
      skills = s.skills;
      skill_cd_ms = [];
      race = some (map_or human (λ x. x) (race_parse s.race));
      sex = sex;
      pronouns = map_or (default_for_sex sex) (λ x. x) (pronoun_parse s.pronouns);
      stats = s.stats;
      hp = min_ℤ (max_ℤ s.hp (pos 1)) (max_ℤ s.max_hp (pos 1));
      max_hp = max_ℤ s.max_hp (pos 1);
      mana = min_ℤ (max_ℤ s.mana (pos 0)) (max_ℤ s.max_mana (pos 0));
      max_mana = max_ℤ s.max_mana (pos 0);
      stamina = min_ℤ (max_ℤ s.stamina (pos 0)) (max_ℤ s.max_stamina (pos 0));
      max_stamina = max_ℤ s.max_stamina (pos 0);
      last_mana_regen_ms = w.now_ms;
      last_stamina_regen_ms = w.now_ms;
      pvp_enabled = s.pvp_enabled;
      stunned_until_ms = 0;
      combat = new_combat w.now_ms;
      equip = equip_of_map s.equip;
    }

unfoldable pub restore_character : World → ℕ → PlayerSnapshot → Text → List Capability → ℕ × World
unfolding settle restored take_control
restore_character w session s principal capabilities =
    let cid = w.next_char_id in
    (cid, take_control (settle w (restored w session s principal capabilities)) session cid)

unfoldable pub spawn_or_restore_character :
    World → ℕ → Text → Text → List Capability → Bool → Race → Class → Sex → PronounKey → ℕ × World
unfolding restore_character spawn_character
spawn_or_restore_character w session name principal capabilities is_bot race class sex pronouns =
    map_or (spawn_character w session name principal capabilities is_bot race class sex pronouns)
      (λ s. restore_character w session s principal capabilities) (get principal w.players)
