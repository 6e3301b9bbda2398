-- ===== src/Shard/World/Births.antt =====
-- apps/shard_01/src/main.rs: how characters come into the world: spawn_mob, spawn_named_mob and
-- spawn_character. `capabilities` are those that the broker asserts for the login.
use slopmud.Prelude.{
  ℕ, Bool, true, false, ◌||◌, Option, none, some, List, [], ◌∷◌, ◌++◌, if◌then◌else◌, ◌=?◌, nat_eq,
  list_eq, is_empty, map_or,
}
use slopmud.Prelude.Text.{Text, text, name_key}
use slopmud.Prelude.Map.{get, insert}
use slopmud.Prelude.Int.{pos, max_ℤ}
use slopmud.Prelude.Buckets.{put_in}
use slopmud.Shard.Authority.{Capability}
use slopmud.Shard.Creature.{Race, size, Sex, no_sex, PronounKey, they, Class}
use slopmud.Shard.Creature.Scores.{
  baseline, assign_core_stats_for_class, compute_max_hp, compute_max_mana, compute_max_stamina,
}
use slopmud.Shard.Equipment.{no_equipment}
use slopmud.Shard.World.{
  World, Character, SessionState, boss_telegraph, new_combat, with_char, add_u64,
}
use slopmud.Shard.World.Events.{schedule_in_ms}
use slopmud.Shard.World.Inventory.{Inv, inv_add, starter_kit_for_size}

-- The steps that all three share: the next id, the character, and its place in its room.
unfoldable pub settle : World → (ℕ → Character) → World
unfolding add_u64
settle w make =
    let cid = w.next_char_id in
    let c = make cid in
    record w {
      next_char_id = add_u64 cid 1;
      chars = insert cid c w.chars;
      occupants = put_in c.room_id cid w.occupants;
    }

unfoldable pub mob : World → Text → Text → ℕ → Character
mob w room_id name cid = record {
  id = cid;
  controller = none;
  created_by = none;
  name = name;
  principal = text "mob:";
  auth_caps = [];
  is_bot = false;
  bot_ever = false;
  bot_ever_since_ms = none;
  bot_mode_changed_ms = w.now_ms;
  friends = [];
  room_id = room_id;
  autoassist = false;
  follow_leader = false;
  drink_level = 0;
  gold = 0;
  inv = [];
  quest = [];
  class = none;
  level = 1;
  xp = 0;
  skill_points = 0;
  skills = [];
  skill_cd_ms = [];
  race = none;
  sex = no_sex;
  pronouns = they;
  stats = baseline;
  hp = pos 1;
  max_hp = pos 1;
  mana = pos 0;
  max_mana = pos 0;
  stamina = pos 0;
  max_stamina = pos 0;
  last_mana_regen_ms = w.now_ms;
  last_stamina_regen_ms = w.now_ms;
  pvp_enabled = false;
  stunned_until_ms = 0;
  combat = new_combat w.now_ms;
  equip = no_equipment;
}

unfoldable pub spawn_mob : World → Text → Text → ℕ × World
unfolding settle mob
spawn_mob w room_id name = (w.next_char_id, settle w (mob w room_id name))

unfoldable pub with_hp : ℕ → ℕ × World → ℕ × World
unfolding with_char
with_hp n r =
    let w = r.1 in
    (r.0, record w { chars = with_char r.0 (λ c. record c { hp = pos n; max_hp = pos n }) w.chars })

unfoldable pub spawn_stenchworm : World → Text → ℕ × World
unfolding spawn_mob with_hp
spawn_stenchworm w room_id = with_hp 9 (spawn_mob w room_id (text "stenchworm"))

unfoldable pub spawn_boss : ℕ × World → ℕ × World
unfolding schedule_in_ms
spawn_boss r =
    let w = r.1 in
    (
      r.0,
      schedule_in_ms
          (record w { bosses = insert r.0 (record { casting_until_ms = 0; seq = 1 }) w.bosses }) 800
          (boss_telegraph r.0),
    )

unfoldable pub spawn_known : World → Text → Text → ℕ × World
unfolding spawn_stenchworm spawn_mob with_hp spawn_boss
spawn_known w room_id t =
    if t =? text "stenchworm"
    then spawn_stenchworm w room_id
    else if (t =? text "dummy") || (t =? text "training_dummy")
    then with_hp 120 (spawn_mob w room_id (text "dummy"))
    else if t =? text "rat"
    then with_hp 5 (spawn_mob w room_id (text "rat"))
    else if t =? text "spitter"
    then with_hp 7 (spawn_mob w room_id (text "spitter"))
    else if t =? text "grease_king"
    then spawn_boss (with_hp 60 (spawn_mob w room_id (text "grease_king")))
    else with_hp 10 (spawn_mob w room_id t)

unfoldable pub spawn_named_mob : World → Text → Text → Option (ℕ × World)
unfolding spawn_known
spawn_named_mob w room_id token =
    let t = name_key token in if is_empty t then none else some (spawn_known w room_id t)

-- The session controls the character and plays it.
unfoldable pub take_control : World → ℕ → ℕ → World
take_control w session cid =
    let ss : SessionState =
      map_or (record { controlled = []; active = cid; pending_confirm = none }) (λ s. s)
        (get session w.sessions) in
    record w {
      sessions =
          insert session (record ss { controlled = ss.controlled ++ cid ∷ []; active = cid })
            w.sessions;
    }

unfoldable pub newborn :
    World
    → ℕ
    → Text
    → Text
    → List Capability
    → Bool
    → Race
    → Class
    → Sex
    → PronounKey
    → ℕ
    → Character
unfolding mob assign_core_stats_for_class compute_max_hp compute_max_mana compute_max_stamina
newborn w session name principal capabilities is_bot race class sex pronouns cid =
    let stats = assign_core_stats_for_class class in
    let max_hp = max_ℤ (compute_max_hp class stats) (pos 1) in
    let max_mana = max_ℤ (compute_max_mana class stats 1) (pos 0) in
    let max_stamina = max_ℤ (compute_max_stamina class stats 1) (pos 0) in
    record (mob w w.rooms.start_room name cid) {
      controller = some session;
      created_by = some session;
      principal = principal;
      auth_caps = capabilities;
      is_bot = is_bot;
      bot_ever = is_bot;
      bot_ever_since_ms = if is_bot then some w.now_ms else none;
      autoassist = true;
      class = some class;
      race = some race;
      sex = sex;
      pronouns = pronouns;
      stats = stats;
      hp = max_hp;
      max_hp = max_hp;
      mana = max_mana;
      max_mana = max_mana;
      stamina = max_stamina;
      max_stamina = max_stamina;
    }

unfoldable pub give_all : World → ℕ → Inv → World
unfolding inv_add
give_all w cid [] = w
give_all w cid ((item, n) ∷ kit) = give_all (inv_add w cid item n) cid kit

unfoldable pub spawn_character :
    World → ℕ → Text → Text → List Capability → Bool → Race → Class → Sex → PronounKey → ℕ × World
unfolding settle newborn take_control give_all starter_kit_for_size size
spawn_character w session name principal capabilities is_bot race class sex pronouns =
    let cid = w.next_char_id in
    let born =
      settle w (newborn w session name principal capabilities is_bot race class sex pronouns) in
    (cid, give_all (take_control born session cid) cid (starter_kit_for_size (size race)))
