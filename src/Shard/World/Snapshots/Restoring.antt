-- ===== src/Shard/World/Snapshots/Restoring.antt =====
-- Logging in again from a snapshot.
use slopmud.Prelude.{
  ℕ, ◌≤◌, max, ◌≡◌, sym, ap, ◌∙◌, true, some, List, [], arith, if◌then◌else◌, nat_eq, list_eq,
  map_or,
}
use slopmud.Prelude.Int.{ℤ, pos, ◌≤ℤ◌, min_ℤ, max_ℤ}
use slopmud.Shard.Authority.{Capability}
use slopmud.Shard.Creature.{
  Race, human, Class, fighter, no_sex, default_for_sex, sex_parse, sex_as_str,
}
use slopmud.Shard.Creature.Names.{
  race_parse-race_as_str, class_parse-class_as_str, sex_parse-sex_as_str,
  pronoun_parse-pronoun_as_str,
}
use slopmud.Shard.World.Snapshots.Slots.{equip_of_map-equip_to_map}
use slopmud.Shard.Rooms.{has_room}
use slopmud.Shard.World.{World, Character, new_combat}
use slopmud.Shard.World.Snapshots.{snapshot, restored}

-- A level, and points within their bounds.
abbrev pub IsHealthy : Character → Type 0
IsHealthy c =
    (1 ≤ c.level)
    × (pos 1 ≤ℤ c.hp)
    × (c.hp ≤ℤ c.max_hp)
    × (pos 0 ≤ℤ c.mana)
    × (c.mana ≤ℤ c.max_mana)
    × (pos 0 ≤ℤ c.stamina)
    × (c.stamina ≤ℤ c.max_stamina)

clamped : (lo x hi : ℤ) → lo ≤ℤ x → x ≤ℤ hi → min_ℤ (max_ℤ x lo) (max_ℤ hi lo) ≡ x
clamped lo x hi h k = ground (arith, h, k)

raised : (lo x hi : ℤ) → lo ≤ℤ x → x ≤ℤ hi → max_ℤ hi lo ≡ hi
raised lo x hi h k = ground (arith, h, k)

-- The player as it is after logging in again.
unfoldable pub awake : World → ℕ → List Capability → ℕ → Character → Character
awake w session capabilities cid c = record c {
  id = cid;
  controller = some session;
  created_by = some session;
  auth_caps = capabilities;
  skill_cd_ms = [];
  last_mana_regen_ms = w.now_ms;
  last_stamina_regen_ms = w.now_ms;
  stunned_until_ms = 0;
  combat = new_combat w.now_ms;
}

-- A player with a race and a class, whose level is at least 1 and whose points lie within their bounds, in
-- a room that the world still has, is restored from the snapshot with all that it had but for its id,
-- session, capabilities, cooldowns, stuns, fights and regeneration times, which are those of the new
-- login.
pub restored-snapshot :
    (w : World) (session cid : ℕ) (capabilities : List Capability) (c : Character) (race : Race)
    (class : Class)
    → c.race ≡ some race
    → c.class ≡ some class
    → IsHealthy c
    → has_room w.rooms c.room_id ≡ true
    → restored w session (snapshot c race class) c.principal capabilities cid
      ≡ awake w session capabilities cid c
unfolding restored snapshot awake has_room
restored-snapshot w session cid capabilities c race class er ec h room = λ i.
    record (awake w session capabilities cid c) {
      room_id = in_room i;
      class =
          (ap (λ o. some (map_or fighter (λ x. x) o)) (class_parse-class_as_str class) ∙ sym ec) i;
      level = least i;
      race = (ap (λ o. some (map_or human (λ x. x) o)) (race_parse-race_as_str race) ∙ sym er) i;
      sex = sex i;
      pronouns =
          ap
            (map_or (default_for_sex (map_or no_sex (λ x. x) (sex_parse (sex_as_str c.sex))))
              (λ x. x))
            (pronoun_parse-pronoun_as_str c.pronouns) i;
      hp = clamped (pos 1) c.hp c.max_hp h.1 h.2 i;
      max_hp = raised (pos 1) c.hp c.max_hp h.1 h.2 i;
      mana = clamped (pos 0) c.mana c.max_mana h.3 h.4 i;
      max_mana = raised (pos 0) c.mana c.max_mana h.3 h.4 i;
      stamina = clamped (pos 0) c.stamina c.max_stamina h.5 h.6 i;
      max_stamina = raised (pos 0) c.stamina c.max_stamina h.5 h.6 i;
      equip = equip_of_map-equip_to_map c.equip i;
    }
  where
    in_room : (if has_room w.rooms c.room_id then c.room_id else w.rooms.start_room) ≡ c.room_id
    in_room = ground (arith, room)

    least : max c.level 1 ≡ c.level
    least = omega (arith, h.0)

    sex : map_or no_sex (λ x. x) (sex_parse (sex_as_str c.sex)) ≡ c.sex
    sex = ap (map_or no_sex (λ x. x)) (sex_parse-sex_as_str c.sex)
