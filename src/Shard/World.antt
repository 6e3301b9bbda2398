-- ===== src/Shard/World.antt =====
-- apps/shard_01/src/main.rs: the state of a shard. Ids, levels and times are the numbers of their Rust
-- types; a `HashSet` is a list that is asked for its members only; an `i32` is an integer.
-- Left out of World: party_builds, players_path, the two start times, bartender_*, raft and groups,
-- which no operation modelled here reads, and raft_watch, which only raft output reads.
pub mod Events
pub mod Inventory
pub mod Births
pub mod Blows
pub mod Snapshots
pub mod Places
pub mod Departures
pub mod Life
pub mod Combat
pub mod Deeds
pub mod Runs
pub mod Dice
pub mod Experience
mod Tests
pub mod Moves
pub mod Parties
use slopmud.Prelude.{
  ℕ, zero, suc, ◌+◌, ◌-◌, ◌*◌, ◌/◌, ◌%◌, ◌^◌, ◌≤◌, ◌<◌, min, max, ◌≡◌, refl, sym, ap, ap₂, ◌∙◌,
  subst, ◌≢◌, ◌↔◌, ◌⊎◌, inl, inr, Bool, true, false, not, ◌&&◌, ◌||◌, Option, none, some, List, [],
  ◌∷◌, ◌++◌, map, append-nil, append_assoc, arith, ltb, leb, ◌==◌, if◌then◌else◌, ==_iff,
  Bool-cases, Option-cases, Eq, ◌=?◌, =?_iff, =?_refl, nat_eq, list_eq, list_beq, list_beq_iff,
  length, get_elem?, take, drop, is_empty, any, all, concat, All, length-append, take-append-drop,
  length-take, length-drop, take_front, drop_front, take_all, take_front_of, drop_front_of,
  take-append_left, take_past, drop_past, get_elem?-front, get_elem?-append_left, All-append,
  All-left, reverse, reverse-append, reverse-reverse, filter, length-reverse, drop-append,
  drop-drop, drop_all, reverse-take, take_one, take_over, take_least, All-right,
}
use slopmud.Prelude.Text.{Text, text}
use slopmud.Prelude.Map.{get, insert}
use slopmud.Prelude.Int.{ℤ, pos}
use slopmud.Shard.Authority.{Capability}
use slopmud.Shard.Creature.{Race, Sex, no_sex, PronounKey, they, Class}
use slopmud.Shard.Creature.Scores.{AbilityScores, baseline}
use slopmud.Shard.Equipment.{Equipment, no_equipment}
use slopmud.Shard.Rooms.{Rooms}

-- `u64::saturating_add` and `u32::saturating_add`.
unfoldable pub add_u64 : ℕ → ℕ → ℕ
add_u64 a b = min (a + b) (2 ^ 64 - 1)

unfoldable pub add_u32 : ℕ → ℕ → ℕ
add_u32 a b = min (a + b) (2 ^ 32 - 1)

pub record CombatState : Type 0 where
  pub autoattack : Bool
  pub target : Option ℕ
  pub next_ready_ms : ℕ
  pub seq : ℕ

abbrev pub new_combat : ℕ → CombatState
new_combat now_ms = record { autoattack = false; target = none; next_ready_ms = now_ms; seq = 0 }

pub record Character : Type 0 where
  pub id : ℕ
  pub controller : Option ℕ
  pub created_by : Option ℕ
  pub name : Text
  pub principal : Text
  pub auth_caps : List Capability
  pub is_bot : Bool
  pub bot_ever : Bool
  pub bot_ever_since_ms : Option ℕ
  pub bot_mode_changed_ms : ℕ
  pub friends : List Text
  pub room_id : Text
  pub autoassist : Bool
  pub follow_leader : Bool
  pub drink_level : ℕ
  pub gold : ℕ
  pub inv : List (Text × ℕ)
  pub quest : List (Text × Text)
  pub class : Option Class
  pub level : ℕ
  pub xp : ℕ
  pub skill_points : ℕ
  pub skills : List (Text × ℕ)
  pub skill_cd_ms : List (Text × ℕ)
  pub race : Option Race
  pub sex : Sex
  pub pronouns : PronounKey
  pub stats : AbilityScores
  pub hp : ℤ
  pub max_hp : ℤ
  pub mana : ℤ
  pub max_mana : ℤ
  pub stamina : ℤ
  pub max_stamina : ℤ
  pub last_mana_regen_ms : ℕ
  pub last_stamina_regen_ms : ℕ
  pub pvp_enabled : Bool
  pub stunned_until_ms : ℕ
  pub combat : CombatState
  pub equip : Equipment

unfoldable pub is_built : Character → Bool
is_built c = elim c.race [ none ↦ false | some r ↦ elim c.class [ none ↦ false | some k ↦ true ] ]

abbrev pub is_some {ℓ} : {A : Type ℓ} → Option A → Bool
is_some none = false
is_some (some a) = true

pub record Party : Type 0 where
  pub id : ℕ
  pub leader : ℕ
  pub members : List ℕ

pub record PartyInvite : Type 0 where
  pub party_id : ℕ
  pub inviter : ℕ
  pub expires_ms : ℕ

-- `pending_confirm` holds the character of a `bot on` that waits for a yes.
pub record SessionState : Type 0 where
  pub controlled : List ℕ
  pub active : ℕ
  pub pending_confirm : Option ℕ

pub data EventKind : Type 0 where
  room_msg : Text → Text → EventKind
  ensure_tavern_mob : EventKind
  bartender_emote : EventKind
  ensure_first_fight_worm : EventKind
  ensure_class_hall_mobs : EventKind
  combat_act : ℕ → EventKind
  boss_telegraph : ℕ → EventKind
  boss_resolve : ℕ → ℕ → EventKind
  mob_wander : ℕ → EventKind
  party_build_next : ℕ → EventKind
  tick : EventKind

pub record ScheduledEvent : Type 0 where
  pub due_ms : ℕ
  pub seq : ℕ
  pub kind : EventKind

pub record BossState : Type 0 where
  pub casting_until_ms : ℕ
  pub seq : ℕ

-- `AbilityScoresSnapshot` has the fields of AbilityScores.
pub record PlayerSnapshot : Type 0 where
  pub name : Text
  pub principal : Text
  pub is_bot : Bool
  pub bot_ever : Bool
  pub bot_ever_since_ms : Option ℕ
  pub bot_mode_changed_ms : ℕ
  pub friends : List Text
  pub room_id : Text
  pub autoassist : Bool
  pub follow_leader : Bool
  pub drink_level : ℕ
  pub gold : ℕ
  pub inv : List (Text × ℕ)
  pub quest : List (Text × Text)
  pub class : Text
  pub level : ℕ
  pub xp : ℕ
  pub skill_points : ℕ
  pub skills : List (Text × ℕ)
  pub race : Text
  pub sex : Text
  pub pronouns : Text
  pub stats : AbilityScores
  pub hp : ℤ
  pub max_hp : ℤ
  pub mana : ℤ
  pub max_mana : ℤ
  pub stamina : ℤ
  pub max_stamina : ℤ
  pub pvp_enabled : Bool
  pub equip : List (Text × Text)

pub record World : Type 0 where
  pub rooms : Rooms
  pub sessions : List (ℕ × SessionState)
  pub chars : List (ℕ × Character)
  pub occupants : List (Text × List ℕ)
  pub parties : List (ℕ × Party)
  pub party_invites : List (ℕ × PartyInvite)
  pub next_party_id : ℕ
  pub party_of : List (ℕ × ℕ)
  pub rng : ℕ
  pub next_char_id : ℕ
  pub now_ms : ℕ
  pub event_seq : ℕ
  pub events : List ScheduledEvent
  pub mob_wander_ms : ℕ
  pub bosses : List (ℕ × BossState)
  pub players : List (Text × PlayerSnapshot)

unfoldable pub active_char_id : World → ℕ → Option ℕ
active_char_id w session = elim (get session w.sessions) [ none ↦ none | some ss ↦ some ss.active ]

-- `get_mut`: the character is changed in place, where there is one.
unfoldable pub with_char : ℕ → (Character → Character) → List (ℕ × Character) → List (ℕ × Character)
with_char cid f chars = elim (get cid chars) [ none ↦ chars | some c ↦ insert cid (f c) chars ]
