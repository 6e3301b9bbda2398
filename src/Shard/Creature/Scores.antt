-- ===== src/Shard/Creature/Scores.antt =====
-- apps/shard_01/src/main.rs: ability scores, and the hit points, mana and stamina that a class and its
-- scores give. An `i32` is an integer that `wrap_i32` brings back to 32 bits after each operation.
use slopmud.Prelude.{
  ℕ, ◌+◌, ◌-◌, ◌*◌, ◌/◌, ◌%◌, ◌^◌, max, List, [], ◌∷◌, ltb, if◌then◌else◌, nat_eq, list_eq,
}
use slopmud.Prelude.Int.{ℤ, pos, negsuc, ◌+ℤ◌, max_ℤ}
use slopmud.Shard.Creature.{
  Class, barbarian, bard, cleric, druid, fighter, monk, paladin, ranger, rogue, sorcerer, warlock,
  wizard,
}

-- Two's complement, from the bits: `n as i32` for an unsigned n.
unfoldable pub as_i32 : ℕ → ℤ
as_i32 n =
    let bits = n % 2 ^ 32 in if ltb bits (2 ^ 31) then pos bits else negsuc (2 ^ 32 - 1 - bits)

unfoldable pub wrap_i32 : ℤ → ℤ
unfolding as_i32
wrap_i32 (pos n) = as_i32 n
wrap_i32 (negsuc n) = as_i32 (2 ^ 32 - 1 - n % 2 ^ 32)

pub data Ability : Type 0 where
  str_ability : Ability
  dex_ability : Ability
  con_ability : Ability
  int_ability : Ability
  wis_ability : Ability
  cha_ability : Ability

pub record AbilityScores : Type 0 where
  pub str_ : ℤ
  pub dex : ℤ
  pub con : ℤ
  pub int_ : ℤ
  pub wis : ℤ
  pub cha : ℤ

abbrev pub baseline : AbilityScores
baseline = record {
  str_ = pos 10;
  dex = pos 10;
  con = pos 10;
  int_ = pos 10;
  wis = pos 10;
  cha = pos 10;
}

unfoldable pub score : AbilityScores → Ability → ℤ
score s str_ability = s.str_
score s dex_ability = s.dex
score s con_ability = s.con
score s int_ability = s.int_
score s wis_ability = s.wis
score s cha_ability = s.cha

unfoldable pub set_score : AbilityScores → Ability → ℤ → AbilityScores
set_score s str_ability v = record s { str_ = v }
set_score s dex_ability v = record s { dex = v }
set_score s con_ability v = record s { con = v }
set_score s int_ability v = record s { int_ = v }
set_score s wis_ability v = record s { wis = v }
set_score s cha_ability v = record s { cha = v }

-- `div_euclid(2)`, which rounds down.
unfoldable pub halve : ℤ → ℤ
halve (pos n) = pos (n / 2)
halve (negsuc n) = negsuc (n / 2)

unfoldable pub mod_for : AbilityScores → Ability → ℤ
unfolding score wrap_i32 halve ◌+ℤ◌
mod_for s a = halve (wrap_i32 (score s a +ℤ negsuc 9))

unfoldable pub hit_die : Class → ℕ
hit_die barbarian = 12
hit_die bard = 8
hit_die cleric = 8
hit_die druid = 8
hit_die fighter = 10
hit_die monk = 8
hit_die paladin = 10
hit_die ranger = 10
hit_die rogue = 8
hit_die sorcerer = 6
hit_die warlock = 8
hit_die wizard = 6

unfoldable pub weapon_die : Class → ℕ
weapon_die barbarian = 10
weapon_die bard = 6
weapon_die cleric = 6
weapon_die druid = 6
weapon_die fighter = 10
weapon_die monk = 8
weapon_die paladin = 10
weapon_die ranger = 10
weapon_die rogue = 8
weapon_die sorcerer = 6
weapon_die warlock = 6
weapon_die wizard = 6

unfoldable pub attack_ability : Class → Ability
attack_ability barbarian = str_ability
attack_ability bard = str_ability
attack_ability cleric = str_ability
attack_ability druid = str_ability
attack_ability fighter = str_ability
attack_ability monk = dex_ability
attack_ability paladin = str_ability
attack_ability ranger = dex_ability
attack_ability rogue = dex_ability
attack_ability sorcerer = str_ability
attack_ability warlock = str_ability
attack_ability wizard = str_ability

-- The order in which a class gets the standard array 15, 14, 13, 12, 10, 8.
abbrev pub priority : Class → List Ability
priority barbarian =
    str_ability ∷ con_ability ∷ dex_ability ∷ wis_ability ∷ cha_ability ∷ int_ability ∷ []
priority bard =
    cha_ability ∷ dex_ability ∷ con_ability ∷ int_ability ∷ wis_ability ∷ str_ability ∷ []
priority cleric =
    wis_ability ∷ con_ability ∷ str_ability ∷ cha_ability ∷ dex_ability ∷ int_ability ∷ []
priority druid =
    wis_ability ∷ con_ability ∷ dex_ability ∷ int_ability ∷ cha_ability ∷ str_ability ∷ []
priority fighter =
    str_ability ∷ con_ability ∷ dex_ability ∷ wis_ability ∷ cha_ability ∷ int_ability ∷ []
priority monk =
    dex_ability ∷ wis_ability ∷ con_ability ∷ str_ability ∷ int_ability ∷ cha_ability ∷ []
priority paladin =
    str_ability ∷ cha_ability ∷ con_ability ∷ wis_ability ∷ dex_ability ∷ int_ability ∷ []
priority ranger =
    dex_ability ∷ wis_ability ∷ con_ability ∷ str_ability ∷ int_ability ∷ cha_ability ∷ []
priority rogue =
    dex_ability ∷ int_ability ∷ con_ability ∷ wis_ability ∷ cha_ability ∷ str_ability ∷ []
priority sorcerer =
    cha_ability ∷ con_ability ∷ dex_ability ∷ wis_ability ∷ int_ability ∷ str_ability ∷ []
priority warlock =
    cha_ability ∷ con_ability ∷ dex_ability ∷ wis_ability ∷ int_ability ∷ str_ability ∷ []
priority wizard =
    int_ability ∷ con_ability ∷ dex_ability ∷ wis_ability ∷ cha_ability ∷ str_ability ∷ []

-- `arr.remove(0)` for each ability in turn.
unfoldable pub assign : AbilityScores → List Ability → List ℕ → AbilityScores
unfolding set_score
assign s [] arr = s
assign s (a ∷ rest) [] = s
assign s (a ∷ rest) (v ∷ arr) = assign (set_score s a (pos v)) rest arr

unfoldable pub assign_core_stats_for_class : Class → AbilityScores
unfolding assign
assign_core_stats_for_class class =
    assign baseline (priority class) (15 ∷ 14 ∷ 13 ∷ 12 ∷ 10 ∷ 8 ∷ [])

unfoldable pub compute_max_hp : Class → AbilityScores → ℤ
unfolding hit_die mod_for wrap_i32 ◌+ℤ◌
compute_max_hp class scores =
    max_ℤ (wrap_i32 (pos (hit_die class) +ℤ mod_for scores con_ability)) (pos 1)

-- A base, so much for each level, and a modifier. The sums wrap, so only the last one needs wrapping.
unfoldable pub points : ℕ → ℕ → ℕ → ℤ → ℤ
unfolding wrap_i32 ◌+ℤ◌
points base per_level level m = max_ℤ (wrap_i32 (pos (base + per_level * max level 1) +ℤ m)) (pos 0)

unfoldable pub compute_max_mana : Class → AbilityScores → ℕ → ℤ
unfolding points mod_for ◌+ℤ◌
compute_max_mana barbarian scores level = pos 0
compute_max_mana bard scores level = let m = mod_for scores cha_ability in points 6 3 level (m +ℤ m)
compute_max_mana cleric scores level =
    let m = mod_for scores wis_ability in points 6 3 level (m +ℤ m)
compute_max_mana druid scores level =
    let m = mod_for scores wis_ability in points 6 3 level (m +ℤ m)
compute_max_mana fighter scores level = pos 0
compute_max_mana monk scores level = pos 0
compute_max_mana paladin scores level = points 2 2 level (mod_for scores wis_ability)
compute_max_mana ranger scores level = points 2 2 level (mod_for scores wis_ability)
compute_max_mana rogue scores level = pos 0
compute_max_mana sorcerer scores level =
    let m = mod_for scores cha_ability in points 6 3 level (m +ℤ m)
compute_max_mana warlock scores level =
    let m = mod_for scores cha_ability in points 6 3 level (m +ℤ m)
compute_max_mana wizard scores level =
    let m = mod_for scores int_ability in points 6 3 level (m +ℤ m)

unfoldable pub compute_max_stamina : Class → AbilityScores → ℕ → ℤ
unfolding points mod_for
compute_max_stamina barbarian scores level = points 8 2 level (mod_for scores con_ability)
compute_max_stamina bard scores level = points 3 1 level (mod_for scores con_ability)
compute_max_stamina cleric scores level = points 3 1 level (mod_for scores con_ability)
compute_max_stamina druid scores level = points 3 1 level (mod_for scores con_ability)
compute_max_stamina fighter scores level = points 8 2 level (mod_for scores con_ability)
compute_max_stamina monk scores level = points 8 2 level (mod_for scores con_ability)
compute_max_stamina paladin scores level = points 6 2 level (mod_for scores con_ability)
compute_max_stamina ranger scores level = points 6 2 level (mod_for scores con_ability)
compute_max_stamina rogue scores level = points 8 2 level (mod_for scores con_ability)
compute_max_stamina sorcerer scores level = points 3 1 level (mod_for scores con_ability)
compute_max_stamina warlock scores level = points 3 1 level (mod_for scores con_ability)
compute_max_stamina wizard scores level = points 3 1 level (mod_for scores con_ability)
