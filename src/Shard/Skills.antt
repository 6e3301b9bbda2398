-- ===== src/Shard/Skills.antt =====
-- apps/shard_01/src/main.rs: the skills of each class, how a player names them and what they do. The
-- table ALL_SKILLS is in three parts. Listing and rendering are left out.
pub mod Def
pub mod First
pub mod Second
pub mod Third
pub mod Naming
use slopmud.Prelude.{
  ℕ, zero, suc, ◌+◌, ◌-◌, ◌*◌, ◌/◌, ◌%◌, ◌^◌, ◌≤◌, ◌<◌, min, max, ◌≡◌, refl, sym, ap, ap₂, ◌∙◌,
  subst, ◌≢◌, ◌↔◌, ◌⊎◌, inl, inr, Bool, true, false, not, ◌&&◌, ◌||◌, Option, none, some, List, [],
  ◌∷◌, ◌++◌, map, append-nil, append_assoc, arith, ltb, leb, ◌==◌, if◌then◌else◌, ==_iff,
  Bool-cases, Option-cases, Eq, ◌=?◌, =?_iff, =?_refl, nat_eq, list_eq, list_beq, list_beq_iff,
  length, get_elem?, take, drop, is_empty, any, all, concat, All, length-append, take-append-drop,
  length-take, length-drop, take_front, drop_front, take_all, take_front_of, drop_front_of,
  take-append_left, take_past, drop_past, get_elem?-front, get_elem?-append_left, All-append,
  All-left, reverse, reverse-append, reverse-reverse, filter, length-reverse, drop-append,
  drop-drop, drop_all, reverse-take, take_one, take_over, take_least, All-right, List-cases,
  All-filter, map_or, map_or_intro, if_intro,
}
use slopmud.Prelude.Text.{Text, text, name_key, to_ascii_lowercase}
use slopmud.Prelude.Int.{ℤ, pos, ◌+ℤ◌, ◌*ℤ◌, max_ℤ}
use slopmud.Shard.Creature.{Class, class_as_str}
use slopmud.Shard.Creature.Scores.{AbilityScores, Ability, as_i32, wrap_i32, mod_for}
use slopmud.Shard.Rooms.{find_first, eq_ignore_ascii_case}
use slopmud.Shard.Skills.Def.{SkillDef, SkillEffect, damage, heal}
use slopmud.Shard.Skills.First.{
  fighter_skills, wizard_skills, rogue_skills, healer_skills, cleric_skills,
}
use slopmud.Shard.Skills.Second.{
  ranger_skills, paladin_skills, barbarian_skills, bard_skills, druid_skills, warlock_skills,
  sorcerer_skills, monk_skills,
}
use slopmud.Shard.Skills.Third.{
  more_fighter_skills, more_rogue_skills, more_wizard_skills, more_paladin_skills,
  more_druid_skills, more_warlock_skills,
}

abbrev pub all_skills : List SkillDef
all_skills =
    fighter_skills ++ wizard_skills ++ rogue_skills ++ healer_skills ++ cleric_skills
    ++ ranger_skills ++ paladin_skills ++ barbarian_skills ++ bard_skills ++ druid_skills
    ++ warlock_skills ++ sorcerer_skills ++ monk_skills ++ more_fighter_skills ++ more_rogue_skills
    ++ more_wizard_skills ++ more_paladin_skills ++ more_druid_skills ++ more_warlock_skills

-- Classes are equal if their names are.
unfoldable pub skill_has_class : SkillDef → Class → Bool
unfolding class_as_str
skill_has_class s class = any (λ c. class_as_str c =? class_as_str class) s.classes

-- The id, the name or an alias, in any case.
unfoldable pub is_named : Text → SkillDef → Bool
unfolding to_ascii_lowercase
is_named t s =
    eq_ignore_ascii_case s.id t
    || eq_ignore_ascii_case s.display t
    || any (λ a. eq_ignore_ascii_case a t) s.aliases

unfoldable pub find_skill_any : Text → Option SkillDef
unfolding is_named name_key
find_skill_any token =
    let t = name_key token in if is_empty t then none else find_first (is_named t) all_skills

unfoldable pub find_skill_for_class : Class → Text → Option SkillDef
unfolding is_named name_key skill_has_class
find_skill_for_class class token =
    let t = name_key token in
    if is_empty t
    then none
    else find_first (λ s. skill_has_class s class && is_named t s) all_skills

unfoldable pub skill_stun_ms : SkillDef → ℕ
skill_stun_ms s =
    if s.id =? text "shield_bash" then 1500 else if s.id =? text "dirty_trick" then 1200 else 0

-- The sum wraps to 32 bits, as its parts do.
unfoldable pub amount : ℤ → ℤ → ℕ → ℤ → ℤ
unfolding as_i32 wrap_i32 ◌+ℤ◌ ◌*ℤ◌
amount base per_rank rank m = wrap_i32 (base +ℤ per_rank *ℤ pos (max rank 1 - 1) +ℤ max_ℤ m (pos 0))

unfoldable pub effect_amount : SkillEffect → ℕ → AbilityScores → ℤ
unfolding amount mod_for
effect_amount (damage base per_rank ability) rank stats =
    amount base per_rank rank (mod_for stats ability)
effect_amount (heal base per_rank ability) rank stats =
    amount base per_rank rank (mod_for stats ability)

unfoldable pub compute_skill_amount : SkillDef → ℕ → AbilityScores → ℤ
unfolding effect_amount
compute_skill_amount s rank stats = effect_amount s.effect rank stats
