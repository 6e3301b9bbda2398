-- ===== src/Shard/Creature/Names.antt =====
-- What is shown of a character is read back: races, classes, sexes and pronouns.
use slopmud.Prelude.{◌≡◌, refl, ap, ◌∙◌, some, nat_eq, list_eq}
use slopmud.Prelude.Text.{
  name_key, trim, trim_start_matches, trim_end_matches, is_whitespace, to_ascii_lowercase, lower,
}
use slopmud.Prelude.Map.{get}
use slopmud.Shard.Creature.{
  Race, dragonborn, dwarf, elf, gnome, goliath, halfling, human, orc, tiefling, race_as_str,
  race_arms, race_parse, Class, barbarian, bard, cleric, druid, fighter, monk, paladin, ranger,
  rogue, sorcerer, warlock, wizard, class_as_str, class_arms, class_parse, Sex, male, female,
  no_sex, other_sex, sex_as_str, sex_arms, sex_parse, PronounKey, he, she, they, pronoun_as_str,
  pronoun_arms, pronoun_parse,
}

race_arm_of : (c : Race) → get (race_as_str c) race_arms ≡ some c
unfolding race_as_str
race_arm_of dragonborn = refl
race_arm_of dwarf = refl
race_arm_of elf = refl
race_arm_of gnome = refl
race_arm_of goliath = refl
race_arm_of halfling = refl
race_arm_of human = refl
race_arm_of orc = refl
race_arm_of tiefling = refl

class_arm_of : (c : Class) → get (class_as_str c) class_arms ≡ some c
unfolding class_as_str
class_arm_of barbarian = refl
class_arm_of bard = refl
class_arm_of cleric = refl
class_arm_of druid = refl
class_arm_of fighter = refl
class_arm_of monk = refl
class_arm_of paladin = refl
class_arm_of ranger = refl
class_arm_of rogue = refl
class_arm_of sorcerer = refl
class_arm_of warlock = refl
class_arm_of wizard = refl

sex_arm_of : (c : Sex) → get (sex_as_str c) sex_arms ≡ some c
unfolding sex_as_str
sex_arm_of male = refl
sex_arm_of female = refl
sex_arm_of no_sex = refl
sex_arm_of other_sex = refl

pronoun_arm_of : (c : PronounKey) → get (pronoun_as_str c) pronoun_arms ≡ some c
unfolding pronoun_as_str
pronoun_arm_of he = refl
pronoun_arm_of she = refl
pronoun_arm_of they = refl

race_key : (c : Race) → name_key (race_as_str c) ≡ race_as_str c
unfolding race_as_str name_key trim trim_start_matches trim_end_matches is_whitespace
    to_ascii_lowercase lower
race_key dragonborn = refl
race_key dwarf = refl
race_key elf = refl
race_key gnome = refl
race_key goliath = refl
race_key halfling = refl
race_key human = refl
race_key orc = refl
race_key tiefling = refl

pub race_parse-race_as_str : (c : Race) → race_parse (race_as_str c) ≡ some c
unfolding race_parse
race_parse-race_as_str c = ap (λ k. get k race_arms) (race_key c) ∙ race_arm_of c

class_key : (c : Class) → name_key (class_as_str c) ≡ class_as_str c
unfolding class_as_str name_key trim trim_start_matches trim_end_matches is_whitespace
    to_ascii_lowercase lower
class_key barbarian = refl
class_key bard = refl
class_key cleric = refl
class_key druid = refl
class_key fighter = refl
class_key monk = refl
class_key paladin = refl
class_key ranger = refl
class_key rogue = refl
class_key sorcerer = refl
class_key warlock = refl
class_key wizard = refl

pub class_parse-class_as_str : (c : Class) → class_parse (class_as_str c) ≡ some c
unfolding class_parse
class_parse-class_as_str c = ap (λ k. get k class_arms) (class_key c) ∙ class_arm_of c

sex_key : (c : Sex) → name_key (sex_as_str c) ≡ sex_as_str c
unfolding sex_as_str name_key trim trim_start_matches trim_end_matches is_whitespace
    to_ascii_lowercase lower
sex_key male = refl
sex_key female = refl
sex_key no_sex = refl
sex_key other_sex = refl

pub sex_parse-sex_as_str : (c : Sex) → sex_parse (sex_as_str c) ≡ some c
unfolding sex_parse
sex_parse-sex_as_str c = ap (λ k. get k sex_arms) (sex_key c) ∙ sex_arm_of c

pronoun_key : (c : PronounKey) → name_key (pronoun_as_str c) ≡ pronoun_as_str c
unfolding pronoun_as_str name_key trim trim_start_matches trim_end_matches is_whitespace
    to_ascii_lowercase lower
pronoun_key he = refl
pronoun_key she = refl
pronoun_key they = refl

pub pronoun_parse-pronoun_as_str : (c : PronounKey) → pronoun_parse (pronoun_as_str c) ≡ some c
unfolding pronoun_parse
pronoun_parse-pronoun_as_str c = ap (λ k. get k pronoun_arms) (pronoun_key c) ∙ pronoun_arm_of c
