-- ===== src/Shard/Creature.antt =====
-- apps/shard_01/src/main.rs: what a character is: race, sex, pronouns and class, with the names that
-- players type, and items::Size of apps/shard_01/src/items.rs. `None` of Sex is `no_sex`.
pub mod Names
pub mod Scores
use slopmud.Prelude.{
  ℕ, zero, suc, ◌+◌, ◌-◌, ◌*◌, ◌/◌, ◌%◌, ◌^◌, ◌≤◌, ◌<◌, min, max, ◌≡◌, refl, sym, ap, ap₂, ◌∙◌,
  subst, ◌≢◌, ◌↔◌, ◌⊎◌, inl, inr, Bool, true, false, not, ◌&&◌, ◌||◌, Option, none, some, List, [],
  ◌∷◌, ◌++◌, map, append-nil, append_assoc, arith, ltb, leb, ◌==◌, if◌then◌else◌, ==_iff,
  Bool-cases, Option-cases, Eq, ◌=?◌, =?_iff, =?_refl, nat_eq, list_eq, list_beq, list_beq_iff,
  length, get_elem?, take, drop, is_empty, any, all, concat, All, length-append, take-append-drop,
  length-take, length-drop, take_front, drop_front, take_all, take_front_of, drop_front_of,
  take-append_left, take_past, drop_past, get_elem?-front, get_elem?-append_left, All-append,
  All-left, reverse, reverse-append, reverse-reverse, filter, length-reverse, drop-append,
  drop-drop, drop_all, reverse-take, take_one, take_over, take_least, All-right,
}
use slopmud.Prelude.Text.{Text, text, name_key}
use slopmud.Prelude.Map.{get}

pub data Size : Type 0 where
  small : Size
  medium : Size
  large : Size

pub data Race : Type 0 where
  dragonborn : Race
  dwarf : Race
  elf : Race
  gnome : Race
  goliath : Race
  halfling : Race
  human : Race
  orc : Race
  tiefling : Race

abbrev pub all_races : List Race
all_races = dragonborn ∷ dwarf ∷ elf ∷ gnome ∷ goliath ∷ halfling ∷ human ∷ orc ∷ tiefling ∷ []

unfoldable pub race_as_str : Race → Text
race_as_str dragonborn = text "dragonborn"
race_as_str dwarf = text "dwarf"
race_as_str elf = text "elf"
race_as_str gnome = text "gnome"
race_as_str goliath = text "goliath"
race_as_str halfling = text "halfling"
race_as_str human = text "human"
race_as_str orc = text "orc"
race_as_str tiefling = text "tiefling"

-- The arms of the parsers.
abbrev pub race_arms : List (Text × Race)
race_arms =
    (text "dragonborn", dragonborn)
    ∷ (text "dwarf", dwarf)
    ∷ (text "elf", elf)
    ∷ (text "gnome", gnome)
    ∷ (text "goliath", goliath)
    ∷ (text "halfling", halfling)
    ∷ (text "human", human)
    ∷ (text "orc", orc)
    ∷ (text "tiefling", tiefling)
    ∷ []

unfoldable pub race_parse : Text → Option Race
race_parse s = get (name_key s) race_arms

unfoldable pub size : Race → Size
size dragonborn = medium
size dwarf = medium
size elf = medium
size gnome = small
size goliath = medium
size halfling = small
size human = medium
size orc = medium
size tiefling = medium

pub data Sex : Type 0 where
  male : Sex
  female : Sex
  no_sex : Sex
  other_sex : Sex

unfoldable pub sex_as_str : Sex → Text
sex_as_str male = text "male"
sex_as_str female = text "female"
sex_as_str no_sex = text "none"
sex_as_str other_sex = text "other"

abbrev pub sex_arms : List (Text × Sex)
sex_arms =
    (text "male", male)
    ∷ (text "female", female)
    ∷ (text "none", no_sex)
    ∷ (text "other", other_sex)
    ∷ []

unfoldable pub sex_parse : Text → Option Sex
sex_parse s = get (name_key s) sex_arms

pub data PronounKey : Type 0 where
  he : PronounKey
  she : PronounKey
  they : PronounKey

unfoldable pub pronoun_as_str : PronounKey → Text
pronoun_as_str he = text "he"
pronoun_as_str she = text "she"
pronoun_as_str they = text "they"

abbrev pub pronoun_arms : List (Text × PronounKey)
pronoun_arms =
    (text "he", he)
    ∷ (text "him", he)
    ∷ (text "she", she)
    ∷ (text "her", she)
    ∷ (text "they", they)
    ∷ (text "them", they)
    ∷ []

unfoldable pub pronoun_parse : Text → Option PronounKey
pronoun_parse s = get (name_key s) pronoun_arms

unfoldable pub default_for_sex : Sex → PronounKey
default_for_sex male = he
default_for_sex female = she
default_for_sex no_sex = they
default_for_sex other_sex = they

pub data Class : Type 0 where
  barbarian : Class
  bard : Class
  cleric : Class
  druid : Class
  fighter : Class
  monk : Class
  paladin : Class
  ranger : Class
  rogue : Class
  sorcerer : Class
  warlock : Class
  wizard : Class

abbrev pub all_classes : List Class
all_classes =
    barbarian ∷ bard ∷ cleric ∷ druid ∷ fighter ∷ monk ∷ paladin ∷ ranger ∷ rogue ∷ sorcerer
    ∷ warlock ∷ wizard ∷ []

unfoldable pub class_as_str : Class → Text
class_as_str barbarian = text "barbarian"
class_as_str bard = text "bard"
class_as_str cleric = text "cleric"
class_as_str druid = text "druid"
class_as_str fighter = text "fighter"
class_as_str monk = text "monk"
class_as_str paladin = text "paladin"
class_as_str ranger = text "ranger"
class_as_str rogue = text "rogue"
class_as_str sorcerer = text "sorcerer"
class_as_str warlock = text "warlock"
class_as_str wizard = text "wizard"

abbrev pub class_arms : List (Text × Class)
class_arms =
    (text "barbarian", barbarian)
    ∷ (text "bard", bard)
    ∷ (text "cleric", cleric)
    ∷ (text "druid", druid)
    ∷ (text "fighter", fighter)
    ∷ (text "monk", monk)
    ∷ (text "paladin", paladin)
    ∷ (text "ranger", ranger)
    ∷ (text "rogue", rogue)
    ∷ (text "sorcerer", sorcerer)
    ∷ (text "warlock", warlock)
    ∷ (text "wizard", wizard)
    ∷ []

unfoldable pub class_parse : Text → Option Class
class_parse s = get (name_key s) class_arms
