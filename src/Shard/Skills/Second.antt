-- ===== src/Shard/Skills/Second.antt =====
-- apps/shard_01/src/main.rs: a part of ALL_SKILLS.
use slopmud.Prelude.{List, [], ◌∷◌, nat_eq, list_eq}
use slopmud.Prelude.Text.{text}
use slopmud.Prelude.Int.{pos}
use slopmud.Shard.Creature.{barbarian, bard, druid, monk, paladin, ranger, sorcerer, warlock}
use slopmud.Shard.Creature.Scores.{str_ability, dex_ability, wis_ability, cha_ability}
use slopmud.Shard.Skills.Def.{SkillDef, combat_target, damage}

abbrev pub ranger_skills : List SkillDef
ranger_skills =
    record {
      id = text "aimed_shot";
      display = text "Aimed Shot";
      aliases = text "aim" ∷ text "shot" ∷ [];
      classes = ranger ∷ [];
      cooldown_ms = 3200;
      cost_mana = pos 0;
      cost_stamina = pos 2;
      target = combat_target;
      effect = damage (pos 5) (pos 1) dex_ability;
      tags = text "martial" ∷ text "precision" ∷ [];
      description = text "Take a breath. Pick a spot. Release.";
      flavor = text "You line up a clean hit.";
    }
    ∷ record {
      id = text "thorn_whip";
      display = text "Thorn Whip";
      aliases = text "thorn" ∷ text "whip" ∷ [];
      classes = ranger ∷ [];
      cooldown_ms = 4200;
      cost_mana = pos 2;
      cost_stamina = pos 0;
      target = combat_target;
      effect = damage (pos 4) (pos 1) wis_ability;
      tags = text "nature" ∷ [];
      description = text "A lash of living vine and spite.";
      flavor = text "A thorny line snaps out and bites.";
    }
    ∷ []

abbrev pub paladin_skills : List SkillDef
paladin_skills =
    record {
      id = text "divine_smite";
      display = text "Divine Smite";
      aliases = text "dsmite" ∷ text "divine" ∷ text "smite" ∷ [];
      classes = paladin ∷ [];
      cooldown_ms = 4500;
      cost_mana = pos 2;
      cost_stamina = pos 2;
      target = combat_target;
      effect = damage (pos 6) (pos 1) str_ability;
      tags = text "holy" ∷ text "weapon" ∷ [];
      description = text "Spend faith and force together, all at once.";
      flavor = text "Your strike lands with a clean, ringing certainty.";
    }
    ∷ []

abbrev pub barbarian_skills : List SkillDef
barbarian_skills =
    record {
      id = text "rage_strike";
      display = text "Rage Strike";
      aliases = text "rage" ∷ text "rstrike" ∷ [];
      classes = barbarian ∷ [];
      cooldown_ms = 2800;
      cost_mana = pos 0;
      cost_stamina = pos 3;
      target = combat_target;
      effect = damage (pos 6) (pos 1) str_ability;
      tags = text "martial" ∷ [];
      description = text "A brutal hit powered by pure refusal.";
      flavor = text "You snarl and swing through the pain.";
    }
    ∷ []

abbrev pub bard_skills : List SkillDef
bard_skills =
    record {
      id = text "cutting_words";
      display = text "Cutting Words";
      aliases = text "cut" ∷ text "words" ∷ text "cw" ∷ [];
      classes = bard ∷ [];
      cooldown_ms = 3000;
      cost_mana = pos 3;
      cost_stamina = pos 0;
      target = combat_target;
      effect = damage (pos 4) (pos 1) cha_ability;
      tags = text "arcane" ∷ text "psychic" ∷ [];
      description = text "A line so sharp it draws blood anyway.";
      flavor = text "Your voice finds the crack in them.";
    }
    ∷ []

abbrev pub druid_skills : List SkillDef
druid_skills =
    record {
      id = text "sun_spark";
      display = text "Sun Spark";
      aliases = text "sun" ∷ text "spark" ∷ [];
      classes = druid ∷ [];
      cooldown_ms = 3000;
      cost_mana = pos 3;
      cost_stamina = pos 0;
      target = combat_target;
      effect = damage (pos 5) (pos 1) wis_ability;
      tags = text "nature" ∷ text "radiant" ∷ [];
      description = text "A brief flash of daylight that doesn't ask permission.";
      flavor = text "Light answers you, sharp and hot.";
    }
    ∷ []

abbrev pub warlock_skills : List SkillDef
warlock_skills =
    record {
      id = text "eldritch_blast";
      display = text "Eldritch Blast";
      aliases = text "blast" ∷ text "eb" ∷ text "eldritch" ∷ [];
      classes = warlock ∷ [];
      cooldown_ms = 2600;
      cost_mana = pos 3;
      cost_stamina = pos 0;
      target = combat_target;
      effect = damage (pos 5) (pos 1) cha_ability;
      tags = text "occult" ∷ text "force" ∷ [];
      description = text "The patron's answer to your anger.";
      flavor = text "Something old speaks through your hand.";
    }
    ∷ []

abbrev pub sorcerer_skills : List SkillDef
sorcerer_skills =
    record {
      id = text "fire_bolt";
      display = text "Fire Bolt";
      aliases = text "fire" ∷ text "bolt" ∷ text "fb" ∷ [];
      classes = sorcerer ∷ [];
      cooldown_ms = 2800;
      cost_mana = pos 3;
      cost_stamina = pos 0;
      target = combat_target;
      effect = damage (pos 5) (pos 1) cha_ability;
      tags = text "arcane" ∷ text "fire" ∷ [];
      description = text "A small piece of the sun, held badly.";
      flavor = text "Heat gathers and snaps forward.";
    }
    ∷ []

abbrev pub monk_skills : List SkillDef
monk_skills =
    record {
      id = text "flurry";
      display = text "Flurry";
      aliases = text "flurry" ∷ text "combo" ∷ [];
      classes = monk ∷ [];
      cooldown_ms = 3200;
      cost_mana = pos 0;
      cost_stamina = pos 3;
      target = combat_target;
      effect = damage (pos 5) (pos 1) dex_ability;
      tags = text "martial" ∷ [];
      description = text "A quick sequence of strikes before they can breathe.";
      flavor = text "Your hands move before your thoughts finish forming.";
    }
    ∷ []
