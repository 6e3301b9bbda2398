-- ===== src/Shard/Skills/First.antt =====
-- apps/shard_01/src/main.rs: a part of ALL_SKILLS.
use slopmud.Prelude.{List, [], ◌∷◌, nat_eq, list_eq}
use slopmud.Prelude.Text.{text}
use slopmud.Prelude.Int.{pos}
use slopmud.Shard.Creature.{cleric, druid, fighter, paladin, rogue, wizard}
use slopmud.Shard.Creature.Scores.{str_ability, dex_ability, int_ability, wis_ability}
use slopmud.Shard.Skills.Def.{SkillDef, combat_target, self_only, damage, heal}

abbrev pub fighter_skills : List SkillDef
fighter_skills =
    record {
      id = text "power_strike";
      display = text "Power Strike";
      aliases = text "power" ∷ text "strike" ∷ text "powerstrike" ∷ [];
      classes = fighter ∷ [];
      cooldown_ms = 3000;
      cost_mana = pos 0;
      cost_stamina = pos 2;
      target = combat_target;
      effect = damage (pos 5) (pos 1) str_ability;
      tags = text "martial" ∷ text "weapon" ∷ [];
      description = text "A heavy weapon blow that rewards committing to the fight.";
      flavor = text "You put your whole weight behind the swing.";
    }
    ∷ record {
      id = text "shield_bash";
      display = text "Shield Bash";
      aliases = text "bash" ∷ text "shield" ∷ [];
      classes = fighter ∷ [];
      cooldown_ms = 4500;
      cost_mana = pos 0;
      cost_stamina = pos 3;
      target = combat_target;
      effect = damage (pos 4) (pos 1) str_ability;
      tags = text "martial" ∷ text "control" ∷ [];
      description = text "A blunt slam meant to rattle your target.";
      flavor = text "You drive your shield forward like a battering ram.";
    }
    ∷ []

abbrev pub wizard_skills : List SkillDef
wizard_skills =
    record {
      id = text "magic_missile";
      display = text "Magic Missile";
      aliases = text "missile" ∷ text "mm" ∷ text "magic" ∷ [];
      classes = wizard ∷ [];
      cooldown_ms = 2500;
      cost_mana = pos 3;
      cost_stamina = pos 0;
      target = combat_target;
      effect = damage (pos 4) (pos 1) int_ability;
      tags = text "arcane" ∷ text "bolt" ∷ [];
      description = text "A reliable arcane dart.";
      flavor = text "A bright dart snaps from your fingertips.";
    }
    ∷ record {
      id = text "frost_bolt";
      display = text "Frost Bolt";
      aliases = text "frost" ∷ text "ice" ∷ text "bolt" ∷ [];
      classes = wizard ∷ [];
      cooldown_ms = 3200;
      cost_mana = pos 4;
      cost_stamina = pos 0;
      target = combat_target;
      effect = damage (pos 5) (pos 1) int_ability;
      tags = text "arcane" ∷ text "cold" ∷ [];
      description = text "A shard of cold that bites into muscle and breath.";
      flavor = text "Cold gathers, then lashes out in a tight line.";
    }
    ∷ []

abbrev pub rogue_skills : List SkillDef
rogue_skills =
    record {
      id = text "backstab";
      display = text "Backstab";
      aliases = text "stab" ∷ text "back" ∷ [];
      classes = rogue ∷ [];
      cooldown_ms = 4000;
      cost_mana = pos 0;
      cost_stamina = pos 3;
      target = combat_target;
      effect = damage (pos 6) (pos 1) dex_ability;
      tags = text "martial" ∷ text "precision" ∷ [];
      description = text "A precise strike aimed at something vital.";
      flavor = text "You slide in low and strike where it hurts.";
    }
    ∷ record {
      id = text "dirty_trick";
      display = text "Dirty Trick";
      aliases = text "dirt" ∷ text "trick" ∷ text "pocket" ∷ [];
      classes = rogue ∷ [];
      cooldown_ms = 3500;
      cost_mana = pos 0;
      cost_stamina = pos 2;
      target = combat_target;
      effect = damage (pos 4) (pos 1) dex_ability;
      tags = text "martial" ∷ text "control" ∷ [];
      description = text "Pocket sand, elbows, and opportunism.";
      flavor = text "You fight like nobody is watching.";
    }
    ∷ []

abbrev pub healer_skills : List SkillDef
healer_skills =
    record {
      id = text "heal";
      display = text "Heal";
      aliases = text "healing" ∷ text "mend" ∷ text "restore" ∷ [];
      classes = cleric ∷ druid ∷ paladin ∷ [];
      cooldown_ms = 5000;
      cost_mana = pos 5;
      cost_stamina = pos 0;
      target = self_only;
      effect = heal (pos 5) (pos 2) wis_ability;
      tags = text "holy" ∷ text "nature" ∷ [];
      description = text "A simple restoration for keeping yourself standing.";
      flavor = text "Warmth settles into your bones.";
    }
    ∷ []

abbrev pub cleric_skills : List SkillDef
cleric_skills =
    record {
      id = text "smite";
      display = text "Smite";
      aliases = text "smite" ∷ text "holy" ∷ [];
      classes = cleric ∷ [];
      cooldown_ms = 3500;
      cost_mana = pos 3;
      cost_stamina = pos 0;
      target = combat_target;
      effect = damage (pos 5) (pos 1) wis_ability;
      tags = text "holy" ∷ text "radiant" ∷ [];
      description = text "A burst of sanctified force.";
      flavor = text "A harsh light flares and judges your enemy.";
    }
    ∷ record {
      id = text "holy_bolt";
      display = text "Holy Bolt";
      aliases = text "bolt" ∷ text "holybolt" ∷ [];
      classes = cleric ∷ [];
      cooldown_ms = 2800;
      cost_mana = pos 2;
      cost_stamina = pos 0;
      target = combat_target;
      effect = damage (pos 4) (pos 1) wis_ability;
      tags = text "holy" ∷ text "bolt" ∷ [];
      description = text "A quick prayer that hits like a thrown stone.";
      flavor = text "Your words harden into a brief, bright impact.";
    }
    ∷ []
