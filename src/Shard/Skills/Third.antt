-- ===== src/Shard/Skills/Third.antt =====
-- apps/shard_01/src/main.rs: a part of ALL_SKILLS.
use slopmud.Prelude.{List, [], ◌∷◌, nat_eq, list_eq}
use slopmud.Prelude.Text.{text}
use slopmud.Prelude.Int.{pos}
use slopmud.Shard.Creature.{druid, fighter, paladin, rogue, warlock, wizard}
use slopmud.Shard.Creature.Scores.{dex_ability, con_ability, int_ability, wis_ability, cha_ability}
use slopmud.Shard.Skills.Def.{SkillDef, combat_target, self_only, damage, heal}

abbrev pub more_fighter_skills : List SkillDef
more_fighter_skills =
    record {
      id = text "second_wind";
      display = text "Second Wind";
      aliases = text "wind" ∷ text "second" ∷ [];
      classes = fighter ∷ [];
      cooldown_ms = 8000;
      cost_mana = pos 0;
      cost_stamina = pos 0;
      target = self_only;
      effect = heal (pos 4) (pos 2) con_ability;
      tags = text "martial" ∷ text "heal" ∷ [];
      description = text "A practiced breath that buys you another moment.";
      flavor = text "You steady yourself and push on.";
    }
    ∷ []

abbrev pub more_rogue_skills : List SkillDef
more_rogue_skills =
    record {
      id = text "shadow_step";
      display = text "Shadow Step";
      aliases = text "shadow" ∷ text "step" ∷ [];
      classes = rogue ∷ [];
      cooldown_ms = 9000;
      cost_mana = pos 0;
      cost_stamina = pos 2;
      target = combat_target;
      effect = damage (pos 5) (pos 1) dex_ability;
      tags = text "martial" ∷ text "mobility" ∷ [];
      description = text "You move like the room blinked.";
      flavor = text "You appear where they weren't watching.";
    }
    ∷ []

abbrev pub more_wizard_skills : List SkillDef
more_wizard_skills =
    record {
      id = text "arcane_pulse";
      display = text "Arcane Pulse";
      aliases = text "pulse" ∷ text "ap" ∷ [];
      classes = wizard ∷ [];
      cooldown_ms = 7000;
      cost_mana = pos 6;
      cost_stamina = pos 0;
      target = combat_target;
      effect = damage (pos 7) (pos 1) int_ability;
      tags = text "arcane" ∷ [];
      description = text "A thick wave of pressure that shoves the world back.";
      flavor = text "The air snaps like a sheet.";
    }
    ∷ []

abbrev pub more_paladin_skills : List SkillDef
more_paladin_skills =
    record {
      id = text "prayer_of_steel";
      display = text "Prayer of Steel";
      aliases = text "steel" ∷ text "prayer" ∷ [];
      classes = paladin ∷ [];
      cooldown_ms = 7000;
      cost_mana = pos 4;
      cost_stamina = pos 0;
      target = self_only;
      effect = heal (pos 4) (pos 2) wis_ability;
      tags = text "holy" ∷ text "heal" ∷ [];
      description = text "A short vow that closes wounds by sheer insistence.";
      flavor = text "You speak a vow and feel it bind.";
    }
    ∷ []

abbrev pub more_druid_skills : List SkillDef
more_druid_skills =
    record {
      id = text "nature_touch";
      display = text "Nature's Touch";
      aliases = text "touch" ∷ text "nature" ∷ [];
      classes = druid ∷ [];
      cooldown_ms = 6500;
      cost_mana = pos 5;
      cost_stamina = pos 0;
      target = self_only;
      effect = heal (pos 5) (pos 2) wis_ability;
      tags = text "nature" ∷ text "heal" ∷ [];
      description = text "A green breath that pulls you back from the edge.";
      flavor = text "You smell rain and leaf-mold. You live.";
    }
    ∷ []

abbrev pub more_warlock_skills : List SkillDef
more_warlock_skills =
    record {
      id = text "hex";
      display = text "Hex";
      aliases = text "hex" ∷ text "curse" ∷ [];
      classes = warlock ∷ [];
      cooldown_ms = 6000;
      cost_mana = pos 4;
      cost_stamina = pos 0;
      target = combat_target;
      effect = damage (pos 6) (pos 1) cha_ability;
      tags = text "occult" ∷ [];
      description = text "A small curse with a long memory.";
      flavor = text "You whisper something the world shouldn't hear.";
    }
    ∷ []
