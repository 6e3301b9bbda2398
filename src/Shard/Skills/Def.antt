-- ===== src/Shard/Skills/Def.antt =====
-- apps/shard_01/src/main.rs: what a skill is.
use slopmud.Prelude.{ℕ, List, nat_eq, list_eq}
use slopmud.Prelude.Text.{Text}
use slopmud.Prelude.Int.{ℤ}
use slopmud.Shard.Creature.{Class}
use slopmud.Shard.Creature.Scores.{Ability}

pub data SkillTarget : Type 0 where
  combat_target : SkillTarget
  self_only : SkillTarget

-- A base, so much for each rank, and the ability that adds to it.
pub data SkillEffect : Type 0 where
  damage : ℤ → ℤ → Ability → SkillEffect
  heal : ℤ → ℤ → Ability → SkillEffect

pub record SkillDef : Type 0 where
  pub id : Text
  pub display : Text
  pub aliases : List Text
  pub classes : List Class
  pub cooldown_ms : ℕ
  pub cost_mana : ℤ
  pub cost_stamina : ℤ
  pub target : SkillTarget
  pub effect : SkillEffect
  pub tags : List Text
  pub description : Text
  pub flavor : Text
