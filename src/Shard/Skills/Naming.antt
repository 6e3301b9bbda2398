-- ===== src/Shard/Skills/Naming.antt =====
-- What a player may type for a skill.
use slopmud.Prelude.{◌≡◌, refl, some, List, ◌∷◌, nat_eq, list_eq, All}
use slopmud.Prelude.Text.{
  Text, name_key, trim, trim_start_matches, trim_end_matches, is_whitespace, to_ascii_lowercase,
  lower,
}
use slopmud.Shard.Creature.{class_as_str}
use slopmud.Shard.Skills.Def.{SkillDef}
use slopmud.Shard.Skills.{all_skills, skill_has_class, is_named, find_skill_for_class}

-- What a player may type for a skill, but for spaces and case.
unfoldable names : SkillDef → List Text
unfolding to_ascii_lowercase
names s = s.id ∷ to_ascii_lowercase s.display ∷ s.aliases

-- The name finds the skill, for every class that has it.
pub IsFound : SkillDef → Type 0
IsFound s =
    All (λ class. All (λ name. find_skill_for_class class name ≡ some s) (names s)) s.classes

-- For each class, the id of each of its skills, the name in lower case and every alias find that skill,
-- and not another one of the class.
pub find_skill_for_class-names : All IsFound all_skills
unfolding IsFound names find_skill_for_class skill_has_class is_named class_as_str name_key trim
    trim_start_matches trim_end_matches is_whitespace to_ascii_lowercase lower
find_skill_for_class-names = (
  ((refl, (refl, (refl, (refl, (refl, tt))))), tt),
  (
    ((refl, (refl, (refl, (refl, tt)))), tt),
    (
      ((refl, (refl, (refl, (refl, (refl, tt))))), tt),
      (
        ((refl, (refl, (refl, (refl, (refl, tt))))), tt),
        (
          ((refl, (refl, (refl, (refl, tt)))), tt),
          (
            ((refl, (refl, (refl, (refl, (refl, tt))))), tt),
            (
              (
                (refl, (refl, (refl, (refl, (refl, tt))))),
                (
                  (refl, (refl, (refl, (refl, (refl, tt))))),
                  ((refl, (refl, (refl, (refl, (refl, tt))))), tt),
                ),
              ),
              (
                ((refl, (refl, (refl, (refl, tt)))), tt),
                (
                  ((refl, (refl, (refl, (refl, tt)))), tt),
                  (
                    ((refl, (refl, (refl, (refl, tt)))), tt),
                    (
                      ((refl, (refl, (refl, (refl, tt)))), tt),
                      (
                        ((refl, (refl, (refl, (refl, (refl, tt))))), tt),
                        (
                          ((refl, (refl, (refl, (refl, tt)))), tt),
                          (
                            ((refl, (refl, (refl, (refl, (refl, tt))))), tt),
                            (
                              ((refl, (refl, (refl, (refl, tt)))), tt),
                              (
                                ((refl, (refl, (refl, (refl, (refl, tt))))), tt),
                                (
                                  ((refl, (refl, (refl, (refl, (refl, tt))))), tt),
                                  (
                                    ((refl, (refl, (refl, (refl, tt)))), tt),
                                    (
                                      ((refl, (refl, (refl, (refl, tt)))), tt),
                                      (
                                        ((refl, (refl, (refl, (refl, tt)))), tt),
                                        (
                                          ((refl, (refl, (refl, (refl, tt)))), tt),
                                          (
                                            ((refl, (refl, (refl, (refl, tt)))), tt),
                                            (
                                              ((refl, (refl, (refl, (refl, tt)))), tt),
                                              (((refl, (refl, (refl, (refl, tt)))), tt), tt),
                                            ),
                                          ),
                                        ),
                                      ),
                                    ),
                                  ),
                                ),
                              ),
                            ),
                          ),
                        ),
                      ),
                    ),
                  ),
                ),
              ),
            ),
          ),
        ),
      ),
    ),
  ),
)
