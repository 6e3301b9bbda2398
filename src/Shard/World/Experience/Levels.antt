-- ===== src/Shard/World/Experience/Levels.antt =====
-- The loop over levels ends, and spends experience for levels and nothing else.
use slopmud.Prelude.{
  ℕ, zero, suc, ◌+◌, ◌-◌, ◌*◌, ◌^◌, ◌≤◌, ◌<◌, min, max, ◌≡◌, refl, ap, ◌∙◌, arith, leb,
  Option-cases, nat_eq, list_eq, if_intro,
}
use slopmud.Shard.World.{Character, add_u32}
use slopmud.Shard.World.Experience.{xp_needed_for_next, grow_points, level_up, level_loop, gain_xp}

-- The experience that the levels below cost.
abbrev pub spent : ℕ → ℕ
spent zero = 0
spent (suc l) = spent l + 10 * max l 1

-- Far from 2^32: levels cost less than that, and no counter saturates.
abbrev pub IsModest : Character → Type 0
IsModest c = (c.level + c.xp < 400000000) × (c.skill_points + c.xp < 400000000)

-- The points are not those of experience.
grow_points_lem : (level : ℕ) (c : Character) → (grow_points level c).skill_points ≡ c.skill_points
unfolding grow_points
grow_points_lem level c = ground (arith, Option-cases c.class)

no_wrap : (c : Character) → IsModest c → xp_needed_for_next c.level ≡ 10 * max c.level 1
unfolding xp_needed_for_next
no_wrap c m = omega (arith, m.0)

level_up-level : (c : Character) → IsModest c → (level_up c).level ≡ suc c.level
unfolding level_up add_u32
level_up-level c m = omega (arith, m.0)

level_up-xp : (c : Character) → IsModest c → (level_up c).xp ≡ c.xp - 10 * max c.level 1
unfolding level_up
level_up-xp c m = ap (λ (k : ℕ). c.xp - k) (no_wrap c m)

level_up-skill_points :
    (c : Character) → IsModest c → (level_up c).skill_points ≡ suc c.skill_points
unfolding level_up add_u32
level_up-skill_points c m = omega (arith, m.1)

-- What the loop promises of the character that it returns.
Levelled : Character → Character → Type 0
Levelled c d =
    (d.xp < xp_needed_for_next d.level)
    × (d.xp + spent d.level ≡ c.xp + spent c.level)
    × (d.skill_points + c.level ≡ c.skill_points + d.level)

one_turn :
    (c : Character)
    → IsModest c
    → 10 * max c.level 1 ≤ c.xp
    → IsModest (level_up c) × ((level_up c).xp + spent (level_up c).level ≡ c.xp + spent c.level)
one_turn c m pays =
    let l = level_up-level c m in
    let x = level_up-xp c m in
    let p = level_up-skill_points c m in
    let cost : spent (level_up c).level ≡ spent c.level + 10 * max c.level 1 = ap spent l in
    ((omega (arith, l, x, m.0, pays), omega (arith, p, x, m.1, pays)), omega (arith, x, cost, pays))

level_loop-Levelled : (n : ℕ) (c : Character) → c.xp ≤ n → IsModest c → Levelled c (level_loop n c)
unfolding level_loop Levelled
level_loop-Levelled zero c h m = (omega (arith, h, no_wrap c m), refl, refl)
level_loop-Levelled (suc n) c h m =
    if_intro (Levelled c) (leb (xp_needed_for_next c.level) c.xp) (level_loop n (level_up c)) c
      (λ b.
        let pays : 10 * max c.level 1 ≤ c.xp = ground (arith, b, no_wrap c m) in
        let turn = one_turn c m pays in
        let fewer : (level_up c).xp ≤ n = omega (arith, level_up-xp c m, h, pays) in
        let rest = level_loop-Levelled n (level_up c) fewer turn.0 in
        (
          rest.0,
          rest.1 ∙ turn.1,
          omega (arith, rest.2, level_up-level c m, level_up-skill_points c m),
        ))
      (λ b. (ground (arith, b), refl, refl))

-- A character that is far from the bounds of its counters: after experience is gained, it has less than
-- the next level costs; what it has and what its levels cost make up what they were, and the gain; and
-- it has one skill point more for each level more.
pub gain_xp-spent :
    (xp : ℕ) (c : Character)
    → IsModest (record c { xp = c.xp + xp })
    → ((gain_xp xp c).xp < xp_needed_for_next (gain_xp xp c).level)
      × ((gain_xp xp c).xp + spent (gain_xp xp c).level ≡ c.xp + xp + spent c.level)
      × ((gain_xp xp c).skill_points + c.level ≡ c.skill_points + (gain_xp xp c).level)
unfolding gain_xp add_u32 Levelled
gain_xp-spent xp c m =
    let sum : min (c.xp + xp) (2 ^ 32 - 1) ≡ c.xp + xp = omega (arith, m.0) in
    let more : Character = record c { xp = min (c.xp + xp) (2 ^ 32 - 1) } in
    let done =
      level_loop-Levelled more.xp more (omega arith)
        (omega (arith, sum, m.0), omega (arith, sum, m.1)) in
    (done.0, done.1 ∙ ap (λ (k : ℕ). k + spent c.level) sum, done.2)
