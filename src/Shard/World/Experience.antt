-- ===== src/Shard/World/Experience.antt =====
-- apps/shard_01/src/main.rs: award_xp, which splits experience among the members of a party who are there,
-- and award_xp_one with its loop over levels. The lines that are printed are left out.
use slopmud.Prelude.{
  ℕ, zero, suc, ◌+◌, ◌-◌, ◌*◌, ◌/◌, ◌%◌, ◌^◌, ◌≤◌, ◌<◌, min, max, ◌≡◌, refl, sym, ap, ap₂, ◌∙◌,
  subst, ◌≢◌, ◌↔◌, ◌⊎◌, inl, inr, Bool, true, false, not, ◌&&◌, ◌||◌, Option, none, some, List, [],
  ◌∷◌, ◌++◌, map, append-nil, append_assoc, arith, ltb, leb, ◌==◌, if◌then◌else◌, ==_iff,
  Bool-cases, Option-cases, Eq, ◌=?◌, =?_iff, =?_refl, nat_eq, list_eq, list_beq, list_beq_iff,
  length, get_elem?, take, drop, is_empty, any, all, concat, All, length-append, take-append-drop,
  length-take, length-drop, take_front, drop_front, take_all, take_front_of, drop_front_of,
  take-append_left, take_past, drop_past, get_elem?-front, get_elem?-append_left, All-append,
  All-left, reverse, reverse-append, reverse-reverse, filter, length-reverse, drop-append,
  drop-drop, drop_all, reverse-take, take_one, take_over, take_least, All-right, List-cases,
  All-filter, map_or, map_or_intro, if_intro,
}
use slopmud.Prelude.Map.{get, insert}
use slopmud.Prelude.Int.{ℤ, pos, ◌+ℤ◌, ltb_ℤ, min_ℤ, max_ℤ}
use slopmud.Shard.Creature.Scores.{wrap_i32, compute_max_mana, compute_max_stamina}
use slopmud.Shard.World.{World, Character, Party, is_some, with_char, add_u32}
pub mod Levels
pub mod Shares

-- A 32-bit product, which wraps.
unfoldable pub xp_needed_for_next : ℕ → ℕ
xp_needed_for_next level = 10 * max level 1 % 2 ^ 32

-- What a level changes of the points: hit points are filled up, mana and stamina kept within bounds.
unfoldable pub grow_points : ℕ → Character → Character
unfolding compute_max_mana compute_max_stamina wrap_i32 ◌+ℤ◌
grow_points level c =
    let max_hp = max_ℤ (wrap_i32 (c.max_hp +ℤ pos 2)) (pos 1) in
    let healed : Character = record c { max_hp = max_hp; hp = max_hp } in
    map_or healed
      (λ class.
        let max_mana = max_ℤ (compute_max_mana class c.stats level) (pos 0) in
        let max_stamina = max_ℤ (compute_max_stamina class c.stats level) (pos 0) in
        record healed {
          max_mana = max_mana;
          mana = max_ℤ (min_ℤ c.mana max_mana) (pos 0);
          max_stamina = max_stamina;
          stamina = max_ℤ (min_ℤ c.stamina max_stamina) (pos 0);
        })
      c.class

-- One turn of the loop.
unfoldable pub level_up : Character → Character
unfolding xp_needed_for_next grow_points add_u32
level_up c = record (grow_points (add_u32 c.level 1) c) {
  xp = c.xp - xp_needed_for_next c.level;
  level = add_u32 c.level 1;
  skill_points = add_u32 c.skill_points 1;
}

-- `while c.xp >= xp_needed_for_next(c.level)`, on fuel.
unfoldable pub level_loop : ℕ → Character → Character
unfolding xp_needed_for_next level_up
level_loop zero c = c
level_loop (suc n) c =
    let rest = level_loop n (level_up c) in
    if leb (xp_needed_for_next c.level) c.xp then rest else c

-- Each turn takes at least one point, so as much fuel as points is enough.
unfoldable pub gain_xp : ℕ → Character → Character
unfolding level_loop add_u32
gain_xp xp c = let more : Character = record c { xp = add_u32 c.xp xp } in level_loop more.xp more

unfoldable pub award_xp_one : World → ℕ → ℕ → World
unfolding with_char gain_xp
award_xp_one w cid xp = record w { chars = with_char cid (gain_xp xp) w.chars }

-- The members of the party with a session, in the same room and alive.
abbrev pub eligible : World → Character → ℕ → Bool
eligible w att mid =
    map_or false
      (λ (m : Character). is_some m.controller && (m.room_id =? att.room_id) && ltb_ℤ (pos 0) m.hp)
      (get mid w.chars)

-- The first gets what the division leaves over.
unfoldable pub shares : ℕ → List ℕ → List (ℕ × ℕ)
shares xp [] = []
shares xp (first ∷ rest) =
    let n : ℕ = length (first ∷ rest) in (first, xp / n + xp % n) ∷ map (λ mid. (mid, xp / n)) rest

unfoldable pub award_all : World → List (ℕ × ℕ) → World
unfolding award_xp_one
award_all w [] = w
award_all w ((mid, add) ∷ rest) = award_all (award_xp_one w mid add) rest

unfoldable pub award_party : World → ℕ → ℕ → List ℕ → World
unfolding award_xp_one award_all shares
award_party w cid xp elig =
    if leb (length elig) 1 then award_xp_one w cid xp else award_all w (shares xp elig)

unfoldable pub award_xp : World → ℕ → ℕ → World
unfolding award_xp_one award_party
award_xp w cid xp =
    map_or (award_xp_one w cid xp)
      (λ pid.
        map_or w
          (λ (att : Character).
            award_party w cid xp
              (filter (eligible w att) (map_or [] (λ (p : Party). p.members) (get pid w.parties))))
          (get cid w.chars))
      (get cid w.party_of)
