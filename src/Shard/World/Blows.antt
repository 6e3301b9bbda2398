-- ===== src/Shard/World/Blows.antt =====
-- apps/shard_01/src/main.rs: apply_damage_to_mob and apply_damage_to_player. The answer says whether the
-- target died; then come the world and what is sent. The lines of award_xp are left out.
pub mod Standing
use slopmud.Prelude.{
  ℕ, ◌+◌, ◌-◌, ◌*◌, ◌/◌, ◌%◌, ◌^◌, Bool, true, false, not, ◌&&◌, Option, none, some, List, [], ◌∷◌,
  ◌++◌, ltb, leb, ◌==◌, if◌then◌else◌, ◌=?◌, nat_eq, list_eq, map_or,
}
use slopmud.Prelude.Text.{Text, text}
use slopmud.Prelude.Map.{get, remove}
use slopmud.Prelude.Int.{ℤ, pos, ◌-ℤ◌, ltb_ℤ}
use slopmud.Shard.Quests.Contracts.{crlf}
use slopmud.Shard.Creature.Scores.{wrap_i32}
use slopmud.Shard.World.{World, Character, is_some, with_char, ensure_first_fight_worm}
use slopmud.Shard.World.Events.{schedule_at_ms}
use slopmud.Shard.World.Inventory.{inv_add}
use slopmud.Shard.World.Departures.{remove_char}
use slopmud.Shard.World.Experience.{award_xp}
use slopmud.Shard.World.Moves.{Output, broadcast, reply, send_to_graveyard}

-- `t.hp -= dmg`
unfoldable pub hurt : ℤ → Character → Character
hurt dmg c = record c { hp = wrap_i32 (c.hp -ℤ dmg) }

unfoldable pub is_down : Character → Bool
is_down c = not (ltb_ℤ (pos 0) c.hp)

abbrev pub strike : World → ℕ → ℤ → World
strike w target_id dmg = record w { chars = with_char target_id (hurt dmg) w.chars }

abbrev pub dies : Character → Text
dies c = text "* " ++ c.name ++ text " dies."

-- Both are there, in one room, and the target fits.
abbrev pub meet :
    World
    → ℕ
    → ℕ
    → (Character → Bool)
    → (Character → Character → Bool × World × List Output)
    → Bool × World × List Output
meet w attacker_id target_id fits blow =
    map_or (false, w, [])
      (λ (att : Character).
        map_or (false, w, [])
          (λ (tgt : Character).
            if fits tgt && (att.room_id =? tgt.room_id) then blow att tgt else (false, w, []))
          (get target_id w.chars))
      (get attacker_id w.chars)

unfoldable pub loot : World → ℕ → Character → World × List Output
loot w attacker_id att =
    let richer = award_xp (inv_add w attacker_id (text "stenchpouch") 1) attacker_id 10 in
    (
      schedule_at_ms richer richer.now_ms ensure_first_fight_worm,
      map_or [] (λ sid. reply sid (text "you loot a stenchpouch." ++ crlf) ∷ []) att.controller,
    )

-- A mob that is removed, with its fight as a boss.
unfoldable pub bury : ℕ → ℕ → Character → Option Character × World → Bool × World × List Output
bury attacker_id target_id att (none, out) = (true, out, [])
bury attacker_id target_id att (some dead, out) =
    let gone : World = record out { bosses = remove target_id out.bosses } in
    let looted = loot gone attacker_id att in
    let last : Output = broadcast att.room_id (dies dead) in
    if dead.name =? text "stenchworm"
    then (true, looted.0, last ∷ looted.1)
    else (true, gone, last ∷ [])

-- The line of the blow in front of what follows.
abbrev pub told : Output → Bool × World × List Output → Bool × World × List Output
told line r = (r.0, r.1, line ∷ r.2)

unfoldable pub apply_damage_to_mob : World → ℕ → ℕ → ℤ → Text → Bool × World × List Output
apply_damage_to_mob w attacker_id target_id dmg msg =
    meet w attacker_id target_id (λ tgt. not (is_some tgt.controller))
      (λ att tgt.
        let hit : World = strike w target_id dmg in
        told (broadcast att.room_id msg) (
          if is_down (hurt dmg tgt)
          then bury attacker_id target_id att (remove_char hit target_id)
          else (false, hit, [])))

unfoldable pub apply_damage_to_player : World → ℕ → ℕ → ℤ → Text → Bool × World × List Output
apply_damage_to_player w attacker_id target_id dmg msg =
    meet w attacker_id target_id (λ tgt. is_some tgt.controller)
      (λ att tgt.
        let hit : World = strike w target_id dmg in
        told (broadcast att.room_id msg) (
          if is_down (hurt dmg tgt)
          then (
            true,
            (send_to_graveyard hit target_id).0,
            broadcast att.room_id (dies tgt) ∷ (send_to_graveyard hit target_id).1,
          )
          else (false, hit, [])))
