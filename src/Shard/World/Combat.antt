-- ===== src/Shard/World/Combat.antt =====
-- apps/shard_01/src/main.rs: how a fight starts: start_combat and party_assist_attackers, which call each
-- other, and can_pvp_ids; apply_stun. Recursion is on fuel; `none` is a run that it did not reach the end of.
use slopmud.Prelude.{
  ℕ, zero, suc, ◌+◌, ◌-◌, ◌*◌, ◌/◌, ◌%◌, ◌^◌, ◌≤◌, ◌<◌, min, max, ◌≡◌, refl, sym, ap, ap₂, ◌∙◌,
  subst, ◌≢◌, ◌↔◌, ◌⊎◌, inl, inr, Bool, true, false, not, ◌&&◌, ◌||◌, Option, none, some, List, [],
  ◌∷◌, ◌++◌, map, append-nil, append_assoc, arith, ltb, leb, ◌==◌, if◌then◌else◌, ==_iff,
  Bool-cases, Option-cases, Eq, ◌=?◌, =?_iff, =?_refl, nat_eq, list_eq, list_beq, list_beq_iff,
  length, get_elem?, take, drop, is_empty, any, all, concat, All, length-append, take-append-drop,
  length-take, length-drop, take_front, drop_front, take_all, take_front_of, drop_front_of,
  take-append_left, take_past, drop_past, get_elem?-front, get_elem?-append_left, All-append,
  All-left, reverse, reverse-append, reverse-reverse, filter, length-reverse, drop-append,
  drop-drop, drop_all, reverse-take, take_one, take_over, take_least, All-right, List-cases,
  All-filter, map_or, map_or_intro, if_intro,
}
use slopmud.Prelude.Text.{Text, text, starts_with}
use slopmud.Prelude.Map.{get, insert}
use slopmud.Prelude.Int.{pos, ltb_ℤ}
use slopmud.Shard.World.{
  World, Character, Party, BossState, combat_act, is_built, is_some, with_char, add_u64,
}
use slopmud.Shard.World.Events.{schedule_at_ms}
pub mod Start
pub mod Ending

unfoldable pub is_pvp_room : Text → Bool
unfolding starts_with
is_pvp_room room_id = starts_with room_id (text "arena.")

unfoldable pub may_fight : Character → Character → Bool
unfolding is_pvp_room is_built
may_fight att tgt =
    is_some att.controller
    && is_some tgt.controller
    && (att.room_id =? tgt.room_id)
    && is_pvp_room att.room_id
    && att.pvp_enabled
    && tgt.pvp_enabled
    && is_built att
    && is_built tgt
    && ltb_ℤ (pos 0) att.hp
    && ltb_ℤ (pos 0) tgt.hp

unfoldable pub can_pvp_ids : World → ℕ → ℕ → Bool
unfolding may_fight
can_pvp_ids w attacker_id target_id =
    not (attacker_id == target_id)
    && map_or false (λ (att : Character). map_or false (may_fight att) (get target_id w.chars))
        (get attacker_id w.chars)

unfoldable pub attacking : ℕ → ℕ → Character → Character
attacking now_ms target_id c = record c {
  combat = record c.combat { autoattack = true; target = some target_id; next_ready_ms = now_ms };
}

-- A character turns to its target, and its first blow is scheduled.
unfoldable pub turn_to : World → ℕ → ℕ → World
unfolding with_char attacking schedule_at_ms
turn_to w cid target_id =
    let turned : World = record w {
      chars = with_char cid (attacking w.now_ms target_id) w.chars;
    } in
    schedule_at_ms turned w.now_ms (combat_act cid)

-- A mob strikes back, and a player who may.
unfoldable pub retaliates : World → ℕ → ℕ → Bool
unfolding can_pvp_ids
retaliates w attacker_id target_id =
    map_or false
      (λ (t : Character). not (is_some t.controller) || can_pvp_ids w attacker_id target_id)
      (get target_id w.chars)

unfoldable pub engage : World → ℕ → ℕ → World
unfolding turn_to retaliates
engage w attacker_id target_id =
    let turned = turn_to w attacker_id target_id in
    if retaliates turned attacker_id target_id then turn_to turned target_id attacker_id else turned

-- A member of the party that joins in: with a session, assisting, in the room, and not fighting yet.
abbrev pub assists : World → ℕ → Text → ℕ → Bool
assists w attacker_id room mid =
    not (mid == attacker_id)
    && map_or false
        (λ (m : Character).
          is_some m.controller && m.autoassist && (m.room_id =? room) && not m.combat.autoattack)
        (get mid w.chars)

-- The loop over the members, with the call that starts a member's fight.
unfoldable pub assist_loop : (World → ℕ → Option World) → ℕ → Text → List ℕ → World → Option World
assist_loop call attacker_id room [] w = some w
assist_loop call attacker_id room (mid ∷ mids) w =
    if assists w attacker_id room mid
    then map_or none (assist_loop call attacker_id room mids) (call w mid)
    else assist_loop call attacker_id room mids w

unfoldable pub party_assist_attackers : (World → ℕ → Option World) → World → ℕ → Option World
unfolding assist_loop
party_assist_attackers call w attacker_id =
    map_or (some w)
      (λ (att : Character).
        map_or (some w)
          (λ pid.
            map_or (some w) (λ (p : Party). assist_loop call attacker_id att.room_id p.members w)
              (get pid w.parties))
          (get attacker_id w.party_of))
      (get attacker_id w.chars)

unfoldable pub start_combat : ℕ → World → ℕ → ℕ → Option World
unfolding engage party_assist_attackers
start_combat zero w attacker_id target_id = none
start_combat (suc n) w attacker_id target_id =
    map_or (some w)
      (λ (a : Character).
        party_assist_attackers (λ v mid. start_combat n v mid target_id)
          (engage w attacker_id target_id) attacker_id)
      (get attacker_id w.chars)

-- A stun is extended, never shortened, and breaks off a boss's spell.
unfoldable pub stun_boss : World → ℕ → World
unfolding add_u64
stun_boss w target_id =
    map_or w
      (λ (bs : BossState).
        if ltb w.now_ms bs.casting_until_ms
        then record w {
          bosses =
              insert target_id (record { casting_until_ms = 0; seq = add_u64 bs.seq 1 }) w.bosses;
        }
        else w)
      (get target_id w.bosses)

unfoldable pub stun : World → ℕ → ℕ → World
unfolding with_char stun_boss add_u64
stun w target_id stun_ms =
    let until : ℕ = add_u64 w.now_ms stun_ms in
    stun_boss
      (record w {
        chars =
            with_char target_id (λ c. record c { stunned_until_ms = max c.stunned_until_ms until })
              w.chars;
      })
      target_id

unfoldable pub apply_stun : World → ℕ → ℕ → ℕ → World
unfolding stun
apply_stun w attacker_id target_id stun_ms =
    if stun_ms == 0
    then w
    else map_or w
        (λ (att : Character).
          map_or w
            (λ (tgt : Character).
              if att.room_id =? tgt.room_id then stun w target_id stun_ms else w)
            (get target_id w.chars))
        (get attacker_id w.chars)
