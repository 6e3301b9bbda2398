-- ===== src/Shard/World/Moves.antt =====
-- apps/shard_01/src/main.rs: characters that change rooms: try_move with the followers of a party's
-- leader, teleport_to, send_to_graveyard and MobWander. What is sent is part of the result: a line to a
-- room or to a session, and the description of a room. Writes are taken to succeed.
pub mod Stand
use slopmud.Prelude.{
  ℕ, zero, suc, ◌+◌, ◌-◌, ◌*◌, ◌/◌, ◌%◌, ◌^◌, ◌≤◌, ◌<◌, min, max, ◌≡◌, refl, sym, ap, ap₂, ◌∙◌,
  subst, ◌≢◌, ◌↔◌, ◌⊎◌, inl, inr, Bool, true, false, not, ◌&&◌, ◌||◌, Option, none, some, List, [],
  ◌∷◌, ◌++◌, map, append-nil, append_assoc, arith, ltb, leb, ◌==◌, if◌then◌else◌, ==_iff,
  Bool-cases, Option-cases, Eq, ◌=?◌, =?_iff, =?_refl, nat_eq, list_eq, list_beq, list_beq_iff,
  length, get_elem?, take, drop, is_empty, any, all, concat, All, length-append, take-append-drop,
  length-take, length-drop, take_front, drop_front, take_all, take_front_of, drop_front_of,
  take-append_left, take_past, drop_past, get_elem?-front, get_elem?-append_left, All-append,
  All-left, reverse, reverse-append, reverse-reverse, filter, length-reverse, drop-append,
  drop-drop, drop_all, reverse-take, take_one, take_over, take_least, All-right, List-cases, map_or,
  map_or_intro, if_intro,
}
use slopmud.Prelude.Text.{Text, text, trim}
use slopmud.Prelude.Map.{get}
use slopmud.Prelude.Int.{pos, max_ℤ}
use slopmud.Shard.Quests.{eval_gate_expr}
use slopmud.Shard.Quests.Contracts.{q2_room_enter, crlf}
use slopmud.Shard.Rooms.{Rooms, ExitDef, has_room, find_exit, exits_raw}
use slopmud.Shard.World.{
  World, Character, Party, mob_wander, is_built, is_some, active_char_id, with_char,
}
use slopmud.Shard.World.Events.{schedule_in_ms}
use slopmud.Shard.World.Dice.{next_u64}
use slopmud.Shard.World.Places.{move_char}

pub data Output : Type 0 where
  broadcast : Text → Text → Output
  reply : ℕ → Text → Output
  room_view : ℕ → Text → Output

abbrev pub orientation : Text
orientation = text "R_NS_ORIENT_01"

abbrev pub graveyard : Text
graveyard = text "R_TOWN_GRAVEYARD_01"

abbrev pub sealed_exit_msg : Text
sealed_exit_msg =
    text "the way is sealed. you can feel the world beyond, but gaia is not ready yet." ++ crlf

-- The character that the session plays.
abbrev pub player : World → ℕ → Option (ℕ × Character)
player w session =
    map_or none (λ cid. map_or none (λ (c : Character). some (cid, c)) (get cid w.chars))
      (active_char_id w session)

-- Why an exit is not taken, if it is not.
unfoldable pub refusal : World → Character → ExitDef → Option Text
unfolding is_built eval_gate_expr has_room
refusal w c ex =
    if not (is_built c) && (c.room_id =? orientation)
    then some (text "trainer: finish setup first (race/class)" ++ crlf)
    else if not (is_built c) && not (ex.to =? orientation)
    then some (text "finish setup first: return to orientation (race/class)" ++ crlf)
    else if not (map_or true (eval_gate_expr c.quest) ex.gate)
    then some (
        map_or sealed_exit_msg (λ g. text "the way is sealed. (gate: " ++ g ++ text ")" ++ crlf)
          ex.gate)
    else if (ex.sealed && not (is_some ex.gate)) || not (has_room w.rooms ex.to)
    then some sealed_exit_msg
    else none

-- The members that go with the leader: with a session, in the same room, and following.
abbrev pub follows : World → ℕ → Text → ℕ → Bool
follows w leader from mid =
    not (mid == leader)
    && map_or false
        (λ (m : Character). is_some m.controller && (m.room_id =? from) && m.follow_leader)
        (get mid w.chars)

unfoldable pub followers_of : World → ℕ → Text → List ℕ
followers_of w cid from =
    map_or []
      (λ pid.
        map_or []
          (λ (p : Party). if p.leader == cid then filter (follows w cid from) p.members else [])
          (get pid w.parties))
      (get cid w.party_of)

abbrev pub name_of : World → ℕ → Text
name_of w cid = map_or (text "someone") (λ (c : Character). c.name) (get cid w.chars)

abbrev pub session_of : World → ℕ → Option ℕ
session_of w cid = map_or none (λ (c : Character). c.controller) (get cid w.chars)

unfoldable pub bring : List ℕ → Text → Text → Text → World → World × List Output
unfolding move_char
bring [] from to leader w = (w, [])
bring (mid ∷ mids) from to leader w =
    let moved = move_char mid from to w in
    let rest = bring mids from to leader moved in
    let seen : List Output =
      map_or []
        (λ sid.
          broadcast from (text "* " ++ name_of w mid ++ text " follows " ++ leader ++ text ".")
          ∷ broadcast to
              (text "* " ++ name_of w mid ++ text " arrives, following " ++ leader ++ text ".")
          ∷ room_view sid to
          ∷ [])
        (session_of w mid) in
    (rest.0, seen ++ rest.1)

unfoldable pub enter_quest : ℕ → Text → World → World × Option Text
unfolding with_char q2_room_enter
enter_quest cid to w =
    map_or (w, none)
      (λ (c : Character).
        let r = q2_room_enter c.quest to in
        (record w { chars = with_char cid (λ d. record d { quest = r.0 }) w.chars }, r.1))
      (get cid w.chars)

unfoldable pub take_exit : World → ℕ → ℕ → Character → ExitDef → World × List Output
unfolding move_char enter_quest followers_of bring
take_exit w session cid c ex =
    let from = c.room_id in
    let arrived = enter_quest cid ex.to (move_char cid from ex.to w) in
    let rest = bring (followers_of arrived.0 cid from) from ex.to c.name arrived.0 in
    (
      rest.0,
      broadcast from (text "* " ++ c.name ++ text " goes " ++ ex.dir)
            ∷ broadcast ex.to (text "* " ++ c.name ++ text " arrives")
            ∷ room_view session ex.to
            ∷ map_or [] (λ msg. reply session msg ∷ []) arrived.1
          ++ rest.1,
    )

-- Whether the token named an exit, what is sent, and the world after it.
unfoldable pub try_move : World → ℕ → Text → Bool × World × List Output
unfolding find_exit refusal take_exit
try_move w session token =
    map_or (false, w, [])
      (λ (p : ℕ × Character).
        map_or (false, w, [])
          (λ (ex : ExitDef).
            map_or (true, (take_exit w session p.0 p.1 ex).0, (take_exit w session p.0 p.1 ex).1)
              (λ msg. (true, w, reply session msg ∷ [])) (refusal w p.1 ex))
          (find_exit w.rooms p.1.room_id token))
      (player w session)

unfoldable pub teleport_to : World → ℕ → Text → Text → World × List Output
unfolding has_room move_char
teleport_to w session to verb =
    map_or (w, [])
      (λ (p : ℕ × Character).
        if has_room w.rooms to
        then (
          move_char p.0 p.1.room_id to w,
          broadcast p.1.room_id (text "* " ++ p.1.name ++ text " " ++ verb)
              ∷ room_view session to
              ∷ [],
        )
        else (w, reply session (text "huh? (destination room not found)" ++ crlf) ∷ []))
      (player w session)

abbrev pub revived : Character → Character
revived c = record c {
  hp = max_ℤ c.max_hp (pos 1);
  combat = record c.combat { autoattack = false; target = none };
}

-- The bytes of the second line are the source's: it escapes its backslashes.
unfoldable pub send_to_graveyard : World → ℕ → World × List Output
unfolding has_room move_char with_char
send_to_graveyard w cid =
    map_or (w, [])
      (λ (c : Character).
        let to : Text = if has_room w.rooms graveyard then graveyard else w.rooms.start_room in
        let moved = move_char cid c.room_id to w in
        (
          record moved { chars = with_char cid revived moved.chars },
          broadcast to (text "* " ++ c.name ++ text " arrives, shivering.")
              ∷ map_or [] (λ sid. reply sid (text "you died.\\r\\n") ∷ room_view sid to ∷ [])
                  c.controller,
        ))
      (get cid w.chars)

-- The generator after a draw.
abbrev pub drawn : World → World
unfolding next_u64
drawn w = record w { rng = (next_u64 w.rng).1 }

-- MobWander.
unfoldable pub wander : World → ℕ → World
unfolding exits_raw has_room move_char schedule_in_ms next_u64
wander w mob_id =
    map_or w
      (λ (m : Character).
        if is_some m.controller
        then w
        else let exits =
            filter (λ (e : ExitDef). has_room w.rooms e.to) (exits_raw w.rooms m.room_id) in
          map_or (schedule_in_ms w w.mob_wander_ms (mob_wander mob_id))
            (λ (ex : ExitDef).
              schedule_in_ms (move_char mob_id m.room_id ex.to (drawn w)) w.mob_wander_ms
                (mob_wander mob_id))
            (get_elem? exits ((next_u64 w.rng).0 % length exits)))
      (get mob_id w.chars)
