-- ===== src/Shard/World/Moves/Stand.antt =====
-- Whoever moves, the sets of occupants stay right.
use slopmud.Prelude.{
  ℕ, ◌≡◌, refl, ◌⊎◌, inl, inr, Bool, true, false, not, ◌&&◌, ◌||◌, Option, none, some, List, [],
  ◌∷◌, ◌++◌, arith, ◌==◌, if◌then◌else◌, Bool-cases, ◌=?◌, =?_refl, nat_eq, list_eq, All, filter,
  All-filter, map_or, map_or_intro, if_intro,
}
use slopmud.Prelude.Text.{Text, text}
use slopmud.Prelude.Map.{get}
use slopmud.Shard.Quests.Contracts.{q2_room_enter, crlf}
use slopmud.Shard.Rooms.{ExitDef, has_room, find_exit}
use slopmud.Shard.World.{World, Character, Party, is_some, active_char_id, with_char}
use slopmud.Shard.World.Places.{set_room, move_char, get-with_char}
use slopmud.Shard.World.Life.{IsSound, with_char-IsSound, move_char-IsSound, leave_room}
use slopmud.Shard.World.Moves.{
  Output, broadcast, reply, room_view, player, refusal, follows, followers_of, bring, enter_quest,
  take_exit, try_move, teleport_to,
}

-- The character is in one of two rooms.
abbrev InOneOf : Text → Text → World → ℕ → Type 0
InOneOf from to w mid =
    (c : Character) × (get mid w.chars ≡ some c) × ((c.room_id =? from) || (c.room_id =? to) ≡ true)

-- Moving one character to the second room leaves the others in one of the two.
move_char-InOneOf :
    (mid : ℕ) (from to : Text) (w : World) (ms : List ℕ)
    → InOneOf from to w mid
    → All (InOneOf from to w) ms
    → All (InOneOf from to (move_char mid from to w)) ms
unfolding move_char
move_char-InOneOf mid from to w [] h k = tt
move_char-InOneOf mid from to w (m ∷ ms) h k = (still, move_char-InOneOf mid from to w ms h k.1)
  where
    moved : Text → Character
    moved r = set_room r h.0

    at : ((m =? mid) ≡ true) ⊎ ((m =? mid) ≡ false) → InOneOf from to (move_char mid from to w) m
    at (inl e) = (
      moved to,
      ground (arith, e, get-with_char m mid (set_room to) h.0 w.chars h.1),
      ground (arith, =?_refl to, Bool-cases (to =? from)),
    )
    at (inr e) =
        (k.0.0, ground (arith, e, k.0.1, get-with_char m mid (set_room to) h.0 w.chars h.1), k.0.2)

    still : InOneOf from to (move_char mid from to w) m
    still = at (Bool-cases (m =? mid))

bring-IsSound :
    (ms : List ℕ) (from to leader : Text) (w : World)
    → All (InOneOf from to w) ms
    → IsSound w
    → IsSound (bring ms from to leader w).0
unfolding bring
bring-IsSound [] from to leader w k h = h
bring-IsSound (mid ∷ ms) from to leader w k h =
    let moved = move_char mid from to w in
    bring-IsSound ms from to leader moved (move_char-InOneOf mid from to w ms k.0 k.1)
      (move_char-IsSound mid k.0.0 from to w k.0.1 k.0.2 h)

follows-InOneOf :
    (w : World) (leader mid : ℕ) (from to : Text)
    → follows w leader from mid ≡ true
    → InOneOf from to w mid
follows-InOneOf w leader mid from to e = at (get mid w.chars) refl e
  where
    test : Option Character → Bool
    test o =
        not (mid == leader)
        && map_or false
            (λ (m : Character). is_some m.controller && (m.room_id =? from) && m.follow_leader) o

    at : (o : Option Character) → get mid w.chars ≡ o → test o ≡ true → InOneOf from to w mid
    at none k t = absurd (ground (arith, t))
    at (some c) k t = (c, k, ground (arith, t))

followers_of-InOneOf :
    (w : World) (cid : ℕ) (from to : Text) → All (InOneOf from to w) (followers_of w cid from)
unfolding followers_of
followers_of-InOneOf w cid from to =
    map_or_intro (All (InOneOf from to w)) [] of_party (get cid w.party_of) tt (λ pid e.
      map_or_intro (All (InOneOf from to w)) [] of_members (get pid w.parties) tt (λ p k.
        if_intro (All (InOneOf from to w)) (p.leader == cid) (filter (follows w cid from) p.members)
          []
          (λ b.
            All-filter (InOneOf from to w) (follows w cid from) p.members
              (λ mid t. follows-InOneOf w cid mid from to t))
          (λ b. tt)))
  where
    of_members : Party → List ℕ
    of_members p = if p.leader == cid then filter (follows w cid from) p.members else []

    of_party : ℕ → List ℕ
    of_party pid = map_or [] of_members (get pid w.parties)

enter_quest-IsSound :
    (cid : ℕ) (to : Text) (w : World) → IsSound w → IsSound (enter_quest cid to w).0
unfolding enter_quest
enter_quest-IsSound cid to w h =
    map_or_intro {B = World × Option Text} (λ r. IsSound r.0) (w, none) entered (get cid w.chars) h
      (λ c e.
        with_char-IsSound w cid (λ d. record d { quest = (q2_room_enter c.quest to).0 }) (λ d. refl)
          h)
  where
    entered : Character → World × Option Text
    entered c =
        let r = q2_room_enter c.quest to in
        (record w { chars = with_char cid (λ d. record d { quest = r.0 }) w.chars }, r.1)

-- The character that is played is a character of the world.
abbrev Here : World → Option (ℕ × Character) → Type 0
Here w none = Unit
Here w (some p) = get p.0 w.chars ≡ some p.1

player-Here : (w : World) (session : ℕ) → Here w (player w session)
player-Here w session =
    map_or_intro (Here w) none found (active_char_id w session) tt
      (λ cid e. map_or_intro (Here w) none (λ c. some (cid, c)) (get cid w.chars) tt (λ c k. k))
  where
    found : ℕ → Option (ℕ × Character)
    found cid = map_or none (λ (c : Character). some (cid, c)) (get cid w.chars)

take_exit-IsSound :
    (w : World) (session cid : ℕ) (c : Character) (ex : ExitDef)
    → get cid w.chars ≡ some c
    → IsSound w
    → IsSound (take_exit w session cid c ex).0
unfolding take_exit
take_exit-IsSound w session cid c ex e h =
    let from = c.room_id in
    let arrived : World = (enter_quest cid ex.to (move_char cid from ex.to w)).0 in
    bring-IsSound (followers_of arrived cid from) from ex.to c.name arrived
      (followers_of-InOneOf arrived cid from ex.to)
      (enter_quest-IsSound cid ex.to (move_char cid from ex.to w) (leave_room w cid c ex.to e h))

pub try_move-IsSound :
    (w : World) (session : ℕ) (token : Text) → IsSound w → IsSound (try_move w session token).1
unfolding try_move
try_move-IsSound w session token h = go (player w session) (player-Here w session)
  where
    exit : ℕ × Character → Option ExitDef
    exit p = find_exit w.rooms p.1.room_id token

    answer : ℕ × Character → ExitDef → Bool × World × List Output
    answer p ex =
        map_or (true, (take_exit w session p.0 p.1 ex).0, (take_exit w session p.0 p.1 ex).1)
          (λ msg. (true, w, reply session msg ∷ [])) (refusal w p.1 ex)

    Sound : Bool × World × List Output → Type 0
    Sound r = IsSound r.1

    go :
        (o : Option (ℕ × Character))
        → Here w o
        → Sound (map_or (false, w, []) (λ p. map_or (false, w, []) (answer p) (exit p)) o)
    go none k = h
    go (some p) k =
        map_or_intro Sound (false, w, []) (answer p) (exit p) h
          (λ ex e.
            map_or_intro Sound
              (true, (take_exit w session p.0 p.1 ex).0, (take_exit w session p.0 p.1 ex).1)
              (λ msg. (true, w, reply session msg ∷ [])) (refusal w p.1 ex)
              (take_exit-IsSound w session p.0 p.1 ex k h) (λ msg m. h))

pub teleport_to-IsSound :
    (w : World) (session : ℕ) (to verb : Text)
    → IsSound w
    → IsSound (teleport_to w session to verb).0
unfolding teleport_to
teleport_to-IsSound w session to verb h = go (player w session) (player-Here w session)
  where
    answer : ℕ × Character → World × List Output
    answer p =
        if has_room w.rooms to
        then (
          move_char p.0 p.1.room_id to w,
          broadcast p.1.room_id (text "* " ++ p.1.name ++ text " " ++ verb)
              ∷ room_view session to
              ∷ [],
        )
        else (w, reply session (text "huh? (destination room not found)" ++ crlf) ∷ [])

    Sound : World × List Output → Type 0
    Sound r = IsSound r.0

    go : (o : Option (ℕ × Character)) → Here w o → Sound (map_or (w, []) answer o)
    go none k = h
    go (some p) k =
        if_intro Sound (has_room w.rooms to)
          (
            move_char p.0 p.1.room_id to w,
            broadcast p.1.room_id (text "* " ++ p.1.name ++ text " " ++ verb)
                ∷ room_view session to
                ∷ [],
          )
          (w, reply session (text "huh? (destination room not found)" ++ crlf) ∷ [])
          (λ b. leave_room w p.0 p.1 to k h) (λ b. h)
