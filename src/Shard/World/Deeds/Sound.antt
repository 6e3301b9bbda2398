-- ===== src/Shard/World/Deeds/Sound.antt =====
-- The worlds that deeds reach.
use slopmud.Prelude.{◌-◌, ◌^◌, ◌<◌, ◌≡◌, refl, sym, subst, [], arith, nat_eq, list_eq}
use slopmud.Shard.World.{World}
use slopmud.Shard.World.Deeds.{
  Deed, walk, warp, die, roam, spawn, appear, evacuate, enter, log_in, vanish, log_out, party,
  perform,
}
use slopmud.Shard.World.Deeds.Coming.{
  spawn_mob-Born, spawn_named_mob-IsSound, spawn_or_restore_character-IsSound,
}
use slopmud.Shard.World.Deeds.Going.{
  with_parties, parties_of, remove_char-IsSound, detach_session-IsSound,
}
use slopmud.Shard.World.Deeds.Moving.{send_to_graveyard-IsSound, wander-IsSound}
use slopmud.Shard.World.Life.{AreNew, IsSound}
use slopmud.Shard.World.Moves.Stand.{try_move-IsSound, teleport_to-IsSound}
use slopmud.Shard.World.Parties.Commands.{party_command}
use slopmud.Shard.World.Deeds.Running.{
  SameRooms, SameRooms-IsSound, evacuate_rooms_with_prefix-IsSound, enter_run-IsSound,
}
use slopmud.Shard.World.Parties.Kept.{party_command-HasParties}
use slopmud.Shard.World.Parties.Members.{IsParty, HasParties}
use slopmud.Shard.World.Places.{ArePlaced, IsPlaced}

-- Ids are numbers of 64 bits, and are not used up.
abbrev pub HasIds : World → Type 0
HasIds w = (w.next_char_id < 2 ^ 64 - 1) × (w.next_party_id < 2 ^ 64 - 1)

perform-IsSound : (w : World) (deed : Deed) → HasIds w → IsSound w → IsSound (perform w deed)
unfolding perform
perform-IsSound w (walk session token) ids h = try_move-IsSound w session token h
perform-IsSound w (warp session to verb) ids h = teleport_to-IsSound w session to verb h
perform-IsSound w (die cid) ids h = send_to_graveyard-IsSound w cid h
perform-IsSound w (roam mob_id) ids h = wander-IsSound w mob_id h
perform-IsSound w (spawn room_id token) ids h = spawn_named_mob-IsSound w ids.0 h room_id token
perform-IsSound w (appear room_id name) ids h = spawn_mob-Born w ids.0 h room_id name
perform-IsSound w (evacuate prefix to_room) ids h =
    evacuate_rooms_with_prefix-IsSound w prefix to_room h
perform-IsSound w (enter party_id start_room) ids h = enter_run-IsSound w party_id start_room h
perform-IsSound w (log_in session name principal capabilities is_bot race class sex pronouns) ids
      h =
    spawn_or_restore_character-IsSound w session name principal capabilities is_bot race class sex
      pronouns ids.0 h
perform-IsSound w (vanish cid) ids h = remove_char-IsSound w cid h
perform-IsSound w (log_out session) ids h = detach_session-IsSound w session h
perform-IsSound w (party cid cmd) ids h =
    let kept = party_command-HasParties w cid cmd ids.1 (parties_of w h) in
    with_parties (party_command w cid cmd).1 w kept.1 kept.0 h

-- `World::new` has no characters and no parties.
abbrev pub IsNew : World → Type 0
IsNew w = (w.chars ≡ []) × (w.occupants ≡ []) × (w.parties ≡ []) × (w.party_of ≡ [])

abbrev pub SameParties : World → World → Type 0
SameParties v w =
    (v.parties ≡ w.parties) × (v.party_of ≡ w.party_of) × (v.next_party_id ≡ w.next_party_id)

-- The worlds that come of a new one by deeds, and by other changes in between: of the clock, the events,
-- the rooms, the sessions, and of characters in all but their ids and rooms.
pub data Reached : World → Type 0 where
  started : (w : World) → IsNew w → Reached w
  next : (w : World) (deed : Deed) → HasIds w → Reached w → Reached (perform w deed)
  meanwhile : (v w : World) → SameRooms v w → SameParties v w → Reached w → Reached v

IsSound-started : (w : World) → IsNew w → IsSound w
unfolding IsSound IsPlaced ArePlaced HasParties IsParty AreNew
IsSound-started w e = (
  subst (λ chars. ArePlaced w.occupants chars) (sym e.0)
      (subst (λ occupants. ArePlaced occupants []) (sym e.1) (λ r cid. (refl, refl))),
  subst (λ parties. IsParty parties w.party_of w.next_party_id) (sym e.2)
      (subst (λ party_of. IsParty [] party_of w.next_party_id) (sym e.3)
        (λ cid pid k. absurd (ground (arith, k)), λ pid. refl, λ pid over. refl)),
  subst (AreNew w.next_char_id) (sym e.0) (λ cid over. refl),
)

same_parties : (v w : World) → SameParties v w → HasParties w → HasParties v
unfolding HasParties
same_parties v w e h =
    subst (λ next. IsParty v.parties v.party_of next) (sym e.2)
      (subst (λ party_of. IsParty v.parties party_of w.next_party_id) (sym e.1)
        (subst (λ parties. IsParty parties w.party_of w.next_party_id) (sym e.0) h))

-- In every world that comes of a new one by moves, teleports, deaths, wandering mobs, births, logins,
-- removals, logouts, the party commands that change parties, evacuations and entries of runs, and by
-- any changes in between that keep parties and the ids and rooms of characters: a character stands in
-- the set of the room that it says it is in and in no other, no set is empty, a character's party
-- exists and lists it, every party lists its leader, and the next ids are new. Ids are not used up.
pub Reached-IsSound : (w : World) → Reached w → IsSound w
Reached-IsSound _ (started w e) = IsSound-started w e
Reached-IsSound _ (next w deed ids r) = perform-IsSound w deed ids (Reached-IsSound w r)
Reached-IsSound _ (meanwhile v w rooms e r) =
    let h = Reached-IsSound w r in
    SameRooms-IsSound v w rooms (same_parties v w e (parties_of w h)) h
