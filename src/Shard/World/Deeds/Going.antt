-- ===== src/Shard/World/Deeds/Going.antt =====
-- Characters that leave the world, and party commands, keep it sound.
use slopmud.Prelude.{
  ℕ, sym, subst, Option, none, some, List, [], ◌∷◌, nat_eq, list_eq, map_or_intro,
}
use slopmud.Prelude.Map.{get, insert, remove}
use slopmud.Shard.World.{World, Character, SessionState, PlayerSnapshot}
use slopmud.Shard.World.Departures.{
  unparty, take_away, remove_char, detach_char, detach_chars, detach_session,
}
use slopmud.Shard.World.Life.{AreNew, IsSound, take_away-IsSound}
use slopmud.Shard.World.Parties.{party_leave}
use slopmud.Shard.World.Parties.Members.{HasParties}
use slopmud.Shard.World.Parties.Ops.{party_leave-HasParties}
use slopmud.Shard.World.Parties.Frame.{SamePeople, party_leave-SamePeople}
use slopmud.Shard.World.Places.{IsPlaced, ArePlaced}
use slopmud.Shard.World.Snapshots.{from_character, remember_player}

pub with_parties : (v w : World) → SamePeople v w → HasParties v → IsSound w → IsSound v
unfolding IsSound IsPlaced
with_parties v w same p h = (
  subst (λ chars. ArePlaced v.occupants chars) (sym same.0)
      (subst (λ occupants. ArePlaced occupants w.chars) (sym same.1) h.0),
  p,
  subst (λ chars. AreNew v.next_char_id chars) (sym same.0)
      (subst (λ next. AreNew next w.chars) (sym same.2) h.2),
)

pub parties_of : (w : World) → IsSound w → HasParties w
unfolding IsSound
parties_of w h = h.1

unparty-IsSound : (w : World) (cid : ℕ) → IsSound w → IsSound (unparty w cid)
unfolding unparty IsSound IsPlaced HasParties
unparty-IsSound w cid h =
    let v : World = record w { party_invites = remove cid w.party_invites } in
    with_parties (party_leave v cid) v (party_leave-SamePeople v cid)
      (party_leave-HasParties v cid h.1) h

remember_player-IsSound : (w : World) (c : Character) → IsSound w → IsSound (remember_player w c)
unfolding remember_player IsSound IsPlaced HasParties
remember_player-IsSound w c h =
    map_or_intro IsSound w
      (λ (s : PlayerSnapshot). record w { players = insert s.principal s w.players })
      (from_character c) h (λ s e. h)

pub remove_char-IsSound : (w : World) (cid : ℕ) → IsSound w → IsSound (remove_char w cid).1
unfolding remove_char
remove_char-IsSound w cid h =
    let out = unparty w cid in
    map_or_intro {B = Option Character × World} (λ r. IsSound r.1) (none, out)
      (λ c. (some c, take_away out cid c)) (get cid out.chars) (unparty-IsSound w cid h)
      (λ c e. take_away-IsSound out cid c e (unparty-IsSound w cid h))

detach_char-IsSound : (w : World) (cid : ℕ) → IsSound w → IsSound (detach_char w cid).1
unfolding detach_char
detach_char-IsSound w cid h =
    let out = unparty w cid in
    map_or_intro {B = Option Character × World} (λ r. IsSound r.1) (none, out)
      (λ c. (some c, remember_player (take_away out cid c) c)) (get cid out.chars)
      (unparty-IsSound w cid h)
      (λ c e.
        remember_player-IsSound (take_away out cid c) c
          (take_away-IsSound out cid c e (unparty-IsSound w cid h)))

detach_chars-IsSound : (w : World) (cids : List ℕ) → IsSound w → IsSound (detach_chars w cids).1
unfolding detach_chars
detach_chars-IsSound w [] h = h
detach_chars-IsSound w (cid ∷ cids) h =
    detach_chars-IsSound (detach_char w cid).1 cids (detach_char-IsSound w cid h)

pub detach_session-IsSound :
    (w : World) (session : ℕ) → IsSound w → IsSound (detach_session w session).1
unfolding detach_session IsSound IsPlaced HasParties
detach_session-IsSound w session h =
    map_or_intro {B = List Character × World} (λ r. IsSound r.1) ([], w)
      (λ (ss : SessionState).
        detach_chars (record w { sessions = remove session w.sessions }) ss.controlled)
      (get session w.sessions) h
      (λ ss e.
        detach_chars-IsSound (record w { sessions = remove session w.sessions }) ss.controlled h)
