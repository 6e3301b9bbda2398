-- ===== src/Shard/World/Deeds/Running.antt =====
-- The runs of parties, and changes of characters that keep their rooms.
use slopmud.Prelude.{
  ℕ, ◌≡◌, refl, sym, ap, ◌∙◌, subst, true, false, not, ◌&&◌, ◌||◌, Option, none, some, List, [],
  ◌∷◌, ◌++◌, map, filter, arith, if◌then◌else◌, nat_eq, list_eq, ◌=?◌, =?_iff, =?_refl, map_or,
  map_or_intro, if_intro,
}
use slopmud.Prelude.Text.{Text, text, starts_with}
use slopmud.Prelude.Map.{get, remove, get-remove}
use slopmud.Prelude.Buckets.{mem, put_in, in_bucket, has_empty, in_bucket-put_in, has_empty-put_in}
use slopmud.Shard.World.{World, Character, Party, with_char}
use slopmud.Shard.World.Parties.Members.{HasParties}
use slopmud.Shard.World.Places.{
  set_room, move_char, lives_in, ArePlaced, IsPlaced, lives_in-set_room,
}
use slopmud.Shard.World.Life.{IsSound, AreNew, with_char-AreNew, leave_room}
use slopmud.Shard.World.Runs.{
  rehouse, rehouse_all, evacuate_room, evacuate_rooms, evacuate_rooms_with_prefix, enter_all,
  enter_run,
}

-- While a room is emptied: those still to be moved say that they are in it, or are where they go, and its
-- set does not have them.
IsEmptied : List ℕ → Text → Text → World → Type 0
IsEmptied pending rid to w =
    ((r : Text) (d : ℕ)
      → (in_bucket r d w.occupants ≡ (lives_in r d w.chars && not ((r =? rid) && mem d pending)))
        × (has_empty r w.occupants ≡ false))
    × ((d : ℕ) → mem d pending ≡ true → (lives_in rid d w.chars || lives_in to d w.chars) ≡ true)
    × HasParties w
    × AreNew w.next_char_id w.chars

rehouse-IsEmptied :
    (cid : ℕ) (cids : List ℕ) (rid to : Text) (w : World)
    → mem cid cids ≡ false
    → IsEmptied (cid ∷ cids) rid to w
    → IsEmptied cids rid to (rehouse cid to w)
unfolding IsEmptied rehouse HasParties
rehouse-IsEmptied cid cids rid to w once h = at (get cid w.chars) refl
  where
    moved : Character → World
    moved c = record w {
      chars = with_char cid (set_room to) w.chars;
      occupants = put_in to cid w.occupants;
    }

    at : (o : Option Character) → get cid w.chars ≡ o → IsEmptied cids rid to (map_or w moved o)
    at none e = (
      λ r d. (
        ground (arith, e, (h.0 r d).0, =?_iff d cid, ap (λ i. lives_in r i w.chars)),
        (h.0 r d).1,
      ),
      λ d k. ground (arith, k, h.1 d, =?_iff d cid),
      h.2,
      h.3,
    )
    at (some c) e = (
      λ r d. (
        ground (
          arith,
          once,
          e,
          in_bucket-put_in r d to cid w.occupants,
          lives_in-set_room r to d cid c w.chars e,
          (h.0 r d).0,
          h.1 cid,
          =?_refl cid,
          =?_iff d cid,
          =?_iff r to,
          =?_iff r rid,
          =?_iff rid c.room_id,
          =?_iff to c.room_id,
          =?_iff r c.room_id,
          ap (λ i. mem i cids),
        ),
        has_empty-put_in r to cid w.occupants (h.0 r d).1,
      ),
      λ d k. ground (
        arith,
        k,
        h.1 d,
        lives_in-set_room rid to d cid c w.chars e,
        lives_in-set_room to to d cid c w.chars e,
        =?_refl to,
        =?_iff d cid,
      ),
      h.2,
      with_char-AreNew w.next_char_id cid (set_room to) w.chars h.3,
    )

-- Whom the set had twice is still to be moved.
seen-IsEmptied :
    (cid : ℕ) (cids : List ℕ) (rid to : Text) (w : World)
    → mem cid cids ≡ true
    → IsEmptied (cid ∷ cids) rid to w
    → IsEmptied cids rid to w
unfolding IsEmptied
seen-IsEmptied cid cids rid to w twice h = (
  λ r d. (ground (arith, twice, (h.0 r d).0, =?_iff d cid, ap (λ i. mem i cids)), (h.0 r d).1),
  λ d k. ground (arith, k, h.1 d, =?_iff d cid),
  h.2,
  h.3,
)

rehouse_all-IsSound :
    (cids : List ℕ) (rid to : Text) (w : World)
    → IsEmptied cids rid to w
    → IsSound (rehouse_all cids to w)
unfolding rehouse_all IsEmptied IsSound IsPlaced ArePlaced
rehouse_all-IsSound [] rid to w h = (λ r d. (ground (arith, (h.0 r d).0), (h.0 r d).1), h.2, h.3)
rehouse_all-IsSound (cid ∷ cids) rid to w h =
    rehouse_all-IsSound cids rid to (if mem cid cids then w else rehouse cid to w) (
      if_intro (IsEmptied cids rid to) (mem cid cids) w (rehouse cid to w)
        (λ b. seen-IsEmptied cid cids rid to w b h) (λ b. rehouse-IsEmptied cid cids rid to w b h))

evacuate_room-IsSound :
    (to : Text) (w : World) (rid : Text) → IsSound w → IsSound (evacuate_room to w rid)
unfolding evacuate_room IsEmptied IsSound IsPlaced ArePlaced HasParties
evacuate_room-IsSound to w rid h = map_or_intro IsSound w emptied (get rid w.occupants) h (λ cids e.
    rehouse_all-IsSound cids rid to (record w { occupants = remove rid w.occupants })
      (
        λ r d. (
          ground (
            arith,
            e,
            get-remove r rid w.occupants,
            (h.0 r d).0,
            =?_iff r rid,
            ap (λ k. get k w.occupants),
          ),
          ground (arith, get-remove r rid w.occupants, (h.0 r d).1),
        ),
        λ d k. ground (arith, k, e, (h.0 rid d).0),
        h.1,
        h.2,
      ))
  where
    emptied : List ℕ → World
    emptied cids = rehouse_all cids to (record w { occupants = remove rid w.occupants })

evacuate_rooms-IsSound :
    (to : Text) (rids : List Text) (w : World) → IsSound w → IsSound (evacuate_rooms to rids w)
unfolding evacuate_rooms
evacuate_rooms-IsSound to [] w h = h
evacuate_rooms-IsSound to (rid ∷ rids) w h =
    evacuate_rooms-IsSound to rids (evacuate_room to w rid) (evacuate_room-IsSound to w rid h)

pub evacuate_rooms_with_prefix-IsSound :
    (w : World) (prefix to_room : Text)
    → IsSound w
    → IsSound (evacuate_rooms_with_prefix w prefix to_room)
unfolding evacuate_rooms_with_prefix
evacuate_rooms_with_prefix-IsSound w prefix to_room h =
    let ids : List Text = map (λ (p : Text × List ℕ). p.0) w.occupants in
    evacuate_rooms-IsSound to_room (filter (λ id. starts_with id (prefix ++ text ".")) ids) w h

enter_all-IsSound :
    (mids : List ℕ) (to : Text) (w : World) → IsSound w → IsSound (enter_all mids to w)
unfolding enter_all
enter_all-IsSound [] to w h = h
enter_all-IsSound (mid ∷ mids) to w h =
    enter_all-IsSound mids to
      (map_or w (λ (c : Character). move_char mid c.room_id to w) (get mid w.chars))
      (map_or_intro IsSound w (λ (c : Character). move_char mid c.room_id to w) (get mid w.chars) h
        (λ c e. leave_room w mid c to e h))

pub enter_run-IsSound :
    (w : World) (party_id : ℕ) (start_room : Text)
    → IsSound w
    → IsSound (enter_run w party_id start_room)
unfolding enter_run
enter_run-IsSound w party_id start_room h =
    enter_all-IsSound (map_or [] (λ (p : Party). p.members) (get party_id w.parties)) start_room w h

-- The room of a character, if there is the character.
abbrev pub room_of : ℕ → World → Option Text
room_of cid w = map_or none (λ (c : Character). some c.room_id) (get cid w.chars)

-- The same characters in the same rooms, whatever else of them changes.
abbrev pub SameRooms : World → World → Type 0
SameRooms v w =
    ((cid : ℕ) → room_of cid v ≡ room_of cid w)
    × (v.occupants ≡ w.occupants)
    × (v.next_char_id ≡ w.next_char_id)

pub SameRooms-IsSound : (v w : World) → SameRooms v w → HasParties v → IsSound w → IsSound v
unfolding IsSound IsPlaced ArePlaced AreNew
SameRooms-IsSound v w same parties h = (
  subst (λ o. ArePlaced o v.chars) (sym same.1)
      (λ r d. ((h.0 r d).0 ∙ lives r d (get d v.chars) (get d w.chars) (same.0 d), (h.0 r d).1)),
  parties,
  λ d over. gone (get d v.chars) (get d w.chars) (same.0 d) (h.2 d (omega (arith, over, same.2))),
)
  where
    lives :
        (r : Text) (d : ℕ) (o p : Option Character)
        → map_or none (λ (c : Character). some c.room_id) o
          ≡ map_or none (λ (c : Character). some c.room_id) p
        → elim p [ none ↦ false | some c ↦ r =? c.room_id ]
          ≡ elim o [ none ↦ false | some c ↦ r =? c.room_id ]
    lives r d none none e = refl
    lives r d none (some c) e = absurd (ground (arith, e))
    lives r d (some c) none e = absurd (ground (arith, e))
    lives r d (some c) (some b) e = ground (arith, e)

    gone :
        (o p : Option Character)
        → map_or none (λ (c : Character). some c.room_id) o
          ≡ map_or none (λ (c : Character). some c.room_id) p
        → p ≡ none
        → o ≡ none
    gone none p e k = refl
    gone (some c) none e k = absurd (ground (arith, e))
    gone (some c) (some b) e k = absurd (ground (arith, k))
