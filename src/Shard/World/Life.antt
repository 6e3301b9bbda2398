-- ===== src/Shard/World/Life.antt =====
-- When a world is sound, and what each step does to that.
use slopmud.Prelude.{
  ℕ, ◌-◌, ◌^◌, ◌≤◌, ◌<◌, ◌≡◌, refl, ap, true, ◌||◌, Option, none, some, List, arith, ◌=?◌, =?_iff,
  =?_refl, nat_eq, list_eq,
}
use slopmud.Prelude.Text.{Text}
use slopmud.Prelude.Map.{get, insert, get-insert, get-remove}
use slopmud.Prelude.Buckets.{
  in_bucket, in_bucket-put_in, in_bucket-take_out, has_empty-put_in, has_empty-take_out,
}
use slopmud.Shard.World.{World, Character, with_char, add_u64}
use slopmud.Shard.World.Parties.Members.{HasParties}
use slopmud.Shard.World.Births.{settle}
use slopmud.Shard.World.Departures.{take_away}
use slopmud.Shard.World.Places.{
  ArePlaced, IsPlaced, move_char, set_room, move_char-IsPlaced, with_char-ArePlaced,
}

-- Ids that were not given out name no character.
unfoldable pub AreNew : ℕ → List (ℕ × Character) → Type 0
AreNew next chars = (cid : ℕ) → next ≤ cid → get cid chars ≡ none

unfoldable pub IsSound : World → Type 0
IsSound w = IsPlaced w × HasParties w × AreNew w.next_char_id w.chars

pub with_char-AreNew :
    (next cid : ℕ) (f : Character → Character) (chars : List (ℕ × Character))
    → AreNew next chars
    → AreNew next (with_char cid f chars)
unfolding AreNew with_char
with_char-AreNew next cid f chars h d over = at (get cid chars) refl
  where
    at :
        (o : Option Character)
        → get cid chars ≡ o
        → get d (elim o [ none ↦ chars | some c ↦ insert cid (f c) chars ]) ≡ none
    at none e = h d over
    at (some c) e =
        ground
          (arith, e, h d over, get-insert d cid (f c) chars, =?_iff d cid, ap (λ i. get i chars))

-- A character comes into the world under a new id.
settle-IsPlaced :
    (w : World) (make : ℕ → Character)
    → AreNew w.next_char_id w.chars
    → IsPlaced w
    → IsPlaced (settle w make)
unfolding settle IsPlaced ArePlaced AreNew
settle-IsPlaced w make new h r d =
    let cid = w.next_char_id in
    let room = (make cid).room_id in
    (
      ground (
        arith,
        (h r d).0,
        in_bucket-put_in r d room cid w.occupants,
        new cid (omega arith),
        get-insert d cid (make cid) w.chars,
        =?_iff d cid,
        =?_iff r room,
      ),
      has_empty-put_in r room cid w.occupants (h r d).1,
    )

settle-AreNew :
    (w : World) (make : ℕ → Character)
    → w.next_char_id < 2 ^ 64 - 1
    → AreNew w.next_char_id w.chars
    → AreNew (settle w make).next_char_id (settle w make).chars
unfolding settle AreNew add_u64
settle-AreNew w make small new d over = ground (
  arith,
  over,
  small,
  new d,
  get-insert d w.next_char_id (make w.next_char_id) w.chars,
  =?_iff d w.next_char_id,
)

-- A character is taken out of the world, and of its room.
take_away-IsPlaced :
    (w : World) (cid : ℕ) (c : Character)
    → get cid w.chars ≡ some c
    → IsPlaced w
    → IsPlaced (take_away w cid c)
unfolding take_away IsPlaced ArePlaced
take_away-IsPlaced w cid c e h r d = (
  ground (
    arith,
    e,
    (h r d).0,
    (h r cid).0,
    in_bucket-take_out r d c.room_id cid w.occupants,
    get-remove d cid w.chars,
    =?_iff d cid,
    ap (λ i. in_bucket r i w.occupants),
  ),
  has_empty-take_out r c.room_id cid w.occupants (h r d).1,
)

take_away-AreNew :
    (w : World) (cid : ℕ) (c : Character)
    → AreNew w.next_char_id w.chars
    → AreNew w.next_char_id (take_away w cid c).chars
unfolding take_away AreNew
take_away-AreNew w cid c new d over = ground (arith, over, new d, get-remove d cid w.chars)

-- A change of a character that keeps its room.
pub with_char-IsSound :
    (w : World) (cid : ℕ) (f : Character → Character)
    → ((c : Character) → (f c).room_id ≡ c.room_id)
    → IsSound w
    → IsSound (record w { chars = with_char cid f w.chars })
unfolding IsSound IsPlaced HasParties
with_char-IsSound w cid f same h = (
  with_char-ArePlaced cid f w.occupants w.chars same h.0,
  h.1,
  with_char-AreNew w.next_char_id cid f w.chars h.2,
)

pub move_char-IsSound :
    (cid : ℕ) (c : Character) (from to : Text) (w : World)
    → get cid w.chars ≡ some c
    → (c.room_id =? from) || (c.room_id =? to) ≡ true
    → IsSound w
    → IsSound (move_char cid from to w)
unfolding IsSound move_char HasParties
move_char-IsSound cid c from to w e here h = (
  move_char-IsPlaced cid c from to w e here h.0,
  h.1,
  with_char-AreNew w.next_char_id cid (set_room to) w.chars h.2,
)

pub leave_room :
    (w : World) (cid : ℕ) (c : Character) (to : Text)
    → get cid w.chars ≡ some c
    → IsSound w
    → IsSound (move_char cid c.room_id to w)
leave_room w cid c to e h =
    move_char-IsSound cid c c.room_id to w e (ground (arith, =?_refl c.room_id)) h

pub settle-IsSound :
    (w : World) (make : ℕ → Character)
    → w.next_char_id < 2 ^ 64 - 1
    → IsSound w
    → IsSound (settle w make)
unfolding IsSound settle HasParties
settle-IsSound w make small h =
    (settle-IsPlaced w make h.2 h.0, h.1, settle-AreNew w make small h.2)

pub take_away-IsSound :
    (w : World) (cid : ℕ) (c : Character)
    → get cid w.chars ≡ some c
    → IsSound w
    → IsSound (take_away w cid c)
unfolding IsSound take_away HasParties
take_away-IsSound w cid c e h =
    (take_away-IsPlaced w cid c e h.0, h.1, take_away-AreNew w cid c h.2)
