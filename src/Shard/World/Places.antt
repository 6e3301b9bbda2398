-- ===== src/Shard/World/Places.antt =====
-- apps/shard_01/src/main.rs: who stands where. `move_char` is the step that teleport_to, MobWander,
-- send_to_graveyard and try_move share: out of the set of the old room, which is dropped when it is
-- left empty, into the set of the new one, and the character's own room.
use slopmud.Prelude.{
  ℕ, ◌≡◌, refl, sym, ap, ◌∙◌, Bool, true, false, ◌||◌, Option, none, some, List, arith,
  if◌then◌else◌, ◌=?◌, =?_iff, nat_eq, list_eq,
}
use slopmud.Prelude.Text.{Text}
use slopmud.Prelude.Map.{get, insert, get-insert}
use slopmud.Prelude.Buckets.{
  take_out, put_in, in_bucket, has_empty, in_bucket-take_out, in_bucket-put_in, has_empty-take_out,
  has_empty-put_in,
}
use slopmud.Shard.World.{World, Character, with_char}

abbrev pub set_room : Text → Character → Character
set_room to c = record c { room_id = to }

unfoldable pub move_char : ℕ → Text → Text → World → World
move_char cid from to w = record w {
  occupants = put_in to cid (take_out from cid w.occupants);
  chars = with_char cid (set_room to) w.chars;
}

-- The character of this id stands in the room, as the character says itself.
abbrev pub lives_in : Text → ℕ → List (ℕ × Character) → Bool
lives_in r cid chars = elim (get cid chars) [ none ↦ false | some c ↦ r =? c.room_id ]

-- The sets of occupants and the characters' rooms say the same, and no set is empty.
unfoldable pub ArePlaced : List (Text × List ℕ) → List (ℕ × Character) → Type 0
ArePlaced occupants chars =
    (r : Text) (cid : ℕ)
    → (in_bucket r cid occupants ≡ lives_in r cid chars) × (has_empty r occupants ≡ false)

unfoldable pub IsPlaced : World → Type 0
IsPlaced w = ArePlaced w.occupants w.chars

pub get-with_char :
    (j cid : ℕ) (f : Character → Character) (c : Character) (chars : List (ℕ × Character))
    → get cid chars ≡ some c
    → get j (with_char cid f chars) ≡ (if j =? cid then some (f c) else get j chars)
unfolding with_char
get-with_char j cid f c chars e = ground (arith, e, get-insert j cid (f c) chars)

pub lives_in-set_room :
    (r to : Text) (j cid : ℕ) (c : Character) (chars : List (ℕ × Character))
    → get cid chars ≡ some c
    → lives_in r j (with_char cid (set_room to) chars)
      ≡ (if j =? cid then r =? to else lives_in r j chars)
lives_in-set_room r to j cid c chars e = ground (arith, get-with_char j cid (set_room to) c chars e)

-- A character moves from one of the two rooms to the second.
pub move_char-IsPlaced :
    (cid : ℕ) (c : Character) (from to : Text) (w : World)
    → get cid w.chars ≡ some c
    → (c.room_id =? from) || (c.room_id =? to) ≡ true
    → IsPlaced w
    → IsPlaced (move_char cid from to w)
unfolding move_char IsPlaced ArePlaced
move_char-IsPlaced cid c from to w e here h r d = (
  ground (
    arith,
    in_bucket-put_in r d to cid (take_out from cid w.occupants),
    in_bucket-take_out r d from cid w.occupants,
    lives_in-set_room r to d cid c w.chars e,
    (h r d).0,
    before,
    =?_iff d cid,
    ap (λ i. in_bucket r i w.occupants),
    =?_iff c.room_id from,
    =?_iff c.room_id to,
  ),
  has_empty-put_in r to cid (take_out from cid w.occupants)
      (has_empty-take_out r from cid w.occupants (h r d).1),
)
  where
    before : in_bucket r cid w.occupants ≡ (r =? c.room_id)
    before = ground (arith, e, (h r cid).0)

-- A change of a character that keeps its room.
pub with_char-ArePlaced :
    (cid : ℕ) (f : Character → Character) (occupants : List (Text × List ℕ))
    (chars : List (ℕ × Character))
    → ((c : Character) → (f c).room_id ≡ c.room_id)
    → ArePlaced occupants chars
    → ArePlaced occupants (with_char cid f chars)
unfolding ArePlaced with_char
with_char-ArePlaced cid f occupants chars same h r d =
    ((h r d).0 ∙ sym (kept (get cid chars) refl), (h r d).1)
  where
    kept :
        (o : Option Character)
        → get cid chars ≡ o
        → lives_in r d (elim o [ none ↦ chars | some c ↦ insert cid (f c) chars ])
          ≡ lives_in r d chars
    kept none e = refl
    kept (some c) e =
        ground (arith, e, get-insert d cid (f c) chars, same c, =?_iff d cid, ap (λ i. get i chars))
