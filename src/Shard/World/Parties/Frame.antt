-- ===== src/Shard/World/Parties/Frame.antt =====
-- Operations on parties change no character and no place.
use slopmud.Prelude.{ℕ, ◌≡◌, refl, ◌∙◌, Option, none, some, nat_eq, list_eq}
use slopmud.Prelude.Map.{get}
use slopmud.Shard.World.{World, Party}
use slopmud.Shard.World.Parties.{party_create, leave_from, party_leave, disband_of, party_disband}

-- Characters and their places are those of the other world.
abbrev pub SamePeople : World → World → Type 0
SamePeople v w =
    (v.chars ≡ w.chars) × (v.occupants ≡ w.occupants) × (v.next_char_id ≡ w.next_char_id)

pub party_leave-SamePeople : (w : World) (cid : ℕ) → SamePeople (party_leave w cid) w
unfolding party_leave leave_from
party_leave-SamePeople w cid = at (get cid w.party_of)
  where
    at : (o : Option ℕ) → SamePeople (leave_from w cid o) w
    at none = (refl, refl, refl)
    at (some pid) = (refl, refl, refl)

pub party_disband-SamePeople : (w : World) (pid : ℕ) → SamePeople (party_disband w pid) w
unfolding party_disband
party_disband-SamePeople w pid = at (get pid w.parties)
  where
    at : (o : Option Party) → SamePeople (disband_of w pid o) w
    at none = (refl, refl, refl)
    at (some p) = (refl, refl, refl)

pub party_create-SamePeople : (w : World) (cid : ℕ) → SamePeople (party_create w cid).1 w
unfolding party_create
party_create-SamePeople w cid = (refl, refl, refl)

pub same : (w : World) → SamePeople w w
same w = (refl, refl, refl)

pub SamePeople-trans : (u v w : World) → SamePeople u v → SamePeople v w → SamePeople u w
SamePeople-trans u v w p q = (p.0 ∙ q.0, p.1 ∙ q.1, p.2 ∙ q.2)
