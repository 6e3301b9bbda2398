-- ===== src/Shard/World/Parties/Kept.antt =====
-- What holds of parties after a command.
use slopmud.Prelude.{
  ℕ, ◌-◌, ◌^◌, ◌<◌, ◌≡◌, Bool, true, Option, some, List, [], ◌∷◌, arith, ◌==◌, if◌then◌else◌,
  Bool-cases, ◌=?◌, =?_refl, nat_eq, list_eq, all, filter, map_or, map_or_intro, if_intro,
}
use slopmud.Prelude.Text.{Text, to_ascii_lowercase}
use slopmud.Prelude.Map.{get, insert}
use slopmud.Prelude.Buckets.{mem}
use slopmud.Shard.World.{World, Party}
use slopmud.Shard.World.Parties.{party_create, party_leave, party_disband}
use slopmud.Shard.World.Parties.Commands.{
  PartyReply, created, already_in_party, disbanded, player_not_found, not_in_your_party,
  nothing_to_do, kicked, new_leader, left_party, not_in_party, only_leader, internal_error,
  create_command, leading, disband_command, unique_id, find_player_by_prefix, kick, kick_command,
  answers_to, transfer, lead_command, own_party, invite_from, invite_command, leave_command,
  PartyCommand, create, disband, kick_player, lead_player, invite_player, accept, leave,
  party_command,
}
use slopmud.Shard.World.Parties.Members.{HasParties, store, given, is_listed}
use slopmud.Shard.World.Parties.Joining.{
  Kept, own_party-Kept, invite_from-Kept, accept_command-Kept,
}
use slopmud.Shard.World.Parties.Frame.{
  SamePeople, party_leave-SamePeople, party_disband-SamePeople, party_create-SamePeople, same,
  SamePeople-trans,
}
use slopmud.Shard.World.Parties.Ops.{
  party_create-HasParties, party_leave-HasParties, party_disband-HasParties,
}

leading-Kept :
    (w : World) (cid : ℕ) (k : ℕ → Party → PartyReply × World)
    → HasParties w
    → ((pid : ℕ) (p : Party) → get pid w.parties ≡ some p → Kept w (k pid p))
    → Kept w (leading w cid k)
unfolding leading
leading-Kept w cid k h each =
    map_or_intro (Kept w) (not_in_party, w)
      (λ pid. map_or (internal_error, w) (run pid) (get pid w.parties)) (get cid w.party_of)
      (h, same w)
      (λ pid e.
        map_or_intro (Kept w) (internal_error, w) (run pid) (get pid w.parties) (h, same w)
          (λ p e.
            if_intro (Kept w) (p.leader == cid) (k pid p) (only_leader, w) (λ b. each pid p e)
              (λ b. (h, same w))))
  where
    run : ℕ → Party → PartyReply × World
    run pid p = if p.leader == cid then k pid p else (only_leader, w)

create_command-Kept :
    (w : World) (cid : ℕ)
    → w.next_party_id < 2 ^ 64 - 1
    → HasParties w
    → Kept w (create_command w cid)
unfolding create_command
create_command-Kept w cid small h =
    map_or_intro (Kept w) (created (party_create w cid).0, (party_create w cid).1)
      (λ pid. (already_in_party, w)) (get cid w.party_of)
      (party_create-HasParties w cid small h, party_create-SamePeople w cid) (λ pid e. (h, same w))

kick-Kept : (w : World) (cid pid target : ℕ) → HasParties w → Kept w (kick w cid pid target)
unfolding kick
kick-Kept w cid pid target h =
    if_intro (Kept w) (target == cid) (nothing_to_do, w)
      (map_or (not_in_your_party, w) out (get target w.party_of)) (λ b. (h, same w))
      (λ b.
        map_or_intro (Kept w) (not_in_your_party, w) out (get target w.party_of) (h, same w)
          (λ other e.
            if_intro (Kept w) (other == pid) (kicked, party_leave w target) (not_in_your_party, w)
              (λ c. (party_leave-HasParties w target h, party_leave-SamePeople w target))
              (λ c. (h, same w))))
  where
    out : ℕ → PartyReply × World
    out other = if other == pid then (kicked, party_leave w target) else (not_in_your_party, w)

unique_id-mem : (ids : List ℕ) (i : ℕ) → unique_id ids ≡ some i → mem i ids ≡ true
unfolding unique_id
unique_id-mem [] i e = absurd (ground (arith, e))
unique_id-mem (j ∷ ids) i e = ground (arith, e, =?_refl i, Bool-cases (all (λ k. k == j) ids))

mem-filter : (q : ℕ → Bool) (i : ℕ) (ids : List ℕ) → mem i (filter q ids) ≡ true → mem i ids ≡ true
mem-filter q i [] h = h
mem-filter q i (j ∷ ids) h =
    ground (arith, h, mem-filter q i ids, Bool-cases (q j), Bool-cases (i =? j))

-- The only id that passes a test is in the list.
unique_id-filter :
    (q : ℕ → Bool) (ms : List ℕ) (mid : ℕ) → unique_id (filter q ms) ≡ some mid → mem mid ms ≡ true
unique_id-filter q ms mid e = mem-filter q mid ms (unique_id-mem (filter q ms) mid e)

transfer-Kept :
    (w : World) (cid pid : ℕ) (p : Party) (mid : ℕ)
    → get pid w.parties ≡ some p
    → mem mid p.members ≡ true
    → HasParties w
    → Kept w (transfer w cid pid p mid)
unfolding transfer HasParties
transfer-Kept w cid pid p mid e has h =
    if_intro (Kept w) (mid == cid) (nothing_to_do, w)
      (new_leader mid, record w { parties = insert pid led w.parties }) (λ b. (h, same w))
      (λ b. (
        store w.parties w.party_of w.next_party_id pid led has
            (λ d k. ground (arith, e, is_listed w.parties w.party_of w.next_party_id d pid h k))
            (given w.parties w.party_of w.next_party_id pid p e h) h,
        same w,
      ))
  where
    led : Party
    led = record p { leader = mid }

lead_command-Kept :
    (w : World) (cid : ℕ) (token : Text) → HasParties w → Kept w (lead_command w cid token)
unfolding lead_command
lead_command-Kept w cid token h =
    leading-Kept w cid (λ pid p. map_or (player_not_found, w) (transfer w cid pid p) (found p)) h
      (λ pid p e.
        map_or_intro (Kept w) (player_not_found, w) (transfer w cid pid p) (found p) (h, same w)
          (λ mid u.
            transfer-Kept w cid pid p mid e
              (unique_id-filter (answers_to (to_ascii_lowercase token) w) p.members mid u) h))
  where
    found : Party → Option ℕ
    found p = unique_id (filter (answers_to (to_ascii_lowercase token) w) p.members)

disband_command-Kept : (w : World) (cid : ℕ) → HasParties w → Kept w (disband_command w cid)
unfolding disband_command
disband_command-Kept w cid h =
    leading-Kept w cid (λ pid p. (disbanded, party_disband w pid)) h
      (λ pid p e. (party_disband-HasParties w pid h, party_disband-SamePeople w pid))

kick_command-Kept :
    (w : World) (cid : ℕ) (token : Text) → HasParties w → Kept w (kick_command w cid token)
unfolding kick_command
kick_command-Kept w cid token h =
    leading-Kept w cid
      (λ pid p. map_or (player_not_found, w) (kick w cid pid) (find_player_by_prefix w token)) h
      (λ pid p e.
        map_or_intro (Kept w) (player_not_found, w) (kick w cid pid) (find_player_by_prefix w token)
          (h, same w) (λ i k. kick-Kept w cid pid i h))

invite_command-Kept :
    (w : World) (cid : ℕ) (token : Text)
    → w.next_party_id < 2 ^ 64 - 1
    → HasParties w
    → Kept w (invite_command w cid token)
unfolding invite_command
invite_command-Kept w cid token small h =
    let own = own_party-Kept w cid small h in
    let v : World = (own_party w cid).1 in
    let asked = invite_from-Kept v cid (own_party w cid).0 token own.0 in
    (asked.0, SamePeople-trans (invite_from v cid (own_party w cid).0 token).1 v w asked.1 own.1)

leave_command-Kept : (w : World) (cid : ℕ) → HasParties w → Kept w (leave_command w cid)
unfolding leave_command
leave_command-Kept w cid h =
    map_or_intro (Kept w) (not_in_party, w) (λ pid. (left_party, party_leave w cid))
      (get cid w.party_of) (h, same w)
      (λ pid e. (party_leave-HasParties w cid h, party_leave-SamePeople w cid))

-- Whichever of the commands create, disband, kick, lead, invite, accept and leave a character gives, if
-- party ids are left: the party that the map gives for a character exists and lists it, every party
-- lists its leader (so no party is empty), and ids that were not given out name no party; no
-- character, place or character id changes.
pub party_command-HasParties :
    (w : World) (cid : ℕ) (cmd : PartyCommand)
    → w.next_party_id < 2 ^ 64 - 1
    → HasParties w
    → HasParties (party_command w cid cmd).1 × SamePeople (party_command w cid cmd).1 w
unfolding party_command
party_command-HasParties w cid create small h = create_command-Kept w cid small h
party_command-HasParties w cid disband small h = disband_command-Kept w cid h
party_command-HasParties w cid (kick_player t) small h = kick_command-Kept w cid t h
party_command-HasParties w cid (lead_player t) small h = lead_command-Kept w cid t h
party_command-HasParties w cid (invite_player t) small h = invite_command-Kept w cid t small h
party_command-HasParties w cid accept small h = accept_command-Kept w cid h
party_command-HasParties w cid leave small h = leave_command-Kept w cid h
