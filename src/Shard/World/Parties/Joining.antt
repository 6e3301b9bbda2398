-- ===== src/Shard/World/Parties/Joining.antt =====
-- Party commands by which a character joins keep what holds of parties.
use slopmud.Prelude.{
  ℕ, ◌-◌, ◌^◌, ◌<◌, ◌≡◌, Option, some, arith, ltb, ◌==◌, if◌then◌else◌, Bool-cases, ◌=?◌, =?_refl,
  nat_eq, list_eq, map_or, map_or_intro, if_intro,
}
use slopmud.Prelude.Text.{Text}
use slopmud.Prelude.Map.{get, insert, remove, get-insert}
use slopmud.Prelude.Buckets.{set_insert, mem-set_insert}
use slopmud.Shard.World.{World, Party, PartyInvite}
use slopmud.Shard.World.Parties.{party_create}
use slopmud.Shard.World.Parties.Commands.{
  PartyReply, already_in_party, player_not_found, nothing_to_do, invited, invite_stale, joined,
  only_leader, internal_error, no_invites, invite_expired, find_player_by_prefix, own_party,
  invite_stored, invite_to, invite_from, joined_to, accept_command,
}
use slopmud.Shard.World.Parties.Members.{HasParties, store, join, led_in, given, is_listed}
use slopmud.Shard.World.Parties.Frame.{SamePeople, party_create-SamePeople, same}
use slopmud.Shard.World.Parties.Ops.{party_create-HasParties}

-- Parties are right after the command, and the characters are where they were.
abbrev pub Kept {ℓ} : {A : Type ℓ} → World → A × World → Type 0
Kept w r = HasParties r.1 × SamePeople r.1 w

pub own_party-Kept :
    (w : World) (cid : ℕ) → w.next_party_id < 2 ^ 64 - 1 → HasParties w → Kept w (own_party w cid)
unfolding own_party
own_party-Kept w cid small h =
    map_or_intro (Kept {A = ℕ} w) (party_create w cid) (λ pid. (pid, w)) (get cid w.party_of)
      (party_create-HasParties w cid small h, party_create-SamePeople w cid) (λ pid e. (h, same w))

invite_to-Kept : (w : World) (cid pid i : ℕ) → HasParties w → Kept w (invite_to w cid pid i)
unfolding invite_to invite_stored HasParties
invite_to-Kept w cid pid i h =
    if_intro (Kept w) (i == cid) (nothing_to_do, w)
      (map_or (invited i, invite_stored w cid pid i) (λ other. (already_in_party, w))
        (get i w.party_of))
      (λ b. (h, same w))
      (λ b.
        map_or_intro (Kept w) (invited i, invite_stored w cid pid i)
          (λ other. (already_in_party, w)) (get i w.party_of) (h, same w) (λ other e. (h, same w)))

pub invite_from-Kept :
    (w : World) (cid pid : ℕ) (token : Text) → HasParties w → Kept w (invite_from w cid pid token)
unfolding invite_from
invite_from-Kept w cid pid token h =
    map_or_intro (Kept w) (internal_error, w) ask (get pid w.parties) (h, same w)
      (λ p e.
        if_intro (Kept w) (p.leader == cid)
          (map_or (player_not_found, w) (invite_to w cid pid) target) (only_leader, w)
          (λ b.
            map_or_intro (Kept w) (player_not_found, w) (invite_to w cid pid) target (h, same w)
              (λ i k. invite_to-Kept w cid pid i h))
          (λ b. (h, same w)))
  where
    target : Option ℕ
    target = find_player_by_prefix w token

    ask : Party → PartyReply × World
    ask p =
        if p.leader == cid
        then map_or (player_not_found, w) (invite_to w cid pid) target
        else (only_leader, w)

joined_to-HasParties :
    (w : World) (cid pid : ℕ) (p : Party)
    → get pid w.parties ≡ some p
    → HasParties w
    → HasParties (joined_to w cid pid p)
unfolding HasParties
joined_to-HasParties w cid pid p e h =
    let q : Party = record p { members = set_insert cid p.members } in
    join (insert pid q w.parties) w.party_of w.next_party_id cid pid
      (ground (
        arith,
        get-insert pid pid q w.parties,
        =?_refl pid,
        mem-set_insert cid cid p.members,
        =?_refl cid,
      ))
      (store w.parties w.party_of w.next_party_id pid q
        (ground (
          arith,
          mem-set_insert p.leader cid p.members,
          led_in w.parties w.party_of w.next_party_id pid p e h,
          Bool-cases (p.leader =? cid),
        ))
        (λ d k. ground (
          arith,
          e,
          mem-set_insert d cid p.members,
          Bool-cases (d =? cid),
          is_listed w.parties w.party_of w.next_party_id d pid h k,
        ))
        (given w.parties w.party_of w.next_party_id pid p e h) h)

pub accept_command-Kept : (w : World) (cid : ℕ) → HasParties w → Kept w (accept_command w cid)
unfolding accept_command HasParties
accept_command-Kept w cid h =
    map_or_intro (Kept w) (no_invites, w) answer (get cid w.party_invites) (h, same w)
      (λ inv e.
        if_intro (Kept w) (ltb inv.expires_ms w.now_ms) (invite_expired, used) (enter inv)
          (λ b. (h, same w))
          (λ b.
            map_or_intro (Kept w) (invite_stale, used)
              (λ p. (joined inv.party_id, joined_to used cid inv.party_id p))
              (get inv.party_id w.parties) (h, same w)
              (λ p k. (joined_to-HasParties used cid inv.party_id p k h, same w))))
  where
    used : World
    used = record w { party_invites = remove cid w.party_invites }

    enter : PartyInvite → PartyReply × World
    enter inv =
        map_or (invite_stale, used) (λ p. (joined inv.party_id, joined_to used cid inv.party_id p))
          (get inv.party_id w.parties)

    answer : PartyInvite → PartyReply × World
    answer inv = if ltb inv.expires_ms w.now_ms then (invite_expired, used) else enter inv
