-- ===== src/Shard/World/Parties/Commands.antt =====
-- apps/shard_01/src/main.rs: the party commands. They take the character that the session plays and the
-- trimmed argument; an empty argument is refused before. What they print is their answer.
use slopmud.Prelude.{
  ℕ, Bool, false, ◌&&◌, ◌||◌, Option, none, some, List, [], ◌∷◌, map, ltb, ◌==◌, if◌then◌else◌,
  ◌=?◌, nat_eq, list_eq, is_empty, all, filter, map_or,
}
use slopmud.Prelude.Text.{Text, name_key, to_ascii_lowercase, starts_with}
use slopmud.Prelude.Map.{get, insert, remove, values}
use slopmud.Prelude.Buckets.{set_insert}
use slopmud.Shard.World.{World, Character, Party, PartyInvite, add_u64, is_some}
use slopmud.Shard.World.Parties.{party_create, party_leave, party_disband}

-- What a party command answers.
pub data PartyReply : Type 0 where
  created : ℕ → PartyReply
  already_in_party : PartyReply
  not_in_party : PartyReply
  internal_error : PartyReply
  only_leader : PartyReply
  disbanded : PartyReply
  player_not_found : PartyReply
  nothing_to_do : PartyReply
  not_in_your_party : PartyReply
  kicked : PartyReply
  new_leader : ℕ → PartyReply
  invited : ℕ → PartyReply
  no_invites : PartyReply
  invite_expired : PartyReply
  invite_stale : PartyReply
  joined : ℕ → PartyReply
  left_party : PartyReply

unfoldable pub create_command : World → ℕ → PartyReply × World
unfolding party_create
create_command w cid =
    map_or (created (party_create w cid).0, (party_create w cid).1) (λ pid. (already_in_party, w))
      (get cid w.party_of)

-- The party that the character is in and leads, or the answer that it does not.
unfoldable pub leading : World → ℕ → (ℕ → Party → PartyReply × World) → PartyReply × World
leading w cid k =
    map_or (not_in_party, w)
      (λ pid.
        map_or (internal_error, w) (λ p. if p.leader == cid then k pid p else (only_leader, w))
          (get pid w.parties))
      (get cid w.party_of)

unfoldable pub disband_command : World → ℕ → PartyReply × World
unfolding leading party_disband
disband_command w cid = leading w cid (λ pid p. (disbanded, party_disband w pid))

-- The only id of a list, as the loops over matching players find it.
unfoldable pub unique_id : List ℕ → Option ℕ
unique_id [] = none
unique_id (i ∷ ids) = if all (λ j. j == i) ids then some i else none

abbrev is_player : (Text → Bool) → Character → Bool
is_player p c = is_some c.controller && p (to_ascii_lowercase c.name)

abbrev ids_where : (Text → Bool) → List (ℕ × Character) → List ℕ
ids_where p chars = map (λ (c : Character). c.id) (filter (is_player p) (values chars))

-- An exact name wins over the names that the token begins.
unfoldable pub find_player_by_prefix : World → Text → Option ℕ
unfolding unique_id
find_player_by_prefix w token =
    let t = name_key token in
    if is_empty t
    then none
    else let exact : List ℕ = ids_where (λ n. n =? t) w.chars in
      if is_empty exact
      then unique_id (ids_where (λ n. starts_with n t) w.chars)
      else unique_id exact

-- Only a member of the leader's own party is put out.
unfoldable pub kick : World → ℕ → ℕ → ℕ → PartyReply × World
unfolding party_leave
kick w cid pid target =
    if target == cid
    then (nothing_to_do, w)
    else map_or (not_in_your_party, w)
        (λ other. if other == pid then (kicked, party_leave w target) else (not_in_your_party, w))
        (get target w.party_of)

unfoldable pub kick_command : World → ℕ → Text → PartyReply × World
unfolding leading find_player_by_prefix kick
kick_command w cid token =
    leading w cid
      (λ pid p. map_or (player_not_found, w) (kick w cid pid) (find_player_by_prefix w token))

-- A member of the party with a session, whose name the token begins.
abbrev pub answers_to : Text → World → ℕ → Bool
answers_to t w mid = elim (get mid w.chars) [
  | none ↦ false
  | some c ↦ is_player (λ n. (n =? t) || starts_with n t) c
]

unfoldable pub transfer : World → ℕ → ℕ → Party → ℕ → PartyReply × World
transfer w cid pid p mid =
    if mid == cid
    then (nothing_to_do, w)
    else (new_leader mid, record w { parties = insert pid (record p { leader = mid }) w.parties })

unfoldable pub lead_command : World → ℕ → Text → PartyReply × World
unfolding leading unique_id transfer
lead_command w cid token = leading w cid (λ pid p.
    map_or (player_not_found, w) (transfer w cid pid p)
      (unique_id (filter (answers_to (to_ascii_lowercase token) w) p.members)))

-- The inviter's party, made when it has none.
unfoldable pub own_party : World → ℕ → ℕ × World
unfolding party_create
own_party w cid = map_or (party_create w cid) (λ pid. (pid, w)) (get cid w.party_of)

unfoldable pub invite_stored : World → ℕ → ℕ → ℕ → World
unfolding add_u64
invite_stored w cid pid invitee =
    let invite : PartyInvite = record {
      party_id = pid;
      inviter = cid;
      expires_ms = add_u64 w.now_ms 60000;
    } in
    record w { party_invites = insert invitee invite w.party_invites }

unfoldable pub invite_to : World → ℕ → ℕ → ℕ → PartyReply × World
unfolding invite_stored
invite_to w cid pid invitee =
    if invitee == cid
    then (nothing_to_do, w)
    else map_or (invited invitee, invite_stored w cid pid invitee) (λ other. (already_in_party, w))
        (get invitee w.party_of)

unfoldable pub invite_from : World → ℕ → ℕ → Text → PartyReply × World
unfolding invite_to find_player_by_prefix
invite_from w cid pid token =
    map_or (internal_error, w)
      (λ (p : Party).
        if p.leader == cid
        then map_or (player_not_found, w) (invite_to w cid pid) (find_player_by_prefix w token)
        else (only_leader, w))
      (get pid w.parties)

unfoldable pub invite_command : World → ℕ → Text → PartyReply × World
unfolding own_party invite_from
invite_command w cid token = invite_from (own_party w cid).1 cid (own_party w cid).0 token

abbrev pub joined_to : World → ℕ → ℕ → Party → World
joined_to w cid pid p = record w {
  parties = insert pid (record p { members = set_insert cid p.members }) w.parties;
  party_of = insert cid pid w.party_of;
}

-- The invite is used up whatever comes of it. Whether the invitee is in a party by now is not asked.
unfoldable pub accept_command : World → ℕ → PartyReply × World
accept_command w cid =
    let used : World = record w { party_invites = remove cid w.party_invites } in
    map_or (no_invites, w)
      (λ (inv : PartyInvite).
        if ltb inv.expires_ms w.now_ms
        then (invite_expired, used)
        else map_or (invite_stale, used)
            (λ p. (joined inv.party_id, joined_to used cid inv.party_id p))
            (get inv.party_id w.parties))
      (get cid w.party_invites)

unfoldable pub leave_command : World → ℕ → PartyReply × World
unfolding party_leave
leave_command w cid =
    map_or (not_in_party, w) (λ pid. (left_party, party_leave w cid)) (get cid w.party_of)

-- The commands that change parties, with their trimmed arguments. `party` and `party say` only print;
-- `party run` changes no party, and its moves are in Runs.
pub data PartyCommand : Type 0 where
  create : PartyCommand
  disband : PartyCommand
  kick_player : Text → PartyCommand
  lead_player : Text → PartyCommand
  invite_player : Text → PartyCommand
  accept : PartyCommand
  leave : PartyCommand

unfoldable pub party_command : World → ℕ → PartyCommand → PartyReply × World
unfolding create_command disband_command kick_command lead_command invite_command accept_command
    leave_command
party_command w cid create = create_command w cid
party_command w cid disband = disband_command w cid
party_command w cid (kick_player t) = kick_command w cid t
party_command w cid (lead_player t) = lead_command w cid t
party_command w cid (invite_player t) = invite_command w cid t
party_command w cid accept = accept_command w cid
party_command w cid leave = leave_command w cid
