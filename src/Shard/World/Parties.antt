-- ===== src/Shard/World/Parties.antt =====
-- apps/shard_01/src/main.rs: parties. A promoted leader is the first remaining member: Rust takes any.
pub mod Commands
pub mod Members
pub mod Ops
pub mod Frame
pub mod Joining
pub mod Kept
use slopmud.Prelude.{
  ℕ, zero, suc, ◌+◌, ◌-◌, ◌*◌, ◌/◌, ◌%◌, ◌^◌, ◌≤◌, ◌<◌, min, max, ◌≡◌, refl, sym, ap, ap₂, ◌∙◌,
  subst, ◌≢◌, ◌↔◌, ◌⊎◌, inl, inr, Bool, true, false, not, ◌&&◌, ◌||◌, Option, none, some, List, [],
  ◌∷◌, ◌++◌, map, append-nil, append_assoc, arith, ltb, leb, ◌==◌, if◌then◌else◌, ==_iff,
  Bool-cases, Option-cases, Eq, ◌=?◌, =?_iff, =?_refl, nat_eq, list_eq, list_beq, list_beq_iff,
  length, get_elem?, take, drop, is_empty, any, all, concat, All, length-append, take-append-drop,
  length-take, length-drop, take_front, drop_front, take_all, take_front_of, drop_front_of,
  take-append_left, take_past, drop_past, get_elem?-front, get_elem?-append_left, All-append,
  All-left, reverse, reverse-append, reverse-reverse, filter, length-reverse, drop-append,
  drop-drop, drop_all, reverse-take, take_one, take_over, take_least, All-right,
}
use slopmud.Prelude.Text.{Text, name_key, to_ascii_lowercase, starts_with}
use slopmud.Prelude.Map.{get, insert, remove, values}
use slopmud.Prelude.Buckets.{mem, set_insert, set_remove}
use slopmud.Shard.World.{World, Character, Party, PartyInvite, add_u64, is_some}

unfoldable pub party_create : World → ℕ → ℕ × World
unfolding add_u64
party_create w leader =
    let pid = w.next_party_id in
    (
      pid,
      record w {
        next_party_id = add_u64 pid 1;
        parties =
            insert pid (record { id = pid; leader = leader; members = leader ∷ [] }) w.parties;
        party_of = insert leader pid w.party_of;
      },
    )

-- A party without the character: gone when it was the last one, led by another when it led.
unfoldable pub without : ℕ → Party → Option Party
without cid p = elim (set_remove cid p.members) [
  | [] ↦ none
  | m ∷ rest ↦
      some (record p { members = m ∷ rest; leader = if p.leader == cid then m else p.leader })
]

-- The party that the character was in, without it.
unfoldable pub set_party : ℕ → Option Party → List (ℕ × Party) → List (ℕ × Party)
set_party pid none parties = remove pid parties
set_party pid (some q) parties = insert pid q parties

unfoldable pub leave_in : ℕ → ℕ → Option Party → List (ℕ × Party) → List (ℕ × Party)
unfolding without set_party
leave_in cid pid none parties = parties
leave_in cid pid (some p) parties = set_party pid (without cid p) parties

unfoldable pub leave_from : World → ℕ → Option ℕ → World
unfolding leave_in
leave_from w cid none = w
leave_from w cid (some pid) = record w {
  party_of = remove cid w.party_of;
  parties = leave_in cid pid (get pid w.parties) w.parties;
}

unfoldable pub party_leave : World → ℕ → World
unfolding leave_from
party_leave w cid = leave_from w cid (get cid w.party_of)

unfoldable pub remove_members : List ℕ → List (ℕ × ℕ) → List (ℕ × ℕ)
remove_members [] party_of = party_of
remove_members (m ∷ ms) party_of = remove_members ms (remove m party_of)

-- `retain` on the invites.
abbrev pub invites_without : ℕ → List (ℕ × PartyInvite) → List (ℕ × PartyInvite)
invites_without pid invites = filter (λ (e : ℕ × PartyInvite). not (e.1.party_id == pid)) invites

abbrev pub disband_of : World → ℕ → Option Party → World
disband_of w pid none = w
disband_of w pid (some p) = record w {
  parties = remove pid w.parties;
  party_of = remove_members p.members w.party_of;
  party_invites = invites_without pid w.party_invites;
}

unfoldable pub party_disband : World → ℕ → World
unfolding remove_members
party_disband w pid = disband_of w pid (get pid w.parties)
