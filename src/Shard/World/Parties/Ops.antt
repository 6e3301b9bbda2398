-- ===== src/Shard/World/Parties/Ops.antt =====
-- Every operation on parties keeps what holds of them.
use slopmud.Prelude.{
  ℕ, ◌+◌, ◌-◌, ◌^◌, ◌<◌, min, ◌≡◌, refl, ◌∙◌, ◌≢◌, true, false, Option, none, some, List, [], ◌∷◌,
  arith, if◌then◌else◌, =?_refl, nat_eq, list_eq, List-cases,
}
use slopmud.Prelude.Map.{get, insert, remove, get-insert, get-remove}
use slopmud.Prelude.Buckets.{mem, set_remove, mem-set_remove}
use slopmud.Shard.World.{World, Party, add_u64}
use slopmud.Shard.World.Parties.{
  party_create, without, set_party, leave_in, leave_from, party_leave, remove_members, disband_of,
  party_disband,
}
use slopmud.Shard.World.Parties.Members.{
  IsParty, HasParties, depart, store, discard, join, grow, nobody_in, fresh, is_listed, led_in,
  given,
}

pub party_create-HasParties :
    (w : World) (cid : ℕ)
    → w.next_party_id < 2 ^ 64 - 1
    → HasParties w
    → HasParties (party_create w cid).1
unfolding HasParties party_create add_u64
party_create-HasParties w cid small h =
    let pid = w.next_party_id in
    let new : Party = record { id = pid; leader = cid; members = cid ∷ [] } in
    let more : ℕ = min (pid + 1) (2 ^ 64 - 1) in
    join (insert pid new w.parties) w.party_of more cid pid
      (ground (arith, get-insert pid pid new w.parties, =?_refl pid, =?_refl cid))
      (store w.parties w.party_of more pid new (ground (arith, =?_refl cid))
        (λ d k.
          absurd (nobody_in w.parties w.party_of pid pid d (fresh w.parties w.party_of pid h) h k))
        (omega arith) (grow w.parties w.party_of pid more (omega arith) h))

remove_members-gone :
    (d : ℕ) (ms : List ℕ) (party_of : List (ℕ × ℕ))
    → get d (remove_members ms party_of) ≡ (if mem d ms then none else get d party_of)
unfolding remove_members
remove_members-gone d [] party_of = refl
remove_members-gone d (m ∷ ms) party_of =
    ground (arith, remove_members-gone d ms (remove m party_of), get-remove d m party_of)

remove_members-IsParty :
    (parties : List (ℕ × Party)) (next : ℕ) (ms : List ℕ) (party_of : List (ℕ × ℕ))
    → IsParty parties party_of next
    → IsParty parties (remove_members ms party_of) next
unfolding remove_members
remove_members-IsParty parties next [] party_of h = h
remove_members-IsParty parties next (m ∷ ms) party_of h =
    remove_members-IsParty parties next ms (remove m party_of) (depart parties party_of next m h)

pub party_disband-HasParties :
    (w : World) (pid : ℕ) → HasParties w → HasParties (party_disband w pid)
unfolding HasParties party_disband
party_disband-HasParties w pid h = found (get pid w.parties) refl
  where
    out :
        (p : Party)
        → get pid w.parties ≡ some p
        → (d : ℕ) → get d (remove_members p.members w.party_of) ≢ some pid
    out p e d k = ground (
      arith,
      e,
      k,
      remove_members-gone d p.members w.party_of,
      is_listed w.parties w.party_of w.next_party_id d pid h,
    )

    found : (o : Option Party) → get pid w.parties ≡ o → HasParties (disband_of w pid o)
    found none e = h
    found (some p) e =
        discard w.parties (remove_members p.members w.party_of) w.next_party_id pid (out p e)
          (remove_members-IsParty w.parties w.next_party_id p.members w.party_of h)

-- What is left of a party: its members but one, and a leader among them.
without_members :
    (cid d : ℕ) (p q : Party)
    → without cid p ≡ some q
    → mem d q.members ≡ mem d (set_remove cid p.members)
unfolding without
without_members cid d p q e = ground (arith, e, List-cases (set_remove cid p.members))

without_led :
    (cid : ℕ) (p q : Party)
    → mem p.leader p.members ≡ true
    → without cid p ≡ some q
    → mem q.leader q.members ≡ true
unfolding without
without_led cid p q h e = ground (
  arith,
  e,
  h,
  List-cases (set_remove cid p.members),
  mem-set_remove p.leader cid p.members,
  =?_refl q.leader,
)

nobody_left :
    (cid d : ℕ) (p : Party) → without cid p ≡ none → mem d (set_remove cid p.members) ≡ false
unfolding without
nobody_left cid d p e = ground (arith, e, List-cases (set_remove cid p.members))

pub party_leave-HasParties : (w : World) (cid : ℕ) → HasParties w → HasParties (party_leave w cid)
unfolding HasParties party_leave leave_from leave_in set_party
party_leave-HasParties w cid h = member_of (get cid w.party_of)
  where
    gone : IsParty w.parties (remove cid w.party_of) w.next_party_id
    gone = depart w.parties w.party_of w.next_party_id cid h

    others :
        (pid : ℕ) (p : Party)
        → get pid w.parties ≡ some p
        → (d : ℕ) → get d (remove cid w.party_of) ≡ some pid
        → mem d (set_remove cid p.members) ≡ true
    others pid p e d k = ground (
      arith,
      e,
      k,
      get-remove d cid w.party_of,
      mem-set_remove d cid p.members,
      is_listed w.parties w.party_of w.next_party_id d pid h,
    )

    stored :
        (pid : ℕ) (p : Party)
        → get pid w.parties ≡ some p
        → (o : Option Party) → without cid p ≡ o
        → IsParty (set_party pid o w.parties) (remove cid w.party_of) w.next_party_id
    stored pid p e none k =
        discard w.parties (remove cid w.party_of) w.next_party_id pid
          (λ d i. ground (arith, others pid p e d i, nobody_left cid d p k)) gone
    stored pid p e (some q) k =
        store w.parties (remove cid w.party_of) w.next_party_id pid q
          (without_led cid p q (led_in w.parties w.party_of w.next_party_id pid p e h) k)
          (λ d i. without_members cid d p q k ∙ others pid p e d i)
          (given w.parties w.party_of w.next_party_id pid p e h) gone

    kept :
        (pid : ℕ) (o : Option Party)
        → get pid w.parties ≡ o
        → IsParty (leave_in cid pid o w.parties) (remove cid w.party_of) w.next_party_id
    kept pid none e = gone
    kept pid (some p) e = stored pid p e (without cid p) refl

    member_of : (o : Option ℕ) → HasParties (leave_from w cid o)
    member_of none = h
    member_of (some pid) = kept pid (get pid w.parties) refl
