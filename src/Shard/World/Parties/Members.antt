-- ===== src/Shard/World/Parties/Members.antt =====
-- What holds of parties whatever is done to them.
use slopmud.Prelude.{
  ℕ, ◌≤◌, ◌<◌, ◌≡◌, ◌≢◌, Bool, true, false, Option, none, some, List, arith, =?_iff, nat_eq,
  list_eq,
}
use slopmud.Prelude.Map.{get, insert, remove, get-insert, get-remove}
use slopmud.Prelude.Buckets.{mem}
use slopmud.Shard.World.{World, Party}

abbrev pub lists : ℕ → ℕ → List (ℕ × Party) → Bool
lists pid cid parties = elim (get pid parties) [ none ↦ false | some p ↦ mem cid p.members ]

abbrev pub is_led : Option Party → Bool
is_led none = true
is_led (some p) = mem p.leader p.members

-- A character's party exists and has it as a member; a party has its leader as a member; ids that were
-- not given out name no party.
unfoldable pub IsParty : List (ℕ × Party) → List (ℕ × ℕ) → ℕ → Type 0
IsParty parties party_of next =
    ((cid pid : ℕ) → get cid party_of ≡ some pid → lists pid cid parties ≡ true)
    × ((pid : ℕ) → is_led (get pid parties) ≡ true)
    × ((pid : ℕ) → next ≤ pid → get pid parties ≡ none)

unfoldable pub HasParties : World → Type 0
HasParties w = IsParty w.parties w.party_of w.next_party_id

module _ (parties : List (ℕ × Party)) (party_of : List (ℕ × ℕ)) (next : ℕ) where
  -- A character leaves the map of parties.
  pub depart : (c : ℕ) → IsParty parties party_of next → IsParty parties (remove c party_of) next
  unfolding IsParty
  depart c h = (λ d pid e. h.0 d pid (ground (arith, e, get-remove d c party_of)), h.1, h.2)

  -- A party is stored that has its leader and all that are said to be in it.
  pub store :
      (pid : ℕ) (q : Party)
      → mem q.leader q.members ≡ true
      → ((d : ℕ) → get d party_of ≡ some pid → mem d q.members ≡ true)
      → pid < next
      → IsParty parties party_of next
      → IsParty (insert pid q parties) party_of next
  unfolding IsParty
  store pid q led has under h = (
    λ d i e. ground (arith, e, h.0 d i, has d, get-insert i pid q parties, =?_iff i pid),
    λ i. ground (arith, led, h.1 i, get-insert i pid q parties),
    λ i over. ground (arith, over, under, h.2 i, get-insert i pid q parties, =?_iff i pid),
  )

  -- A party is removed that nobody is said to be in.
  pub discard :
      (pid : ℕ)
      → ((d : ℕ) → get d party_of ≢ some pid)
      → IsParty parties party_of next
      → IsParty (remove pid parties) party_of next
  unfolding IsParty
  discard pid out h = (
    λ d i e. ground (arith, e, h.0 d i, out d, get-remove i pid parties, =?_iff i pid),
    λ i. ground (arith, h.1 i, get-remove i pid parties),
    λ i over. ground (arith, over, h.2 i, get-remove i pid parties),
  )

  -- A character is said to be in a party that lists it.
  pub join :
      (c pid : ℕ)
      → lists pid c parties ≡ true
      → IsParty parties party_of next
      → IsParty parties (insert c pid party_of) next
  unfolding IsParty
  join c pid in_it h = (
    λ d i e. ground (arith, e, in_it, h.0 d i, get-insert d c pid party_of, =?_iff d c),
    h.1,
    h.2,
  )

  -- More ids are given out.
  pub grow :
      (more : ℕ) → next ≤ more → IsParty parties party_of next → IsParty parties party_of more
  unfolding IsParty
  grow more le h = (h.0, h.1, λ i over. h.2 i (omega arith))

  -- Nobody is said to be in a party whose id was not given out.
  pub nobody_in :
      (pid d : ℕ)
      → get pid parties ≡ none
      → IsParty parties party_of next
      → get d party_of ≢ some pid
  unfolding IsParty
  nobody_in pid d e h k = ground (arith, e, k, h.0 d pid)

  pub fresh : IsParty parties party_of next → get next parties ≡ none
  unfolding IsParty
  fresh h = h.2 next (omega arith)

  pub is_listed :
      (d pid : ℕ)
      → IsParty parties party_of next
      → get d party_of ≡ some pid
      → lists pid d parties ≡ true
  unfolding IsParty
  is_listed d pid h = h.0 d pid

  pub led_in :
      (pid : ℕ) (p : Party)
      → get pid parties ≡ some p
      → IsParty parties party_of next
      → mem p.leader p.members ≡ true
  unfolding IsParty
  led_in pid p e h = ground (arith, e, h.1 pid)

  pub given :
      (pid : ℕ) (p : Party) → get pid parties ≡ some p → IsParty parties party_of next → pid < next
  unfolding IsParty
  given pid p e h = ground (arith, e, h.2 pid)
