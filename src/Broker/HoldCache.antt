-- ===== src/Broker/HoldCache.antt =====
-- crates/slopmud/src/hold.rs: the broker's copy of the legal holds, fed by the daemon's events, and
-- the event loop in crates/slopmud/src/main.rs that feeds it and flags the sessions held.
pub mod Follow
pub mod Flags
mod Tests
use slopmud.Prelude.{
  ℕ, zero, suc, ◌+◌, ◌-◌, ◌*◌, ◌/◌, ◌%◌, ◌^◌, ◌≤◌, ◌<◌, min, max, ◌≡◌, refl, sym, ap, ap₂, ◌∙◌,
  subst, ◌≢◌, ◌↔◌, ◌⊎◌, inl, inr, Bool, true, false, not, ◌&&◌, ◌||◌, Option, none, some, List, [],
  ◌∷◌, ◌++◌, map, append-nil, append_assoc, arith, ltb, leb, ◌==◌, if◌then◌else◌, ==_iff,
  Bool-cases, Option-cases, Eq, ◌=?◌, =?_iff, =?_refl, nat_eq, list_eq, list_beq, list_beq_iff,
  length, get_elem?, take, drop, is_empty, any, all, concat, All, length-append, take-append-drop,
  length-take, length-drop, take_front, drop_front, take_all, take_front_of, drop_front_of,
  take-append_left, take_past, drop_past, get_elem?-front, get_elem?-append_left, All-append,
  All-left, reverse, reverse-append, reverse-reverse, filter, length-reverse, drop-append,
  drop-drop, drop_all, reverse-take, take_one, take_over, take_least, All-right,
}
use slopmud.Prelude.Text.{Text, name_key}
use slopmud.Prelude.Map.{get, insert, remove}
use slopmud.Sbc.Event.{
  LegalHoldEntry, Event, snapshot, ban_upserted, ban_deleted, legal_hold_upserted,
  legal_hold_deleted, enforcement_status, ban_apply_result, EventEnvelope,
}

pub record HoldCache : Type 0 where
  pub holds : List (Text × LegalHoldEntry)
  pub last_index : ℕ

unfoldable pub new : HoldCache
new = record { holds = []; last_index = 0 }

unfoldable pub is_held : HoldCache → Text → Option LegalHoldEntry
is_held c name = let k = name_key name in if is_empty k then none else get k c.holds

-- The loop of `apply_snapshot`.
unfoldable pub insert_all :
    List (Text × LegalHoldEntry) → List LegalHoldEntry → List (Text × LegalHoldEntry)
insert_all m [] = m
insert_all m (h ∷ hs) =
    let k = name_key h.name_lc in insert_all (if is_empty k then m else insert k h m) hs

unfoldable pub apply_snapshot : HoldCache → ℕ → List LegalHoldEntry → HoldCache
unfolding insert_all
apply_snapshot c index hs = record { holds = insert_all [] hs; last_index = max c.last_index index }

unfoldable pub apply_upsert : HoldCache → ℕ → LegalHoldEntry → HoldCache
apply_upsert c index entry =
    let k = name_key entry.name_lc in
    if is_empty k
    then c
    else record { holds = insert k entry c.holds; last_index = max c.last_index index }

unfoldable pub apply_delete : HoldCache → ℕ → Text → HoldCache
apply_delete c index name_lc =
    let k = name_key name_lc in
    if is_empty k
    then c
    else record { holds = remove k c.holds; last_index = max c.last_index index }

-- What the event loop sees of a session: its name and its flag `held`.
pub record Session : Type 0 where
  pub name : Text
  pub held : Bool

pub record Listener : Type 0 where
  pub cache : HoldCache
  pub sessions : List Session

-- Membership in `held_names`.
unfoldable pub is_named : List LegalHoldEntry → Text → Bool
is_named hs k = any (λ h. not (is_empty (name_key h.name_lc)) && (name_key h.name_lc =? k)) hs

unfoldable pub flag_all : List LegalHoldEntry → Session → Session
unfolding is_named
flag_all hs si = record si { held = is_named hs (name_key si.name) }

unfoldable pub flag_one : Text → Bool → Session → Session
flag_one name_lc on si =
    if is_empty name_lc
    then si
    else if name_key si.name =? name_lc
    then record si { held = on }
    else si

-- The match of the broker's event loop on an event of the daemon.
unfoldable pub on_event : Listener → EventEnvelope → Listener
unfolding apply_snapshot apply_upsert apply_delete flag_all flag_one
on_event l env = elim env.event [
  | snapshot bans hs ↦ record {
    cache = apply_snapshot l.cache env.index hs;
    sessions = map (flag_all hs) l.sessions;
  }
  | legal_hold_upserted entry ↦ record {
    cache = apply_upsert l.cache env.index entry;
    sessions = map (flag_one (name_key entry.name_lc) true) l.sessions;
  }
  | legal_hold_deleted name_lc ↦ record {
    cache = apply_delete l.cache env.index (name_key name_lc);
    sessions = map (flag_one (name_key name_lc) false) l.sessions;
  }
  | ban_upserted entry ↦ l
  | ban_deleted ban_id ↦ l
  | enforcement_status status ↦ l
  | ban_apply_result report ↦ l
]
