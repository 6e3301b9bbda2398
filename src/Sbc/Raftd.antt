-- ===== src/Sbc/Raftd.antt =====
-- apps/sbc_raftd/src/main.rs: the state of the daemon, and what an admin request does to it under the
-- lock. The clock and a random id are arguments of a request; how the standard library shows and
-- parses addresses is a parameter.
pub mod Consistent
mod Tests
use slopmud.Prelude.{
  ℕ, zero, suc, ◌+◌, ◌-◌, ◌*◌, ◌/◌, ◌%◌, ◌^◌, ◌≤◌, ◌<◌, min, max, ◌≡◌, refl, sym, ap, ap₂, ◌∙◌,
  subst, ◌≢◌, ◌↔◌, ◌⊎◌, inl, inr, Bool, true, false, not, ◌&&◌, ◌||◌, Option, none, some, List, [],
  ◌∷◌, ◌++◌, map, append-nil, append_assoc, arith, ltb, leb, ◌==◌, if◌then◌else◌, ==_iff,
  Bool-cases, Option-cases, Eq, ◌=?◌, =?_iff, =?_refl, nat_eq, list_eq, list_beq, list_beq_iff,
  length, get_elem?, take, drop, is_empty, any, all, concat, All, length-append, take-append-drop,
  length-take, length-drop, take_front, drop_front, take_all, take_front_of, drop_front_of,
  take-append_left, take_past, drop_past, get_elem?-front, get_elem?-append_left, All-append,
  All-left, reverse, reverse-append, reverse-reverse, filter, length-reverse, drop-append,
  drop-drop, drop_all, reverse-take, take_one, take_over, take_least, All-right,
}
use slopmud.Prelude.Text.{Text, text, name_key}
use slopmud.Prelude.Map.{get, insert, remove, values}
use slopmud.Sbc.Prefix.{IpPrefix, AddrText, to_cidr_string, parse_cidr}
use slopmud.Sbc.Event.{
  BanEntry, LegalHoldEntry, EnforcementStatus, BanApplyResult, AdminReq, upsert_ban, delete_ban,
  upsert_legal_hold, delete_legal_hold, report_enforcement_status, report_ban_apply_result,
  get_state, AdminResp, ok, ok_ban, ok_legal_hold, ok_state, err, Event, snapshot, ban_upserted,
  ban_deleted, legal_hold_upserted, legal_hold_deleted, enforcement_status, ban_apply_result,
  EventEnvelope,
}

pub record PersistedState : Type 0 where
  pub next_index : ℕ
  pub bans : List (Text × BanEntry)
  pub ban_by_key : List (Text × Text)
  pub holds : List (Text × LegalHoldEntry)
  pub last_status_by_node : List (Text × EnforcementStatus)
  pub last_apply_by_node_ban : List (Text × BanApplyResult)

unfoldable pub empty_state : PersistedState
empty_state = record {
  next_index = 1;
  bans = [];
  ban_by_key = [];
  holds = [];
  last_status_by_node = [];
  last_apply_by_node_ban = [];
}

-- What a request comes with from outside: `now_unix()` and `rand_hex_16()`.
pub record Outside : Type 0 where
  pub now : ℕ
  pub random_id : Text

abbrev pub Reply : Type 0
Reply = PersistedState × AdminResp × Option EventEnvelope

-- `s.next_index.saturating_add(1)`, with the event and the answer for the index before.
unfoldable pub commit : PersistedState → Event → (ℕ → AdminResp) → Reply
commit s event resp =
    let idx = s.next_index in
    (
      record s { next_index = min (idx + 1) (2 ^ 64 - 1) },
      resp idx,
      some (record { index = idx; event = event }),
    )

unfoldable pub expires_at : ℕ → ℕ → ℕ
expires_at now ttl_s = if ttl_s == 0 then 0 else min (now + ttl_s) (2 ^ 64 - 1)

module _ (std : AddrText) where
  -- The ban's id: the one that the key has, or a new one, entered for it.
  unfoldable pub ban_id_for : PersistedState → Text → Text → Text × List (Text × Text)
  ban_id_for s key_cidr random_id = elim (get key_cidr s.ban_by_key) [
    | some existing ↦ (existing, s.ban_by_key)
    | none ↦ (random_id, insert key_cidr random_id s.ban_by_key)
  ]

  unfoldable pub apply_upsert_ban : PersistedState → Outside → IpPrefix → ℕ → Text → Text → Reply
  unfolding ban_id_for commit expires_at
  apply_upsert_ban s out key ttl_s created_by reason =
      let (ban_id, by_key) = ban_id_for s (to_cidr_string std key) out.random_id in
      let entry : BanEntry = record {
        ban_id = ban_id;
        key = key;
        created_at_unix = out.now;
        created_by = created_by;
        reason = reason;
        expires_at_unix = expires_at out.now ttl_s;
      } in
      commit (record s { ban_by_key = by_key; bans = insert ban_id entry s.bans })
        (ban_upserted entry) (λ idx. ok_ban idx entry)

  -- `ban_by_key` once the ban is gone, if there was one.
  unfoldable pub keys_without : PersistedState → Text → List (Text × Text)
  keys_without s ban_id = elim (get ban_id s.bans) [
    | some entry ↦ remove (to_cidr_string std entry.key) s.ban_by_key
    | none ↦ s.ban_by_key
  ]

  unfoldable pub apply_delete_ban : PersistedState → Text → Reply
  unfolding commit keys_without
  apply_delete_ban s ban_id =
      commit (record s { bans = remove ban_id s.bans; ban_by_key = keys_without s ban_id })
        (ban_deleted ban_id) ok

  unfoldable pub apply_upsert_hold : PersistedState → Outside → Text → Text → Text → Reply
  unfolding commit
  apply_upsert_hold s out name created_by reason =
      let name_lc = name_key name in
      let entry : LegalHoldEntry = record {
        name_lc = name_lc;
        created_at_unix = out.now;
        created_by = created_by;
        reason = reason;
      } in
      if is_empty name_lc
      then (s, err (text "missing name"), none)
      else commit (record s { holds = insert name_lc entry s.holds }) (legal_hold_upserted entry)
          (λ idx. ok_legal_hold idx entry)

  unfoldable pub apply_delete_hold : PersistedState → Text → Reply
  unfolding commit
  apply_delete_hold s name =
      let name_lc = name_key name in
      if is_empty name_lc
      then (s, err (text "missing name"), none)
      else commit (record s { holds = remove name_lc s.holds }) (legal_hold_deleted name_lc) ok

  -- `format!("{}:{}:{}", node_id, ban_id, op)`.
  abbrev report_key : BanApplyResult → Text
  report_key r = r.node_id ++ b':' ∷ (r.ban_id ++ b':' ∷ r.op)

  -- The match of `handle_admin_conn`; `none` where the handler returns an error without an answer.
  unfoldable pub handle_admin : PersistedState → Outside → AdminReq → Option Reply
  unfolding apply_upsert_ban apply_delete_ban apply_upsert_hold apply_delete_hold commit
  handle_admin s out (upsert_ban key ttl_s created_by reason) = elim (parse_cidr std key) [
    | none ↦ none
    | some pfx ↦ some (apply_upsert_ban s out pfx ttl_s created_by reason)
  ]
  handle_admin s out (delete_ban ban_id) = some (apply_delete_ban s ban_id)
  handle_admin s out (upsert_legal_hold name created_by reason) =
      some (apply_upsert_hold s out name created_by reason)
  handle_admin s out (delete_legal_hold name) = some (apply_delete_hold s name)
  handle_admin s out (report_enforcement_status status) = some (
      commit (record s { last_status_by_node = insert status.node_id status s.last_status_by_node })
        (enforcement_status status) ok)
  handle_admin s out (report_ban_apply_result report) = some (
      commit
        (record s {
          last_apply_by_node_ban = insert (report_key report) report s.last_apply_by_node_ban;
        })
        (ban_apply_result report) ok)
  handle_admin s out get_state =
      some (s, ok_state (s.next_index - 1) (values s.bans) (values s.holds), none)

-- What `handle_events_conn` sends first to a subscriber that asks for a snapshot.
unfoldable pub snapshot_of : PersistedState → EventEnvelope
snapshot_of s = record {
  index = s.next_index - 1;
  event = snapshot (values s.bans) (values s.holds);
}
