-- ===== src/Sbc/Raftd/Consistent.antt =====
-- The two tables of bans stay each other's inverse: a CIDR has one ban at most.
use slopmud.Prelude.{
  ℕ, ◌≡◌, refl, sym, subst, ◌↔◌, inl, inr, Bool, true, false, Option, none, some, List, arith,
  if◌then◌else◌, Option-cases, =?_iff, nat_eq, list_eq, is_empty,
}
use slopmud.Prelude.Text.{Text, name_key}
use slopmud.Prelude.Map.{get, insert, remove, get-insert, get-remove}
use slopmud.Sbc.Prefix.{IpPrefix, AddrText, to_cidr_string, parse_cidr}
use slopmud.Sbc.Event.{
  BanEntry, AdminReq, upsert_ban, delete_ban, upsert_legal_hold, delete_legal_hold,
  report_enforcement_status, report_ban_apply_result, get_state,
}
use slopmud.Sbc.Raftd.{
  PersistedState, empty_state, Outside, Reply, ban_id_for, apply_upsert_ban, apply_delete_ban,
  handle_admin, keys_without, expires_at,
}

module _ (std : AddrText) where
  abbrev pub cidr_of : Option BanEntry → Option Text
  cidr_of none = none
  cidr_of (some e) = some (to_cidr_string std e.key)

  -- `ban_by_key` gives the id just of the ban that has the key.
  abbrev pub IsIndex : PersistedState → Type 0
  IsIndex s = (c id : Text) → (get c s.ban_by_key ≡ some id) ↔ (cidr_of (get id s.bans) ≡ some c)

  insert-IsIndex :
      (s : PersistedState) (kc rid : Text) (e : BanEntry)
      → IsIndex s
      → get rid s.bans ≡ none
      → to_cidr_string std e.key ≡ kc
      → get kc s.ban_by_key ≡ none
      → IsIndex (record s { ban_by_key = insert kc rid s.ban_by_key; bans = insert rid e s.bans })
  insert-IsIndex s kc rid e h fresh here free c id = ground (
    arith,
    get-insert c kc rid s.ban_by_key,
    get-insert id rid e s.bans,
    h c id,
    h kc id,
    h c rid,
    =?_iff c kc,
    =?_iff id rid,
    here,
    free,
    fresh,
  )

  replace-IsIndex :
      (s : PersistedState) (kc id0 : Text) (e : BanEntry)
      → IsIndex s
      → to_cidr_string std e.key ≡ kc
      → get kc s.ban_by_key ≡ some id0
      → IsIndex (record s { bans = insert id0 e s.bans })
  replace-IsIndex s kc id0 e h here there c id =
      ground
        (arith, get-insert id id0 e s.bans, h c id, h kc id0, h c id0, =?_iff id id0, here, there)

  remove-IsIndex :
      (s : PersistedState) (id0 : Text) (e : BanEntry)
      → IsIndex s
      → get id0 s.bans ≡ some e
      → IsIndex (record s {
        ban_by_key = remove (to_cidr_string std e.key) s.ban_by_key;
        bans = remove id0 s.bans;
      })
  remove-IsIndex s id0 e h there c id = ground (
    arith,
    get-remove c (to_cidr_string std e.key) s.ban_by_key,
    get-remove id id0 s.bans,
    h c id,
    h (to_cidr_string std e.key) id,
    h (to_cidr_string std e.key) id0,
    h c id0,
    =?_iff c (to_cidr_string std e.key),
    =?_iff id id0,
    there,
  )

  enter-IsIndex :
      (s : PersistedState) (kc rid : Text) (entry : Text → BanEntry)
      → IsIndex s
      → get rid s.bans ≡ none
      → ((i : Text) → to_cidr_string std (entry i).key ≡ kc)
      → let p = ban_id_for std s kc rid in
        IsIndex (record s { ban_by_key = p.1; bans = insert p.0 (entry p.0) s.bans })
  unfolding ban_id_for
  enter-IsIndex s kc rid entry h fresh here = elim (Option-cases (get kc s.ban_by_key)) [
    | inl free ↦
        let p : ban_id_for std s kc rid ≡ (rid, insert kc rid s.ban_by_key) =
          rw (ban_id_for, free) refl in
        subst Entered (sym p) (insert-IsIndex s kc rid (entry rid) h fresh (here rid) free)
    | inr (i, there) ↦
        let p : ban_id_for std s kc rid ≡ (i, s.ban_by_key) = rw (ban_id_for, there) refl in
        subst Entered (sym p) (replace-IsIndex s kc i (entry i) h (here i) there)
  ]
    where
      Entered : Text × List (Text × Text) → Type 0
      Entered p = IsIndex (record s { ban_by_key = p.1; bans = insert p.0 (entry p.0) s.bans })

  upsert_ban-IsIndex :
      (s : PersistedState) (out : Outside) (key : IpPrefix) (ttl_s : ℕ) (by reason : Text)
      → IsIndex s
      → get out.random_id s.bans ≡ none
      → IsIndex (apply_upsert_ban std s out key ttl_s by reason).0
  unfolding apply_upsert_ban
  upsert_ban-IsIndex s out key ttl_s by reason h fresh =
      enter-IsIndex s (to_cidr_string std key) out.random_id
        (λ i. record {
          ban_id = i;
          key = key;
          created_at_unix = out.now;
          created_by = by;
          reason = reason;
          expires_at_unix = expires_at out.now ttl_s;
        })
        h fresh (λ i. refl)

  keys_none :
      (s : PersistedState) (id : Text) → get id s.bans ≡ none → keys_without std s id ≡ s.ban_by_key
  unfolding keys_without
  keys_none s id gone = rw (keys_without, gone) refl

  keys_some :
      (s : PersistedState) (id : Text) (e : BanEntry)
      → get id s.bans ≡ some e
      → keys_without std s id ≡ remove (to_cidr_string std e.key) s.ban_by_key
  unfolding keys_without
  keys_some s id e there = rw (keys_without, there) refl

  delete_ban-IsIndex :
      (s : PersistedState) (id : Text) → IsIndex s → IsIndex (apply_delete_ban std s id).0
  unfolding apply_delete_ban
  delete_ban-IsIndex s id h = elim (Option-cases (get id s.bans)) [
    | inl gone ↦
        subst Left (sym (keys_none s id gone))
          (λ c i. ground (arith, get-remove i id s.bans, =?_iff i id, h c i, gone))
    | inr (e, there) ↦ subst Left (sym (keys_some s id e there)) (remove-IsIndex s id e h there)
  ]
    where
      Left : List (Text × Text) → Type 0
      Left keys = IsIndex (record s { ban_by_key = keys; bans = remove id s.bans })

  -- The states that admin requests lead to from the empty one, each with a random id that no ban has.
  pub data Reached : PersistedState → Type 0 where
    start : Reached empty_state
    step :
        (s : PersistedState) (out : Outside) (req : AdminReq) (r : Reply)
        → Reached s
        → get out.random_id s.bans ≡ none
        → handle_admin std s out req ≡ some r
        → Reached r.0

  abbrev After : Option Reply → Type 0
  After none = Unit
  After (some r) = IsIndex r.0

  either-IsIndex :
      (b : Bool) (x y : Reply) → IsIndex x.0 → IsIndex y.0 → IsIndex (if b then x else y).0
  either-IsIndex true x y hx hy = hx
  either-IsIndex false x y hx hy = hy

  upsert_ban-After :
      (s : PersistedState) (out : Outside) (key : Text) (ttl_s : ℕ) (by reason : Text)
      → IsIndex s
      → get out.random_id s.bans ≡ none
      → After (handle_admin std s out (upsert_ban key ttl_s by reason))
  unfolding handle_admin
  upsert_ban-After s out key ttl_s by reason h fresh = parsed (parse_cidr std key)
    where
      parsed :
          (o : Option IpPrefix)
          → After (elim o [
            | none ↦ none
            | some pfx ↦ some (apply_upsert_ban std s out pfx ttl_s by reason)
          ])
      parsed none = tt
      parsed (some pfx) = upsert_ban-IsIndex s out pfx ttl_s by reason h fresh

  handle_admin-After :
      (s : PersistedState) (out : Outside) (req : AdminReq)
      → IsIndex s
      → get out.random_id s.bans ≡ none
      → After (handle_admin std s out req)
  unfolding handle_admin
  handle_admin-After s out (upsert_ban key ttl_s by reason) h fresh =
      upsert_ban-After s out key ttl_s by reason h fresh
  handle_admin-After s out (delete_ban id) h fresh = delete_ban-IsIndex s id h
  handle_admin-After s out (upsert_legal_hold name by reason) h fresh =
      either-IsIndex (is_empty (name_key name)) _ _ h h
  handle_admin-After s out (delete_legal_hold name) h fresh =
      either-IsIndex (is_empty (name_key name)) _ _ h h
  handle_admin-After s out (report_enforcement_status status) h fresh = h
  handle_admin-After s out (report_ban_apply_result report) h fresh = h
  handle_admin-After s out get_state h fresh = h

  -- In every state that admin requests lead to from the empty one, each with a random id that no ban
  -- has, the two tables of bans are each other's inverse: `ban_by_key` gives an id for a CIDR just if
  -- the ban with that id is there and has that CIDR.
  pub reached-IsIndex :
      (s : PersistedState)
      → Reached s
      → (c id : Text) → (get c s.ban_by_key ≡ some id) ↔ (cidr_of (get id s.bans) ≡ some c)
  unfolding empty_state
  reached-IsIndex s start c id = ground arith
  reached-IsIndex s (step s0 out req r h fresh e) c id =
      subst After e (handle_admin-After s0 out req (reached-IsIndex s0 h) fresh) c id
