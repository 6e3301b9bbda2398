-- ===== src/Broker/HoldCache/Flags.antt =====
-- A session is flagged held just if the cache holds its name.
use slopmud.Prelude.{
  ℕ, ◌≡◌, refl, inl, inr, Bool, true, false, ◌||◌, Option, none, some, List, [], ◌∷◌, map, arith,
  Bool-cases, ◌=?◌, =?_iff, nat_eq, list_eq, is_empty, All,
}
use slopmud.Prelude.Text.{Text, name_key, name_key_idem}
use slopmud.Prelude.Map.{get, insert, get-insert, get-remove}
use slopmud.Sbc.Event.{
  LegalHoldEntry, snapshot, ban_upserted, ban_deleted, legal_hold_upserted, legal_hold_deleted,
  enforcement_status, ban_apply_result, EventEnvelope,
}
use slopmud.Broker.HoldCache.{
  HoldCache, is_held, insert_all, apply_snapshot, apply_upsert, apply_delete, Session, Listener,
  is_named, flag_all, flag_one, on_event,
}

abbrev pub is_some {ℓ} : {A : Type ℓ} → Option A → Bool
is_some none = false
is_some (some a) = true

abbrev pub IsFlagged : HoldCache → List Session → Type 0
IsFlagged c = All (λ si. si.held ≡ is_some (is_held c si.name))

insert_all-is_named :
    (m : List (Text × LegalHoldEntry)) (hs : List LegalHoldEntry) (k : Text)
    → is_empty k ≡ false
    → is_some (get k (insert_all m hs)) ≡ is_some (get k m) || is_named hs k
unfolding insert_all is_named
insert_all-is_named m [] k full = ground (arith, Bool-cases (is_some (get k m)))
insert_all-is_named m (h ∷ hs) k full =
    let j : Text = name_key h.name_lc in
    ground (
      arith,
      full,
      insert_all-is_named m hs k full,
      insert_all-is_named (insert j h m) hs k full,
      get-insert k j h m,
      =?_iff k j,
      =?_iff j k,
      Bool-cases (is_empty j),
      Bool-cases (j =? k),
      Bool-cases (is_some (get k m)),
    )

is_named-empty : (hs : List LegalHoldEntry) (k : Text) → is_empty k ≡ true → is_named hs k ≡ false
unfolding is_named
is_named-empty [] k h = refl
is_named-empty (e ∷ hs) k h =
    let j : Text = name_key e.name_lc in
    ground (arith, is_named-empty hs k h, =?_iff j k, Bool-cases (is_empty j), Bool-cases (j =? k))

-- A flag set from a snapshot.
flag_all-held :
    (c : HoldCache) (i : ℕ) (hs : List LegalHoldEntry) (name : Text)
    → is_named hs (name_key name) ≡ is_some (is_held (apply_snapshot c i hs) name)
unfolding is_held apply_snapshot
flag_all-held c i hs name = elim (Bool-cases (is_empty (name_key name))) [
  | inl e ↦ ground (arith, e, is_named-empty hs (name_key name) e)
  | inr e ↦ ground (arith, e, insert_all-is_named [] hs (name_key name) e)
]

flag_all-IsFlagged :
    (c : HoldCache) (i : ℕ) (hs : List LegalHoldEntry) (sis : List Session)
    → IsFlagged (apply_snapshot c i hs) (map (flag_all hs) sis)
unfolding flag_all
flag_all-IsFlagged c i hs [] = tt
flag_all-IsFlagged c i hs (si ∷ sis) = (flag_all-held c i hs si.name, flag_all-IsFlagged c i hs sis)

upsert-IsFlagged :
    (c : HoldCache) (i : ℕ) (entry : LegalHoldEntry) (sis : List Session)
    → IsFlagged c sis
    → IsFlagged (apply_upsert c i entry) (map (flag_one (name_key entry.name_lc) true) sis)
unfolding flag_one is_held apply_upsert
upsert-IsFlagged c i entry [] h = tt
upsert-IsFlagged c i entry (si ∷ sis) h =
    let k : Text = name_key entry.name_lc in
    let j : Text = name_key si.name in
    (
      ground (
        arith,
        h.0,
        get-insert j k entry c.holds,
        Bool-cases (is_empty k),
        Bool-cases (is_empty j),
        Bool-cases (j =? k),
        =?_iff j k,
      ),
      upsert-IsFlagged c i entry sis h.1,
    )

delete-IsFlagged :
    (c : HoldCache) (i : ℕ) (name_lc : Text) (sis : List Session)
    → IsFlagged c sis
    → name_key name_lc ≡ name_lc
    → IsFlagged (apply_delete c i name_lc) (map (flag_one name_lc false) sis)
unfolding flag_one is_held apply_delete
delete-IsFlagged c i name_lc [] h e = tt
delete-IsFlagged c i name_lc (si ∷ sis) h e =
    let j : Text = name_key si.name in
    (
      ground (
        arith,
        h.0,
        e,
        get-remove j name_lc c.holds,
        Bool-cases (is_empty name_lc),
        Bool-cases (is_empty j),
        Bool-cases (j =? name_lc),
        =?_iff j name_lc,
      ),
      delete-IsFlagged c i name_lc sis h.1 e,
    )

-- Every event leaves the sessions flagged held just as the cache holds their names, if they were
-- before it.
pub on_event-IsFlagged :
    (l : Listener) (env : EventEnvelope)
    → IsFlagged l.cache l.sessions
    → IsFlagged (on_event l env).cache (on_event l env).sessions
unfolding on_event
on_event-IsFlagged l env h =
    elim env.event
      as (λ ev.
        IsFlagged (on_event l (record { index = env.index; event = ev })).cache
          (on_event l (record { index = env.index; event = ev })).sessions) [
            | snapshot bans hs ↦ flag_all-IsFlagged l.cache env.index hs l.sessions
            | legal_hold_upserted entry ↦ upsert-IsFlagged l.cache env.index entry l.sessions h
            | legal_hold_deleted name_lc ↦
                delete-IsFlagged l.cache env.index (name_key name_lc) l.sessions h
                  (name_key_idem name_lc)
            | ban_upserted entry ↦ h
            | ban_deleted ban_id ↦ h
            | enforcement_status status ↦ h
            | ban_apply_result report ↦ h
          ]
