-- ===== src/Broker/HoldCache/Follow.antt =====
-- The broker's cache follows the daemon's holds.
use slopmud.Prelude.{
  ℕ, ◌≡◌, refl, ap, ◌∙◌, subst, Bool, true, false, Option, none, some, arith, if◌then◌else◌,
  Bool-cases, nat_eq, list_eq, is_empty,
}
use slopmud.Prelude.Text.{Text, name_key, name_key_idem}
use slopmud.Prelude.Map.{get, insert, remove, get-insert, get-remove}
use slopmud.Sbc.Prefix.{AddrText, IpPrefix, parse_cidr}
use slopmud.Sbc.Event.{
  LegalHoldEntry, AdminReq, upsert_ban, delete_ban, upsert_legal_hold, delete_legal_hold,
  report_enforcement_status, report_ban_apply_result, get_state, EventEnvelope,
}
use slopmud.Sbc.Raftd.{PersistedState, Outside, Reply, handle_admin, apply_upsert_ban}
use slopmud.Broker.HoldCache.{HoldCache, is_held, apply_upsert, apply_delete, on_event, Listener}

-- What the daemon holds for a name.
abbrev pub held_by : PersistedState → Text → Option LegalHoldEntry
held_by s name = if is_empty (name_key name) then none else get (name_key name) s.holds

abbrev pub Follows : PersistedState → HoldCache → Type 0
Follows s c = (name : Text) → is_held c name ≡ held_by s name

-- The listener after the event of an answer, if there is one.
abbrev pub after_event : Listener → Option EventEnvelope → Listener
after_event l none = l
after_event l (some env) = on_event l env

upsert-Follows :
    (s : PersistedState) (c : HoldCache) (k : Text) (i : ℕ) (entry : LegalHoldEntry)
    → Follows s c
    → name_key entry.name_lc ≡ k
    → is_empty k ≡ false
    → Follows (record s { holds = insert k entry s.holds }) (apply_upsert c i entry)
unfolding is_held apply_upsert
upsert-Follows s c k i entry h here full name = ground (
  arith,
  h name,
  here,
  full,
  get-insert (name_key name) k entry s.holds,
  get-insert (name_key name) k entry c.holds,
  Bool-cases (is_empty (name_key name)),
)

delete-Follows :
    (s : PersistedState) (c : HoldCache) (k : Text) (i : ℕ)
    → Follows s c
    → name_key k ≡ k
    → is_empty k ≡ false
    → Follows (record s { holds = remove k s.holds }) (apply_delete c i k)
unfolding is_held apply_delete
delete-Follows s c k i h here full name = ground (
  arith,
  h name,
  here,
  full,
  get-remove (name_key name) k s.holds,
  get-remove (name_key name) k c.holds,
  Bool-cases (is_empty (name_key name)),
)

either :
    (P : Reply → Type 0) (b : Bool) (x y : Reply) → P x → (b ≡ false → P y) → P (if b then x else y)
either P true x y hx hy = hx
either P false x y hx hy = hy refl

module _ (std : AddrText) (s : PersistedState) (out : Outside) (l : Listener) where
  Answered : Reply → Type 0
  Answered r = Follows r.0 (after_event l r.2).cache

  Continues : Option Reply → Type 0
  unfolding Answered
  Continues none = Unit
  Continues (some r) = Answered r

  handle_admin-Continues :
      (req : AdminReq) → Follows s l.cache → Continues (handle_admin std s out req)
  unfolding handle_admin on_event Continues
  handle_admin-Continues (upsert_ban key ttl_s by reason) h = parsed (parse_cidr std key)
    where
      parsed :
          (o : Option IpPrefix)
          → Continues (elim o [
            | none ↦ none
            | some pfx ↦ some (apply_upsert_ban std s out pfx ttl_s by reason)
          ])
      parsed none = tt
      parsed (some pfx) = h
  handle_admin-Continues (delete_ban id) h = h
  handle_admin-Continues (upsert_legal_hold name by reason) h =
      either Answered (is_empty (name_key name)) _ _ h (λ full.
        upsert-Follows s l.cache (name_key name) s.next_index _ h (name_key_idem name) full)
  handle_admin-Continues (delete_legal_hold name) h =
      either Answered (is_empty (name_key name)) _ _ h (λ full n.
        ap (λ k. is_held (apply_delete l.cache s.next_index k) n) (name_key_idem name)
        ∙ delete-Follows s l.cache (name_key name) s.next_index h (name_key_idem name) full n)
  handle_admin-Continues (report_enforcement_status status) h = h
  handle_admin-Continues (report_ban_apply_result report) h = h
  handle_admin-Continues get_state h = h

-- Whatever an administrator asks: if the broker's cache answers for every name what the daemon's
-- holds say, it still does after the request, once the broker has taken the event that the request
-- gave off, if any.
pub on_event-Follows :
    (std : AddrText) (s : PersistedState) (out : Outside) (l : Listener) (req : AdminReq)
    (r : Reply)
    → ((name : Text) → is_held l.cache name ≡ held_by s name)
    → handle_admin std s out req ≡ some r
    → (name : Text) → is_held (after_event l r.2).cache name ≡ held_by r.0 name
unfolding Continues
on_event-Follows std s out l req r h e name =
    subst (Continues std s out l) e (handle_admin-Continues std s out l req h) name
