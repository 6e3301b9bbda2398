-- ===== src/Broker/Throttle.antt =====
-- crates/slopmud/src/main.rs: `LoginThrottle`, which makes a client wait longer after each failed
-- login. An instant and a duration are numbers of nanoseconds; `duration_since` is 0 for an instant
-- to come.
pub mod Waiting
mod Tests
use slopmud.Prelude.{
  ℕ, zero, suc, ◌+◌, ◌-◌, ◌*◌, ◌/◌, ◌%◌, ◌^◌, ◌≤◌, ◌<◌, min, max, ◌≡◌, refl, sym, ap, ap₂, ◌∙◌,
  subst, ◌≢◌, ◌↔◌, ◌⊎◌, inl, inr, Bool, true, false, not, ◌&&◌, ◌||◌, Option, none, some, List, [],
  ◌∷◌, ◌++◌, map, append-nil, append_assoc, arith, ltb, leb, ◌==◌, if◌then◌else◌, ==_iff,
  Bool-cases, Option-cases, Eq, ◌=?◌, =?_iff, =?_refl, nat_eq, list_eq, list_beq, list_beq_iff,
  length, get_elem?, take, drop, is_empty, any, all, concat, All, length-append, take-append-drop,
  length-take, length-drop, take_front, drop_front, take_all, take_front_of, drop_front_of,
  take-append_left, take_past, drop_past, get_elem?-front, get_elem?-append_left, All-append,
  All-left, reverse, reverse-append, reverse-reverse, filter, length-reverse, drop-append,
  drop-drop, drop_all, reverse-take, take_one, take_over, take_least, All-right,
}
use slopmud.Prelude.Text.{Text}
use slopmud.Prelude.Map.{get, insert, remove}

abbrev pub second : ℕ
second = 10 ^ 9

-- LOGIN_BACKOFF_BASE, LOGIN_BACKOFF_MAX, LOGIN_BACKOFF_RESET_AFTER and the two limits on entries.
abbrev pub backoff_base : ℕ
backoff_base = second

abbrev pub backoff_max : ℕ
backoff_max = 30 * second

abbrev pub reset_after : ℕ
reset_after = 10 * 60 * second

abbrev pub max_ips : ℕ
max_ips = 2048

abbrev pub max_names : ℕ
max_names = 2048

-- The shift is by 16 at most and the product far below the largest duration, so neither of the
-- checked operations fails.
unfoldable pub backoff_delay : ℕ → ℕ
backoff_delay failures = min (backoff_base * 2 ^ min (failures - 1) 16) backoff_max

unfoldable pub wait_seconds : ℕ → ℕ
wait_seconds d = let ms = d / 10 ^ 6 in if ms == 0 then 0 else min ((ms + 999) / 1000) (2 ^ 64 - 1)

pub record ThrottleEntry : Type 0 where
  pub failures : ℕ
  pub last_failure : ℕ
  pub next_allowed : ℕ

-- `Ip` is the type of addresses.
pub record LoginThrottle (Ip : Type 0) : Type 0 where
  pub by_ip : List (Ip × ThrottleEntry)
  pub by_name : List (Text × ThrottleEntry)

-- The entry after a failure; `failures` saturates at 32 bits.
unfoldable pub failed : ℕ → Option ThrottleEntry → ThrottleEntry
unfolding backoff_delay
failed now old =
    let before = elim old as (λ o. ℕ) [ none ↦ 0 | some entry ↦ entry.failures ] in
    let n = min (before + 1) (2 ^ 32 - 1) in
    record { failures = n; last_failure = now; next_allowed = now + backoff_delay n }

module _ {K : Type 0} ⦃e : Eq K⦄ where
  unfoldable pub is_recent : ℕ → K × ThrottleEntry → Bool
  is_recent now p = leb (now - p.1.last_failure) reset_after

  -- `retain`, and the clearing of a map that is still too large.
  unfoldable pub prune_map : ℕ → ℕ → List (K × ThrottleEntry) → List (K × ThrottleEntry)
  unfolding is_recent
  prune_map limit now m =
      let kept = filter (is_recent now) m in if ltb limit (length kept) then [] else kept

  -- What a map makes a client wait.
  unfoldable pub wait_for : K → ℕ → List (K × ThrottleEntry) → ℕ
  wait_for k now m = elim (get k m) [
    | none ↦ 0
    | some entry ↦ if ltb now entry.next_allowed then entry.next_allowed - now else 0
  ]

  unfoldable pub note_in : K → ℕ → List (K × ThrottleEntry) → List (K × ThrottleEntry)
  unfolding failed
  note_in k now m = insert k (failed now (get k m)) m

  -- The delay that the failure brings.
  unfoldable pub delay_in : K → ℕ → List (K × ThrottleEntry) → ℕ
  unfolding failed backoff_delay
  delay_in k now m = backoff_delay (failed now (get k m)).failures

module _ {Ip : Type 0} ⦃e : Eq Ip⦄ where
  unfoldable pub prune : LoginThrottle Ip → ℕ → LoginThrottle Ip
  unfolding prune_map
  prune t now = record {
    by_ip = prune_map max_ips now t.by_ip;
    by_name = prune_map max_names now t.by_name;
  }

  unfoldable pub wait : LoginThrottle Ip → Ip → Text → ℕ → LoginThrottle Ip × ℕ
  unfolding prune wait_for
  wait t ip name now =
      let t = prune t now in
      let by_ip = max 0 (wait_for ip now t.by_ip) in
      (t, if not (is_empty name) then max by_ip (wait_for name now t.by_name) else by_ip)

  unfoldable pub note_failure : LoginThrottle Ip → Ip → Text → ℕ → LoginThrottle Ip × ℕ
  unfolding prune note_in delay_in
  note_failure t ip name now =
      let t = prune t now in
      let ip_delay = delay_in ip now t.by_ip in
      let by_ip = note_in ip now t.by_ip in
      if is_empty name then (record t { by_ip = by_ip }, max ip_delay 0) else (
        record { by_ip = by_ip; by_name = note_in name now t.by_name },
        max ip_delay (delay_in name now t.by_name),
      )

  unfoldable pub note_success : LoginThrottle Ip → Ip → Text → LoginThrottle Ip
  note_success t ip name = record {
    by_ip = remove ip t.by_ip;
    by_name = if not (is_empty name) then remove name t.by_name else t.by_name;
  }
