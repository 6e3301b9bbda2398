-- ===== src/Broker/Throttle/Waiting.antt =====
-- How long a client waits after a failure, and after a success.
use slopmud.Prelude.{
  ℕ, ◌+◌, ◌-◌, ◌≤◌, max, ◌≡◌, refl, ap, ◌∙◌, subst, inl, inr, Bool, false, none, List, [], ◌∷◌,
  arith, ltb, if◌then◌else◌, Bool-cases, Eq, ◌=?◌, =?_refl, nat_eq, list_eq, length, is_empty,
  filter,
}
use slopmud.Prelude.Text.{Text}
use slopmud.Prelude.Map.{get, remove}
use slopmud.Broker.Throttle.{
  reset_after, max_ips, max_names, ThrottleEntry, LoginThrottle, is_recent, prune_map, wait_for,
  failed, note_in, delay_in, prune, wait, note_failure, note_success,
}

module _ {K : Type 0} ⦃e : Eq K⦄ where
  length-filter :
      (p : K × ThrottleEntry → Bool) (m : List (K × ThrottleEntry)) → length (filter p m) ≤ length m
  length-filter p [] = omega arith
  length-filter p (x ∷ m) = ground (arith, length-filter p m, Bool-cases (p x))

  get-filter-remove :
      (k : K) (p : K × ThrottleEntry → Bool) (m : List (K × ThrottleEntry))
      → get k (filter p (remove k m)) ≡ none
  get-filter-remove k p [] = refl
  get-filter-remove k p (x ∷ m) =
      ground (arith, get-filter-remove k p m, Bool-cases (p x), Bool-cases (k =? x.0))

  wait_for-front :
      (k : K) (limit now : ℕ) (x : ThrottleEntry) (m : List (K × ThrottleEntry))
      → now - x.last_failure ≤ reset_after
      → length ((k, x) ∷ m) ≤ limit
      → wait_for k now (prune_map limit now ((k, x) ∷ m)) ≡ x.next_allowed - now
  unfolding wait_for prune_map is_recent
  wait_for-front k limit now x m recent small =
      ground (arith, length-filter (is_recent now) m, =?_refl k)

  wait_for-note_in :
      (k : K) (limit now later : ℕ) (m : List (K × ThrottleEntry))
      → now ≤ later
      → later ≤ now + reset_after
      → length (note_in k now m) ≤ limit
      → wait_for k later (prune_map limit later (note_in k now m))
        ≡ delay_in k now m - (later - now)
  unfolding note_in failed delay_in
  wait_for-note_in k limit now later m le recent small =
      wait_for-front k limit later (failed now (get k m)) (remove k m) (omega arith) small
      ∙ omega arith

  wait_for-remove :
      (k : K) (limit now : ℕ) (m : List (K × ThrottleEntry))
      → wait_for k now (prune_map limit now (remove k m)) ≡ 0
  unfolding wait_for prune_map
  wait_for-remove k limit now m = ground (
    arith,
    get-filter-remove k (is_recent now) m,
    Bool-cases (ltb limit (length (filter (is_recent now) (remove k m)))),
  )

module _ {Ip : Type 0} ⦃e : Eq Ip⦄ (t : LoginThrottle Ip) (ip : Ip) (name : Text) (now : ℕ) where
  failure-by_ip :
      (note_failure t ip name now).0.by_ip ≡ note_in ip now (prune_map max_ips now t.by_ip)
  unfolding note_failure prune
  failure-by_ip = ground (arith, Bool-cases (is_empty name))

  failure-by_name :
      is_empty name ≡ false
      → (note_failure t ip name now).0.by_name
        ≡ note_in name now (prune_map max_names now t.by_name)
  unfolding note_failure prune
  failure-by_name given = ground (arith, given)

  failure-delay :
      (note_failure t ip name now).1
      ≡ max
          (delay_in ip now (prune_map max_ips now t.by_ip))
          (if is_empty name then 0 else delay_in name now (prune_map max_names now t.by_name))
  unfolding note_failure prune
  failure-delay = ground (arith, Bool-cases (is_empty name))

module _ {Ip : Type 0} ⦃e : Eq Ip⦄ where
  -- After a failed login, a later attempt from the address with the name, within the ten minutes
  -- after which failures are forgotten, has to wait for the rest of the delay that the failure
  -- brought, if the two tables are within their limits.
  pub wait-note_failure :
      (t : LoginThrottle Ip) (ip : Ip) (name : Text) (now later : ℕ)
      → now ≤ later
      → later ≤ now + reset_after
      → length (note_failure t ip name now).0.by_ip ≤ max_ips
      → length (note_failure t ip name now).0.by_name ≤ max_names
      → (wait (note_failure t ip name now).0 ip name later).1
        ≡ (note_failure t ip name now).1 - (later - now)
  unfolding wait prune
  wait-note_failure t ip name now later le recent ips names = elim (Bool-cases (is_empty name)) [
    | inl nameless ↦ ground (arith, nameless, by_ip, failure-delay t ip name now)
    | inr given ↦ ground (arith, given, by_ip, by_name given, failure-delay t ip name now)
  ]
    where
      by_ip :
          wait_for ip later (prune_map max_ips later (note_failure t ip name now).0.by_ip)
          ≡ delay_in ip now (prune_map max_ips now t.by_ip) - (later - now)
      by_ip =
          ap (λ m. wait_for ip later (prune_map max_ips later m)) (failure-by_ip t ip name now)
          ∙ wait_for-note_in ip max_ips now later (prune_map max_ips now t.by_ip) le recent
              (subst (λ m. length m ≤ max_ips) (failure-by_ip t ip name now) ips)

      by_name :
          is_empty name ≡ false
          → wait_for name later (prune_map max_names later (note_failure t ip name now).0.by_name)
            ≡ delay_in name now (prune_map max_names now t.by_name) - (later - now)
      by_name given =
          ap (λ m. wait_for name later (prune_map max_names later m))
            (failure-by_name t ip name now given)
          ∙ wait_for-note_in name max_names now later (prune_map max_names now t.by_name) le recent
              (subst (λ m. length m ≤ max_names) (failure-by_name t ip name now given) names)

  -- After a successful login an attempt from the address with the name, at any time, does not wait.
  pub wait-note_success :
      (t : LoginThrottle Ip) (ip : Ip) (name : Text) (now : ℕ)
      → (wait (note_success t ip name) ip name now).1 ≡ 0
  unfolding wait note_success prune
  wait-note_success t ip name now = ground (
    arith,
    wait_for-remove ip max_ips now t.by_ip,
    wait_for-remove name max_names now t.by_name,
    Bool-cases (is_empty name),
  )
