-- ===== src/Broker/Throttle/Tests.antt =====
-- The theorems at a client that failed twice.
use slopmud.Prelude.{ℕ, ◌-◌, ◌*◌, ◌≡◌, refl, [], ◌∷◌, arith, nat_eq, list_eq}
use slopmud.Prelude.Text.{text}
use slopmud.Broker.Throttle.{
  second, LoginThrottle, backoff_delay, is_recent, prune_map, failed, note_in, delay_in, prune,
  wait, note_failure, note_success,
}
use slopmud.Broker.Throttle.Waiting.{wait-note_failure, wait-note_success}

abbrev once : LoginThrottle ℕ
once = record {
  by_ip =
      (9, record { failures = 1; last_failure = 100 * second; next_allowed = 101 * second }) ∷ [];
  by_name = [];
}

-- The second failure brings two seconds.
second_delay : (note_failure once 9 (text "al") (110 * second)).1 ≡ 2 * second
unfolding note_failure prune prune_map is_recent delay_in failed backoff_delay
second_delay = refl

wait-note_failure_example :
    (wait (note_failure once 9 (text "al") (110 * second)).0 9 (text "al") (111 * second)).1
    ≡ (note_failure once 9 (text "al") (110 * second)).1 - (111 * second - 110 * second)
unfolding note_failure prune prune_map is_recent note_in
wait-note_failure_example =
    wait-note_failure once 9 (text "al") (110 * second) (111 * second) (omega arith) (omega arith)
      (omega arith) (omega arith)

wait-note_success_example :
    (wait (note_success once 9 (text "al")) 9 (text "al") (111 * second)).1 ≡ 0
wait-note_success_example = wait-note_success once 9 (text "al") (111 * second)
