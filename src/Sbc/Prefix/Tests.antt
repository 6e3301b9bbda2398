-- ===== src/Sbc/Prefix/Tests.antt =====
-- The theorems at 10.0.0.0/8 and 10.1.0.0/16.
use slopmud.Prelude.{◌+◌, ◌*◌, ◌^◌, ◌≡◌, refl, true, arith, nat_eq, list_eq}
use slopmud.Sbc.Prefix.{v4, IpPrefix, mask, matches, contains_ip, contains_prefix}
use slopmud.Sbc.Prefix.Containment.{contains_prefix-contains_ip, contains_ip-agrees, agrees}

abbrev ten : IpPrefix
ten = record { addr = v4 (10 * 2 ^ 24); prefix_len = 8 }

abbrev ten_one : IpPrefix
ten_one = record { addr = v4 (10 * 2 ^ 24 + 2 ^ 16); prefix_len = 16 }

contains_ip-agrees_example :
    contains_ip ten (v4 (10 * 2 ^ 24 + 5)) ≡ agrees (v4 (10 * 2 ^ 24)) 8 (v4 (10 * 2 ^ 24 + 5))
contains_ip-agrees_example =
    contains_ip-agrees ten (v4 (10 * 2 ^ 24 + 5)) (omega arith, omega arith) (omega arith)

contains_prefix-contains_ip_example : contains_ip ten (v4 (10 * 2 ^ 24 + 2 ^ 16 + 7)) ≡ true
unfolding contains_prefix contains_ip matches mask
contains_prefix-contains_ip_example =
    contains_prefix-contains_ip ten ten_one (v4 (10 * 2 ^ 24 + 2 ^ 16 + 7))
      (omega arith, omega arith) (omega arith, omega arith) (omega arith) refl refl
