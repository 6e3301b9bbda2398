-- ===== src/Sbc/Prefix.antt =====
-- crates/sbc_core/src/lib.rs: IP prefixes. An IPv4 address is a number below 2 ^ 32, an IPv6 one
-- below 2 ^ 128. A shift of a w-bit number to the left keeps its low w bits.
pub mod Containment
mod Tests
use Prim.Native.Nat.{bit_and}
use slopmud.Prelude.{
  ℕ, zero, suc, ◌+◌, ◌-◌, ◌*◌, ◌/◌, ◌%◌, ◌^◌, ◌≤◌, ◌<◌, min, max, ◌≡◌, refl, sym, ap, ap₂, ◌∙◌,
  subst, ◌≢◌, ◌↔◌, ◌⊎◌, inl, inr, Bool, true, false, not, ◌&&◌, ◌||◌, Option, none, some, List, [],
  ◌∷◌, ◌++◌, map, append-nil, append_assoc, arith, ltb, leb, ◌==◌, if◌then◌else◌, ==_iff,
  Bool-cases, Option-cases, Eq, ◌=?◌, =?_iff, =?_refl, nat_eq, list_eq, list_beq, list_beq_iff,
  length, get_elem?, take, drop, is_empty, any, all, concat, All, length-append, take-append-drop,
  length-take, length-drop, take_front, drop_front, take_all, take_front_of, drop_front_of,
  take-append_left, take_past, drop_past, get_elem?-front, get_elem?-append_left, All-append,
  All-left, reverse, reverse-append, reverse-reverse, filter, length-reverse, drop-append,
  drop-drop, drop_all, reverse-take, take_one, take_over, take_least, All-right,
}
use slopmud.Prelude.Text.{Text, trim, split_once}

pub data IpFamily : Type 0 where
  f4 : IpFamily
  f6 : IpFamily

pub data IpAddr : Type 0 where
  v4 : ℕ → IpAddr
  v6 : ℕ → IpAddr

pub record IpPrefix : Type 0 where
  pub addr : IpAddr
  pub prefix_len : ℕ

unfoldable pub family_of : IpAddr → IpFamily
family_of (v4 a) = f4
family_of (v6 a) = f6

unfoldable pub same_family : IpFamily → IpFamily → Bool
same_family f4 f4 = true
same_family f6 f6 = true
same_family f4 f6 = false
same_family f6 f4 = false

-- `v4_mask` for 32 bits and `v6_mask` for 128.
unfoldable pub mask : ℕ → ℕ → ℕ
mask bits prefix_len =
    if prefix_len == 0 then 0 else (2 ^ bits - 1) * 2 ^ (bits - prefix_len) % 2 ^ bits

-- `mask_v4` and `mask_v6`.
unfoldable pub mask_addr : IpAddr → ℕ → IpAddr
unfolding mask
mask_addr (v4 a) n = v4 (bit_and a (mask 32 n))
mask_addr (v6 a) n = v6 (bit_and a (mask 128 n))

abbrev pub max_len : IpAddr → ℕ
max_len (v4 a) = 32
max_len (v6 a) = 128

-- `IpPrefix::new`; `none` is the error.
unfoldable pub new : IpAddr → ℕ → Option IpPrefix
unfolding mask_addr
new addr prefix_len =
    if ltb (max_len addr) prefix_len
    then none
    else some (record { addr = mask_addr addr prefix_len; prefix_len = prefix_len })

unfoldable pub matches : IpAddr → ℕ → IpAddr → Bool
unfolding mask
matches (v4 a) n (v4 b) = bit_and a (mask 32 n) == bit_and b (mask 32 n)
matches (v6 a) n (v6 b) = bit_and a (mask 128 n) == bit_and b (mask 128 n)
matches (v4 a) n (v6 b) = false
matches (v6 a) n (v4 b) = false

unfoldable pub contains_ip : IpPrefix → IpAddr → Bool
unfolding matches
contains_ip p ip = matches p.addr p.prefix_len ip

unfoldable pub contains_prefix : IpPrefix → IpPrefix → Bool
unfolding family_of same_family contains_ip
contains_prefix p other =
    if not (same_family (family_of p.addr) (family_of other.addr))
    then false
    else if ltb other.prefix_len p.prefix_len
    then false
    else contains_ip p other.addr

-- How the standard library shows and parses addresses and 8-bit numbers.
pub record AddrText : Type 0 where
  pub show_addr : IpAddr → Text
  pub show_u8 : ℕ → Text
  pub parse_addr : Text → Option IpAddr
  pub parse_u8 : Text → Option ℕ

module _ (std : AddrText) where
  unfoldable pub to_cidr_string : IpPrefix → Text
  to_cidr_string p = std.show_addr p.addr ++ b'/' ∷ std.show_u8 p.prefix_len

  -- `none` is the error.
  unfoldable pub parse_cidr : Text → Option IpPrefix
  unfolding new split_once trim
  parse_cidr s = elim (split_once b'/' (trim s)) [
    | none ↦ none
    | some (ip_s, plen_s) ↦ elim (std.parse_addr (trim ip_s)) [
      | none ↦ none
      | some addr ↦ elim (std.parse_u8 (trim plen_s)) [
        | none ↦ none
        | some prefix_len ↦ new addr prefix_len
      ]
    ]
  ]

-- `ExemptPrefixes`.
unfoldable pub any_contains_ip : List IpPrefix → IpAddr → Bool
unfolding contains_ip
any_contains_ip prefixes ip = any (λ p. contains_ip p ip) prefixes

unfoldable pub any_contains_prefix : List IpPrefix → IpPrefix → Bool
unfolding contains_prefix
any_contains_prefix prefixes pfx = any (λ p. contains_prefix p pfx) prefixes
