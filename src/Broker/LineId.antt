-- ===== src/Broker/LineId.antt =====
-- crates/slopmud/src/main.rs: `LineId`, the ids of scrollback lines, in 13 digits to base 32, and
-- `LineIdGen`, which makes them from the clock. A `u64` is a number below 2 ^ 64, and a value that
-- the source shifts or adds is written with the width at which it wraps or saturates.
pub mod RoundTrip
pub mod Order
mod Tests
use Prim.Native.Nat.{bit_and, bit_or}
use slopmud.Prelude.{
  ℕ, zero, suc, ◌+◌, ◌-◌, ◌*◌, ◌/◌, ◌%◌, ◌^◌, ◌≤◌, ◌<◌, min, max, ◌≡◌, refl, sym, ap, ap₂, ◌∙◌,
  subst, ◌≢◌, ◌↔◌, ◌⊎◌, inl, inr, Bool, true, false, not, ◌&&◌, ◌||◌, Option, none, some, List, [],
  ◌∷◌, ◌++◌, map, append-nil, append_assoc, arith, ltb, leb, ◌==◌, if◌then◌else◌, ==_iff,
  Bool-cases, Option-cases, Eq, ◌=?◌, =?_iff, =?_refl, nat_eq, list_eq, list_beq, list_beq_iff,
  length, get_elem?, take, drop, is_empty, any, all, concat, All, length-append, take-append-drop,
  length-take, length-drop, take_front, drop_front, take_all, take_front_of, drop_front_of,
  take-append_left, take_past, drop_past, get_elem?-front, get_elem?-append_left, All-append,
  All-left,
}
use slopmud.Prelude.Text.{Text, text, trim, trim_start_matches, is_ascii_digit, lower}

-- LINEID_EPOCH_UNIX_MS.
abbrev pub epoch_unix_ms : ℕ
epoch_unix_ms = 1704067200000

-- ALPH.
abbrev pub alphabet : Text
alphabet = text "0123456789abcdefghjkmnpqrstvwxyz"

-- `ALPH[d]`, for an index below 32.
unfoldable pub letter : ℕ → ℕ
letter d = elim (get_elem? alphabet d) [ some c ↦ c | none ↦ b'0' ]

-- The loop of `encode`, with `n` digits to go; `out` is what it has written, at the back.
unfoldable pub encode_loop : ℕ → ℕ → Text → Text
unfolding letter
encode_loop zero v out = out
encode_loop (suc n) v out = encode_loop n (v / 2 ^ 5) (letter (bit_and v 31) ∷ out)

unfoldable pub encode : ℕ → Text
unfolding encode_loop
encode v = encode_loop 13 v []

-- The arms of `val`.
abbrev arms : List (ℕ × ℕ)
arms =
    (b'0', 0)
    ∷ (b'1', 1)
    ∷ (b'2', 2)
    ∷ (b'3', 3)
    ∷ (b'4', 4)
    ∷ (b'5', 5)
    ∷ (b'6', 6)
    ∷ (b'7', 7)
    ∷ (b'8', 8)
    ∷ (b'9', 9)
    ∷ (b'a', 10)
    ∷ (b'b', 11)
    ∷ (b'c', 12)
    ∷ (b'd', 13)
    ∷ (b'e', 14)
    ∷ (b'f', 15)
    ∷ (b'g', 16)
    ∷ (b'h', 17)
    ∷ (b'j', 18)
    ∷ (b'k', 19)
    ∷ (b'm', 20)
    ∷ (b'n', 21)
    ∷ (b'p', 22)
    ∷ (b'q', 23)
    ∷ (b'r', 24)
    ∷ (b's', 25)
    ∷ (b't', 26)
    ∷ (b'v', 27)
    ∷ (b'w', 28)
    ∷ (b'x', 29)
    ∷ (b'y', 30)
    ∷ (b'z', 31)
    ∷ (b'o', 0)
    ∷ (b'i', 1)
    ∷ (b'l', 1)
    ∷ []

abbrev arm_of : ℕ → List (ℕ × ℕ) → Option ℕ
arm_of c [] = none
arm_of c (a ∷ rest) = if c == a.0 then some a.1 else arm_of c rest

unfoldable pub val : ℕ → Option ℕ
val c = arm_of c arms

-- `v.checked_mul(base)?.checked_add(d)?` on `u64`.
unfoldable pub shift_in : ℕ → ℕ → ℕ → Option ℕ
shift_in base v d =
    if ltb (v * base) (2 ^ 64)
    then if ltb (v * base + d) (2 ^ 64) then some (v * base + d) else none
    else none

-- The loop of `decode`.
unfoldable pub decode_loop : ℕ → Text → Option ℕ
decode_loop v [] = some v
decode_loop v (c ∷ s) = elim (val (lower c)) [
  | none ↦ none
  | some d ↦ elim (shift_in 32 v d) [ none ↦ none | some w ↦ decode_loop w s ]
]

-- `parse::<u64>()` on a string of digits.
unfoldable pub parse_digits : ℕ → Text → Option ℕ
parse_digits v [] = some v
parse_digits v (c ∷ s) = elim (shift_in 10 v (c - b'0')) [ none ↦ none | some w ↦ parse_digits w s ]

unfoldable pub decode_trimmed : Text → Option ℕ
unfolding decode_loop parse_digits
decode_trimmed s =
    if is_empty s then none else if all is_ascii_digit s then parse_digits 0 s else decode_loop 0 s

unfoldable pub decode : Text → Option ℕ
unfolding decode_trimmed
decode s = decode_trimmed (trim_start_matches (λ c. c == b'@') (trim s))

-- `self.0 >> 22`, added to the epoch; the sum saturates.
unfoldable pub timestamp_unix_ms : ℕ → ℕ
timestamp_unix_ms id = min (epoch_unix_ms + id / 2 ^ 22) (2 ^ 64 - 1)

pub record LineIdGen : Type 0 where
  pub node_bits : ℕ
  pub last_ts_ms : ℕ
  pub seq : ℕ

-- `LineIdGen::new`, given what `node_id_bits` answers.
unfoldable pub new : ℕ → LineIdGen
new node_bits = record { node_bits = node_bits; last_ts_ms = 0; seq = 0 }

-- The id of a generator's state.
unfoldable pub id_of : LineIdGen → ℕ
id_of g =
    bit_or
      (bit_or ((g.last_ts_ms - epoch_unix_ms) * 2 ^ 22 % 2 ^ 64)
        (bit_and g.node_bits 0x03ff * 2 ^ 12))
      (bit_and g.seq 0x0fff)

-- The state after `next_id`, by the clock.
unfoldable pub advance : LineIdGen → ℕ → LineIdGen
advance g now_unix_ms =
    let ts_ms = max now_unix_ms g.last_ts_ms in
    let seq = bit_and ((g.seq + 1) % 2 ^ 16) 0x0fff in
    if ts_ms == g.last_ts_ms
    then if seq == 0
      then record g { seq = seq; last_ts_ms = min (ts_ms + 1) (2 ^ 64 - 1) }
      else record g { seq = seq; last_ts_ms = ts_ms }
    else record g { seq = 0; last_ts_ms = ts_ms }

unfoldable pub next_id : LineIdGen → ℕ → LineIdGen × ℕ
unfolding id_of advance
next_id g now_unix_ms = let g = advance g now_unix_ms in (g, id_of g)
