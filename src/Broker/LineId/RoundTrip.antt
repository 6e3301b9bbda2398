-- ===== src/Broker/LineId/RoundTrip.antt =====
-- `decode` reads back what `encode` writes, unless it is all decimal digits.
use Prim.Native.Nat.{bit_and}
use slopmud.Prelude.{
  ℕ, zero, suc, ◌/◌, ◌%◌, ◌^◌, ◌<◌, ◌≡◌, refl, ap, ◌∙◌, Bool, true, false, not, ◌&&◌, none, some,
  [], ◌∷◌, arith, ◌==◌, if◌then◌else◌, nat_eq, list_eq, is_empty, all, All,
}
use native.Mathlib.Nat.{pow-suc}
use slopmud.Prelude.Below.{below-use}
use slopmud.Prelude.Bits.{bit_and-ones}
use slopmud.Prelude.Text.{
  Text, trim_start_matches, is_whitespace, is_ascii_digit, lower, trim_start_matches-none,
  trim-none,
}
use slopmud.Broker.LineId.{
  letter, encode_loop, encode, val, shift_in, decode_loop, parse_digits, decode_trimmed, decode,
}

-- What the round trip needs of a letter, as a test.
is_letter : ℕ → Bool
unfolding letter val is_whitespace lower
is_letter d =
    elim (val (lower (letter d))) [ none ↦ false | some k ↦ k == d ]
    && not (is_whitespace (letter d))
    && not (letter d == b'@')

letters : (d : ℕ) → d < 32 → is_letter d ≡ true
unfolding is_letter
letters d h = below-use 32 is_letter d refl h

val-letter : (d : ℕ) → d < 32 → val (lower (letter d)) ≡ some d
unfolding is_letter
val-letter d h = ground (arith, letters d h)

abbrev IsPlain : ℕ → Type 0
IsPlain c = (is_whitespace c ≡ false) × ((c == b'@') ≡ false)

letter-IsPlain : (d : ℕ) → d < 32 → IsPlain (letter d)
unfolding is_letter
letter-IsPlain d h = ground (arith, letters d h)

last_digit : (v : ℕ) → bit_and v 31 ≡ v % 32
last_digit v = bit_and-ones 5 v

encode_loop-IsPlain : (n v : ℕ) (out : Text) → All IsPlain out → All IsPlain (encode_loop n v out)
unfolding encode_loop
encode_loop-IsPlain zero v out h = h
encode_loop-IsPlain (suc n) v out h =
    encode_loop-IsPlain n (v / 2 ^ 5) (letter (bit_and v 31) ∷ out)
      (letter-IsPlain (bit_and v 31) (omega (arith, last_digit v)), h)

decode_loop-step :
    (v c d w : ℕ) (s : Text)
    → val (lower c) ≡ some d
    → shift_in 32 v d ≡ some w
    → decode_loop v (c ∷ s) ≡ decode_loop w s
unfolding decode_loop
decode_loop-step v c d w s e h = ground (arith, e, h)

shift_in-back : (v : ℕ) → v < 2 ^ 64 → shift_in 32 (v / 2 ^ 5) (bit_and v 31) ≡ some v
unfolding shift_in
shift_in-back v h = ground (arith, last_digit v)

encode-IsPlain : (v : ℕ) → All IsPlain (encode v)
unfolding encode
encode-IsPlain v = encode_loop-IsPlain 13 v [] tt

-- Reading what the loop has written gets to the number that was there, and goes on.
decode_loop-encode_loop :
    (n v : ℕ) (out : Text)
    → v < 2 ^ 64
    → v < 32 ^ n
    → decode_loop 0 (encode_loop n v out) ≡ decode_loop v out
unfolding encode_loop
decode_loop-encode_loop zero v out small h = ap (λ (k : ℕ). decode_loop k out) (omega arith)
decode_loop-encode_loop (suc n) v out small h =
    let d : ℕ = bit_and v 31 in
    decode_loop-encode_loop n (v / 2 ^ 5) (letter d ∷ out) (omega arith)
      (omega (arith, pow-suc 32 n))
    ∙ decode_loop-step (v / 2 ^ 5) (letter d) d v out (val-letter d (omega (arith, last_digit v)))
        (shift_in-back v small)

All-whitespace : (s : Text) → All IsPlain s → All (λ c. is_whitespace c ≡ false) s
All-whitespace [] h = tt
All-whitespace (c ∷ s) h = (h.0.0, All-whitespace s h.1)

All-at : (s : Text) → All IsPlain s → All (λ c. (c == b'@') ≡ false) s
All-at [] h = tt
All-at (c ∷ s) h = (h.0.1, All-at s h.1)

decode-plain : (s : Text) → All IsPlain s → decode s ≡ decode_trimmed s
unfolding decode
decode-plain s h = ap decode_trimmed (
    ap (trim_start_matches (λ c. c == b'@')) (trim-none s (All-whitespace s h))
    ∙ trim_start_matches-none (λ c. c == b'@') s (All-at s h))

whitespace_at : is_whitespace b'@' ≡ false
unfolding is_whitespace
whitespace_at = refl

skip_at :
    (s : Text)
    → trim_start_matches (λ c. c == b'@') (b'@' ∷ s) ≡ trim_start_matches (λ c. c == b'@') s
unfolding trim_start_matches
skip_at s = refl

decode-at : (s : Text) → All IsPlain s → decode (b'@' ∷ s) ≡ decode_trimmed s
unfolding decode
decode-at s h = ap decode_trimmed (
    ap (trim_start_matches (λ c. c == b'@'))
      (trim-none (b'@' ∷ s) (whitespace_at, All-whitespace s h))
    ∙ skip_at s
    ∙ trim_start_matches-none (λ c. c == b'@') s (All-at s h))

encode_loop-is_empty :
    (n v : ℕ) (out : Text) → is_empty out ≡ false → is_empty (encode_loop n v out) ≡ false
unfolding encode_loop
encode_loop-is_empty zero v out h = h
encode_loop-is_empty (suc n) v out h =
    encode_loop-is_empty n (v / 2 ^ 5) (letter (bit_and v 31) ∷ out) refl

encode-is_empty : (v : ℕ) → is_empty (encode v) ≡ false
unfolding encode encode_loop
encode-is_empty v = encode_loop-is_empty 12 (v / 2 ^ 5) (letter (bit_and v 31) ∷ []) refl

decode_loop-end : (v : ℕ) → decode_loop v [] ≡ some v
unfolding decode_loop
decode_loop-end v = refl

decode_loop-encode : (v : ℕ) → v < 2 ^ 64 → decode_loop 0 (encode v) ≡ some v
unfolding encode
decode_loop-encode v h = decode_loop-encode_loop 13 v [] h (omega arith) ∙ decode_loop-end v

decode_trimmed-digits :
    (s : Text)
    → is_empty s ≡ false
    → decode_trimmed s ≡ (if all is_ascii_digit s then parse_digits 0 s else decode_loop 0 s)
unfolding decode_trimmed
decode_trimmed-digits s h = ground (arith, h)

-- An id of 64 bits, written, and the same with an `@` in front, is read back, unless its 13 digits
-- are all decimal: then `decode` takes them for a decimal number.
pub decode-encode :
    (v : ℕ)
    → v < 2 ^ 64
    → let s = encode v in
      let read = if all is_ascii_digit s then parse_digits 0 s else some v in
      (decode s ≡ read) × (decode (b'@' ∷ s) ≡ read)
decode-encode v h =
    let s = encode v in
    let plain : All IsPlain s = encode-IsPlain v in
    let read : decode_trimmed s ≡ (if all is_ascii_digit s then parse_digits 0 s else some v) =
      decode_trimmed-digits s (encode-is_empty v)
      ∙ ap (λ o. if all is_ascii_digit s then parse_digits 0 s else o) (decode_loop-encode v h) in
    (decode-plain s plain ∙ read, decode-at s plain ∙ read)
