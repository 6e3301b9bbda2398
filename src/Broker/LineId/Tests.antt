-- ===== src/Broker/LineId/Tests.antt =====
-- Ids at concrete values, and the theorems at concrete inputs.
use slopmud.Prelude.{
  ℕ, ◌+◌, ◌*◌, ◌^◌, ◌≡◌, refl, some, List, [], ◌∷◌, arith, if◌then◌else◌, nat_eq, list_eq, all,
}
use slopmud.Prelude.Text.{
  text, trim, trim_start_matches, trim_end_matches, is_whitespace, is_ascii_digit, lower,
}
use slopmud.Broker.LineId.{
  letter, encode_loop, encode, val, shift_in, decode_loop, parse_digits, decode_trimmed, decode,
  timestamp_unix_ms, LineIdGen, advance, next_id, epoch_unix_ms,
}
use slopmud.Broker.LineId.RoundTrip.{decode-encode}
use slopmud.Broker.LineId.Order.{next_id-IsAscending, run, IsAscending}

encode_32 : encode 32 ≡ text "0000000000010"
unfolding encode encode_loop letter
encode_32 = refl

-- An id without a letter is read as a decimal number.
decode_32 : decode (encode 32) ≡ some 10
unfolding encode encode_loop letter decode decode_trimmed parse_digits shift_in trim
    trim_start_matches trim_end_matches is_whitespace is_ascii_digit
decode_32 = refl

confusions : decode (text " @oO0iL1z ") ≡ some (1 * 32 ^ 3 + 1 * 32 ^ 2 + 1 * 32 + 31)
unfolding decode decode_trimmed decode_loop val shift_in lower trim trim_start_matches
    trim_end_matches is_whitespace is_ascii_digit
confusions = refl

decode-encode_example :
    let s = encode 123456789123456789 in
    let read = if all is_ascii_digit s then parse_digits 0 s else some 123456789123456789 in
    (decode s ≡ read) × (decode (b'@' ∷ s) ≡ read)
decode-encode_example = decode-encode 123456789123456789 (omega arith)

abbrev node : LineIdGen
node = record { node_bits = 1025; last_ts_ms = epoch_unix_ms + 7; seq = 4094 }

abbrev clock : List ℕ
clock = (epoch_unix_ms + 5) ∷ (epoch_unix_ms + 7) ∷ (epoch_unix_ms + 9) ∷ []

next_id-IsAscending_example :
    IsAscending
      (next_id node (epoch_unix_ms + 6)).1
      (run (next_id node (epoch_unix_ms + 6)).0 clock).1
    × (timestamp_unix_ms (next_id node (epoch_unix_ms + 6)).1
        ≡ (next_id node (epoch_unix_ms + 6)).0.last_ts_ms)
unfolding next_id advance
next_id-IsAscending_example =
    next_id-IsAscending node (epoch_unix_ms + 6) clock (omega arith) (omega arith)
      (omega arith, (omega arith, (omega arith, (omega arith, tt)))) (omega arith)
