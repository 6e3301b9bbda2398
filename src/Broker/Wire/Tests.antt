-- ===== src/Broker/Wire/Tests.antt =====
-- A bot's attach request and the short messages, written and read back.
use slopmud.Prelude.{ℕ, ◌≡◌, refl, ◌≢◌, true, some, List, [], ◌∷◌, ◌++◌, arith, nat_eq, list_eq}
use slopmud.Prelude.Bytes.{to_be_bytes}
use slopmud.Slopio.Stream.{chunk, Result}
use slopmud.Slopio.Frame.{FrameReader, read_frame, write_frame_parts}
use slopmud.Mudproto.{Parsed, ok, malformed}
use slopmud.Mudproto.Session.{session_to_be_bytes}
use slopmud.Mudproto.Shard.{
  req_attach, req_detach, req_input, resp_output, resp_err, detach, input, output, err_msg,
  parse_req, parse_resp,
}
use slopmud.Mudproto.Chat
use slopmud.Mudproto.Shard.Totality.{parsers_never_panic}
use slopmud.Broker.Wire.{header, write_req, attach_body}
use slopmud.Broker.Wire.RoundTrip.{Sent}
use slopmud.Broker.Wire.Messages.{parse-header, attach_reaches_shard}

abbrev elf : List ℕ
elf = 101 ∷ 108 ∷ 102 ∷ []

abbrev bob : List ℕ
bob = 98 ∷ 111 ∷ 98 ∷ []

abbrev body : List ℕ
body = 7 ∷ 0 ∷ 1 ∷ 65 ∷ 3 ∷ 101 ∷ 108 ∷ 102 ∷ 0 ∷ 0 ∷ 0 ∷ 98 ∷ 111 ∷ 98 ∷ []

abbrev session_five : List ℕ → List ℕ
session_five rest = 0 ∷ 0 ∷ 0 ∷ 0 ∷ 0 ∷ 0 ∷ 0 ∷ 0 ∷ 0 ∷ 0 ∷ 0 ∷ 0 ∷ 0 ∷ 0 ∷ 0 ∷ 5 ∷ rest

abbrev wire : List ℕ
wire = 0 ∷ 0 ∷ 0 ∷ 31 ∷ 1 ∷ session_five body

attach_body_lem : attach_body true (some (65 ∷ [])) elf [] [] [] bob ≡ body
unfolding attach_body to_be_bytes
attach_body_lem = refl

written :
    write_req req_attach 5 (attach_body true (some (65 ∷ [])) elf [] [] [] bob) ≡ Result.ok wire
unfolding write_req write_frame_parts attach_body session_to_be_bytes to_be_bytes
written = refl

abbrev reader : FrameReader
reader = record { inner = chunk wire ∷ []; buf = []; max_frame_len = 1024 }

attach_reaches_shard_example :
    (p : List ℕ) × ((read_frame reader).0 ≡ Result.ok (some p))
    × (parse_req p ≡ ok (Sent 5 true (some (65 ∷ [])) elf [] [] [] bob))
unfolding header attach_body session_to_be_bytes to_be_bytes
attach_reaches_shard_example =
    attach_reaches_shard reader wire [] 5 true (some (65 ∷ [])) elf [] [] [] bob (omega arith)
      written (omega arith) (omega arith) refl

parse-header_example :
    (parse_req (header req_detach 5 ++ []) ≡ ok (detach 5))
    × (parse_req (header req_input 5 ++ bob) ≡ ok (input 5 bob))
    × (parse_resp (header resp_output 5 ++ bob) ≡ ok (output 5 bob))
    × (parse_resp (header resp_err 5 ++ bob) ≡ ok (err_msg 5 bob))
parse-header_example = parse-header 5 (omega arith) bob

leave_with_text :
    Chat.parse_req (2 ∷ session_five (1 ∷ []))
    ≡ Parsed.err (malformed "leave must be exactly 17 bytes")
unfolding Chat.parse_req
leave_with_text = refl

parsers_never_panic_example :
    (parse_req (1 ∷ session_five (7 ∷ 255 ∷ [])) ≢ Parsed.panic)
    × (parse_resp (1 ∷ session_five (7 ∷ 255 ∷ [])) ≢ Parsed.panic)
    × (Chat.parse_req (1 ∷ session_five (7 ∷ 255 ∷ [])) ≢ Parsed.panic)
    × (Chat.parse_event (1 ∷ session_five (7 ∷ 255 ∷ [])) ≢ Parsed.panic)
parsers_never_panic_example = parsers_never_panic (1 ∷ session_five (7 ∷ 255 ∷ []))
