-- ===== src/Mudproto/Chat.antt =====
-- crates/mudproto/src/chat.rs: parsing of chat requests and events.
use slopmud.Prelude.{ℕ, ◌+◌, List, ltb, ◌==◌, if◌then◌else◌, nat_eq, list_eq, length, is_empty}
use slopmud.Mudproto.{
  too_short, unknown_type, malformed, Parsed, ok, err, index, slice, slice_from, ◌>>=◌,
}
use slopmud.Mudproto.Session.{SessionId, len, session_from_be_bytes}

abbrev pub req_join : ℕ
req_join = 0x01

abbrev pub req_leave : ℕ
req_leave = 0x02

abbrev pub req_say : ℕ
req_say = 0x03

abbrev pub evt_line : ℕ
evt_line = 0x81

abbrev pub evt_err : ℕ
evt_err = 0x82

pub data ChatReq : Type 0 where
  join : SessionId → List ℕ → ChatReq
  leave : SessionId → ChatReq
  say : SessionId → List ℕ → ChatReq

pub data ChatEvent : Type 0 where
  line : List ℕ → ChatEvent
  err_msg : List ℕ → ChatEvent

-- The `match t` of `parse_req`.
unfoldable pub req_of : List ℕ → ℕ → SessionId → Parsed ChatReq
unfolding slice_from
req_of p t session =
    if t == req_join
    then (do name ← slice_from p (1 + 16); ok (join session name))
    else if t == req_leave
    then if length p == 1 + 16
      then ok (leave session)
      else err (malformed "leave must be exactly 17 bytes")
    else if t == req_say
    then (do msg ← slice_from p (1 + 16); ok (say session msg))
    else err (unknown_type t)

unfoldable pub parse_req : List ℕ → Parsed ChatReq
unfolding index slice req_of
parse_req p =
    if ltb (length p) (1 + len)
    then err (too_short (1 + len) (length p))
    else do t ← index p 0; sid ← slice p 1 (1 + 16); req_of p t (session_from_be_bytes sid)

unfoldable pub parse_event : List ℕ → Parsed ChatEvent
unfolding index slice_from
parse_event p = if is_empty p then err (too_short 1 0) else do
  t ← index p 0
  if t == evt_line
      then (do rest ← slice_from p 1; ok (line rest))
      else if t == evt_err
      then (do rest ← slice_from p 1; ok (err_msg rest))
      else err (unknown_type t)
