-- ===== src/Broker/Wire.antt =====
-- What the broker (crates/slopmud/src/main.rs) and the shard (apps/shard_01/src/main.rs) write to
-- each other: a header of type and session id, and a body, as the two parts of a frame.
pub mod RoundTrip
pub mod Messages
mod Tests
use Prim.Native.Nat.{bit_and, bit_or}
use slopmud.Prelude.{
  ℕ, zero, suc, ◌+◌, ◌-◌, ◌*◌, ◌/◌, ◌%◌, ◌^◌, ◌≤◌, ◌<◌, min, max, ◌≡◌, refl, sym, ap, ap₂, ◌∙◌,
  subst, ◌≢◌, ◌↔◌, ◌⊎◌, inl, inr, Bool, true, false, not, ◌&&◌, ◌||◌, Option, none, some, List, [],
  ◌∷◌, ◌++◌, map, append-nil, append_assoc, arith, ltb, leb, ◌==◌, if◌then◌else◌, ==_iff,
  Bool-cases, Option-cases, Eq, ◌=?◌, =?_iff, =?_refl, nat_eq, list_eq, list_beq, list_beq_iff,
  length, get_elem?, take, drop, is_empty, any, all, concat, All, length-append, take-append-drop,
  length-take, length-drop, take_front, drop_front, take_all, take_front_of, drop_front_of,
  take-append_left, take_past, drop_past, get_elem?-front, get_elem?-append_left, All-append,
  All-left,
}
use slopmud.Prelude.Bytes.{to_be_bytes}
use slopmud.Slopio.Stream.{Result}
use slopmud.Slopio.Frame.{write_frame_parts}
use slopmud.Mudproto.Session.{SessionId, session_to_be_bytes}

-- `hdr`, the message type and the session id.
unfoldable pub header : ℕ → SessionId → List ℕ
header t session = t ∷ session_to_be_bytes session

-- `write_req` of the broker: what it hands to the stream.
unfoldable pub write_req : ℕ → SessionId → List ℕ → Result (List ℕ)
unfolding header
write_req t session body = write_frame_parts (header t session ∷ body ∷ [])

-- `write_resp_async` of the shard.
unfoldable pub write_resp_async : ℕ → SessionId → List ℕ → Result (List ℕ)
unfolding header
write_resp_async t session body = write_frame_parts (header t session ∷ body ∷ [])

-- A token of at most 255 bytes behind its length.
unfoldable pub short_token : List ℕ → List ℕ
short_token s = min (length s) 255 ∷ take (min (length s) 255) s

-- `flags` before the length of `auth` is looked at; `is_some` is a test on `auth`.
unfoldable pub attach_flags : Bool → Bool → ℕ
attach_flags is_bot has_auth =
    let flags = if is_bot then bit_or 0 0x01 else 0 in
    let flags = if has_auth then bit_or flags 0x02 else flags in bit_or flags 0x04

-- The flags and the auth blob; a blob whose length does not fit 16 bits is dropped, and its flag.
unfoldable pub attach_auth : Bool → Option (List ℕ) → List ℕ
unfolding attach_flags
attach_auth is_bot none = attach_flags is_bot false ∷ []
attach_auth is_bot (some a) =
    if leb (length a) 0xffff
    then attach_flags is_bot true ∷ to_be_bytes 2 (length a) ++ a
    else bit_and (attach_flags is_bot true) (0xff - 0x02) ∷ []

unfoldable pub attach_body :
    Bool → Option (List ℕ) → List ℕ → List ℕ → List ℕ → List ℕ → List ℕ → List ℕ
unfolding attach_auth short_token
attach_body is_bot auth race class sex pronouns name =
    attach_auth is_bot auth
    ++ (short_token race
        ++ (short_token class ++ (short_token sex ++ (short_token pronouns ++ name))))
