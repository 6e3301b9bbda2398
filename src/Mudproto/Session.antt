-- ===== src/Mudproto/Session.antt =====
-- crates/mudproto/src/session.rs: a session id is a 128-bit number.
use Prim.Native.Nat.{bit_xor}
use slopmud.Prelude.{ℕ, ◌/◌, ◌%◌, ◌^◌, ◌<◌, ◌≡◌, List, arith, nat_eq, list_eq}
use slopmud.Prelude.Bytes.{to_be_bytes, from_be_bytes, from_be_bytes-to_be_bytes}

abbrev pub SessionId : Type 0
SessionId = ℕ

abbrev pub len : ℕ
len = 16

abbrev pub IsSessionId : SessionId → Type 0
IsSessionId s = s < 2 ^ 128

unfoldable pub session_to_be_bytes : SessionId → List ℕ
session_to_be_bytes s = to_be_bytes 16 s

unfoldable pub session_from_be_bytes : List ℕ → SessionId
session_from_be_bytes b = from_be_bytes b

unfoldable pub short : SessionId → ℕ
short s = bit_xor (s % 2 ^ 64) (s / 2 ^ 64 % 2 ^ 64)

pub session_from_be_bytes-session_to_be_bytes :
    (s : SessionId) → IsSessionId s → session_from_be_bytes (session_to_be_bytes s) ≡ s
unfolding session_from_be_bytes session_to_be_bytes
session_from_be_bytes-session_to_be_bytes s h = from_be_bytes-to_be_bytes 16 s (omega arith)
