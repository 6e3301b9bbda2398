-- ===== src/Mudproto/Shard.antt =====
-- crates/mudproto/src/shard.rs: parsing of shard requests and responses.
pub mod Totality
use Prim.Native.Nat.{bit_and}
use slopmud.Prelude.{
  ℕ, zero, suc, ◌+◌, ◌-◌, ◌*◌, ◌/◌, ◌%◌, ◌^◌, ◌≤◌, ◌<◌, min, max, ◌≡◌, refl, sym, ap, ap₂, ◌∙◌,
  subst, ◌≢◌, ◌↔◌, ◌⊎◌, inl, inr, Bool, true, false, not, ◌&&◌, ◌||◌, Option, none, some, List, [],
  ◌∷◌, ◌++◌, map, append-nil, append_assoc, arith, ltb, leb, ◌==◌, if◌then◌else◌, ==_iff,
  Bool-cases, Option-cases, Eq, ◌=?◌, =?_iff, =?_refl, nat_eq, list_eq, list_beq, list_beq_iff,
  length, get_elem?, take, drop, is_empty, any, all, concat, All, length-append, take-append-drop,
  length-take, length-drop, take_front, drop_front, take_all, take_front_of, drop_front_of,
  take-append_left, take_past, drop_past, get_elem?-front, get_elem?-append_left, All-append,
  All-left,
}
use slopmud.Prelude.Bytes.{from_be_bytes}
use slopmud.Mudproto.{
  ProtoError, too_short, unknown_type, malformed, Parsed, ok, err, panic, index, slice, slice_from,
  require, ◌>>=◌, ◌>>◌,
}
use slopmud.Mudproto.Session.{SessionId, len, session_from_be_bytes}

abbrev pub req_attach : ℕ
req_attach = 0x01

abbrev pub req_detach : ℕ
req_detach = 0x02

abbrev pub req_input : ℕ
req_input = 0x03

abbrev pub resp_output : ℕ
resp_output = 0x81

abbrev pub resp_err : ℕ
resp_err = 0x82

-- The tokens of `has_build`, each there or not.
pub record Build : Type 0 where
  pub race : Option (List ℕ)
  pub class : Option (List ℕ)
  pub sex : Option (List ℕ)
  pub pronouns : Option (List ℕ)

pub record Attach : Type 0 where
  pub session : SessionId
  pub is_bot : Bool
  pub auth : Option (List ℕ)
  pub build : Build
  pub name : List ℕ

pub data ShardReq : Type 0 where
  attach : Attach → ShardReq
  detach : SessionId → ShardReq
  input : SessionId → List ℕ → ShardReq

pub data ShardResp : Type 0 where
  output : SessionId → List ℕ → ShardResp
  err_msg : SessionId → List ℕ → ShardResp

abbrev pub no_build : Build
no_build = record { race = none; class = none; sex = none; pronouns = none }

-- `(flags & mask) != 0`.
abbrev pub has_flag : ℕ → ℕ → Bool
has_flag flags mask = not (bit_and flags mask == 0)

-- `auth`, and the cursor `i` behind it.
unfoldable pub parse_auth : List ℕ → ℕ → Bool → Parsed (Option (List ℕ) × ℕ)
parse_auth p i false = ok (none, i)
parse_auth p i true = do
  require p (i + 2)
  b0 ← index p i
  b1 ← index p (i + 1)
  let n = from_be_bytes (b0 ∷ b1 ∷ [])
  require p (i + 2 + n)
  a ← slice p (i + 2) (i + 2 + n)
  ok (some a, i + 2 + n)

-- A length byte at `i` and its token; the payload must hold `more` bytes behind the token.
unfoldable pub parse_token : List ℕ → ℕ → ℕ → Parsed (List ℕ × ℕ)
parse_token p i more = do
  n ← index p i
  require p (i + 1 + n + more)
  t ← slice p (i + 1) (i + 1 + n)
  ok (t, i + 1 + n)

unfoldable pub parse_build : List ℕ → ℕ → Bool → Parsed (Build × ℕ)
unfolding parse_token
parse_build p i false = ok (no_build, i)
parse_build p i true = do
  require p (i + 1)
  race ← parse_token p i 1
  class ← parse_token p race.1 1
  sex ← parse_token p class.1 1
  pronouns ← parse_token p sex.1 0
  ok (
    record {
      race = some race.0;
      class = some class.0;
      sex = some sex.0;
      pronouns = some pronouns.0;
    },
    pronouns.1,
  )

-- The arm REQ_ATTACH of `parse_req`.
unfoldable pub parse_attach : List ℕ → SessionId → Parsed ShardReq
unfolding parse_auth parse_build
parse_attach p session = do
  require p (1 + 16 + 1)
  flags ← index p (1 + 16)
  auth ← parse_auth p (1 + 16 + 1) (has_flag flags 0x02)
  build ← parse_build p auth.1 (has_flag flags 0x04)
  name ← slice_from p build.1
  ok (
      attach (record {
        session = session;
        is_bot = has_flag flags 0x01;
        auth = auth.0;
        build = build.0;
        name = name;
      }))

-- The `match t` of `parse_req`.
unfoldable pub req_of : List ℕ → ℕ → SessionId → Parsed ShardReq
unfolding parse_attach
req_of p t session =
    if t == req_attach
    then parse_attach p session
    else if t == req_detach
    then if length p == 1 + 16
      then ok (detach session)
      else err (malformed "detach must be exactly 17 bytes")
    else if t == req_input
    then (do line ← slice_from p (1 + 16); ok (input session line))
    else err (unknown_type t)

unfoldable pub parse_req : List ℕ → Parsed ShardReq
unfolding req_of
parse_req p =
    if ltb (length p) (1 + len)
    then err (too_short (1 + len) (length p))
    else do t ← index p 0; sid ← slice p 1 (1 + 16); req_of p t (session_from_be_bytes sid)

unfoldable pub resp_of : List ℕ → ℕ → SessionId → Parsed ShardResp
resp_of p t session =
    if t == resp_output
    then (do line ← slice_from p (1 + 16); ok (output session line))
    else if t == resp_err
    then (do msg ← slice_from p (1 + 16); ok (err_msg session msg))
    else err (unknown_type t)

unfoldable pub parse_resp : List ℕ → Parsed ShardResp
unfolding resp_of
parse_resp p =
    if ltb (length p) (1 + len)
    then err (too_short (1 + len) (length p))
    else do t ← index p 0; sid ← slice p 1 (1 + 16); resp_of p t (session_from_be_bytes sid)
