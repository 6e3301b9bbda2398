-- ===== src/Slopio/Telnet.antt =====
-- crates/slopio/src/telnet.rs: `IacParser`, which strips telnet commands from a byte stream that
-- arrives in chunks, and answers negotiations by refusals.
pub mod Chunks
pub mod Grammar
mod Tests
use slopmud.Prelude.{
  ℕ, Bool, true, false, ◌||◌, List, [], ◌∷◌, ◌++◌, Option, none, some, ◌==◌, if◌then◌else◌,
}

abbrev pub iac_byte : ℕ
iac_byte = 255

abbrev pub dont : ℕ
dont = 254

abbrev pub do_byte : ℕ
do_byte = 253

abbrev pub wont : ℕ
wont = 252

abbrev pub will : ℕ
will = 251

abbrev pub sb : ℕ
sb = 250

abbrev pub se : ℕ
se = 240

-- `enum State`; `subneg opt iac_seen buf`.
pub data State : Type 0 where
  data_bytes : State
  iac : State
  negotiate : ℕ → State
  subneg : Option ℕ → Bool → List ℕ → State

pub record IacParser : Type 0 where
  pub state : State
  pub refuse_negotiation : Bool

-- The parser, and the two vectors that `parse` fills: `out` and `replies`.
pub record Progress : Type 0 where
  pub state : State
  pub out : List ℕ
  pub replies : List ℕ

unfoldable pub new : IacParser
new = record { state = data_bytes; refuse_negotiation = true }

unfoldable pub set_refuse_negotiation : IacParser → Bool → IacParser
set_refuse_negotiation p on = record p { refuse_negotiation = on }

-- The replies to a negotiation command and its option.
unfoldable pub refusal : Bool → ℕ → ℕ → List ℕ
refusal refuse cmd opt =
    if refuse
    then if cmd == do_byte
      then iac_byte ∷ wont ∷ opt ∷ []
      else if cmd == will
      then iac_byte ∷ dont ∷ opt ∷ []
      else []
    else []

-- The state after the byte that follows IAC, unless it is an escaped IAC.
unfoldable pub command : ℕ → State
command b =
    if b == do_byte || b == dont || b == will || b == wont
    then negotiate b
    else if b == sb
    then subneg none false []
    else data_bytes

-- One round of the loop of `parse`, by the state.
unfoldable pub step : Bool → Progress → State → ℕ → Progress
unfolding refusal command
step refuse g data_bytes b =
    if b == iac_byte then record g { state = iac } else record g { out = g.out ++ b ∷ [] }
step refuse g iac b =
    if b == iac_byte
    then record g { out = g.out ++ iac_byte ∷ []; state = data_bytes }
    else record g { state = command b }
step refuse g (negotiate cmd) b = record g {
  replies = g.replies ++ refusal refuse cmd b;
  state = data_bytes;
}
step refuse g (subneg none seen buf) b = record g { state = subneg (some b) seen buf }
step refuse g (subneg (some opt) true buf) b =
    if b == se
    then record g { state = data_bytes }
    else if b == iac_byte
    then record g { state = subneg (some opt) false (buf ++ iac_byte ∷ []) }
    else record g { state = subneg (some opt) false buf }
step refuse g (subneg (some opt) false buf) b =
    if b == iac_byte
    then record g { state = subneg (some opt) true buf }
    else record g { state = subneg (some opt) false (buf ++ b ∷ []) }

unfoldable pub feed : Bool → Progress → List ℕ → Progress
unfolding step
feed refuse g [] = g
feed refuse g (b ∷ chunk) = feed refuse (step refuse g g.state b) chunk

abbrev pub start : State → Progress
start s = record { state = s; out = []; replies = [] }

-- `parse`: the parser after the chunk, the data and the replies.
unfoldable pub parse : IacParser → List ℕ → IacParser × List ℕ × List ℕ
unfolding feed
parse p chunk =
    let g = feed p.refuse_negotiation (start p.state) chunk in
    (record p { state = g.state }, g.out, g.replies)
