-- ===== src/Slopio/Telnet/Grammar.antt =====
-- A telnet stream as a sequence of items, each with its bytes on the wire, the data that it carries
-- and the refusal that it calls for. It is the reference that the parser is held against.
use slopmud.Prelude.{
  ℕ, ◌≡◌, ◌≢◌, ◌⊎◌, refl, Bool, true, false, List, [], ◌∷◌, ◌++◌, some, append-nil, append_assoc,
  arith, All, ◌==◌, if◌then◌else◌,
}
use slopmud.Slopio.Telnet.{data_bytes, subneg, IacParser, Progress, feed, start, parse}

-- What may stand between `IAC SB opt` and `IAC SE`.
pub data Inner : Type 0 where
  byte : ℕ → Inner
  literal_iac : Inner
  unknown : ℕ → Inner

pub data Item : Type 0 where
  byte : ℕ → Item
  literal_iac : Item
  negotiation : ℕ → ℕ → Item
  subnegotiation : ℕ → List Inner → Item
  other : ℕ → Item

abbrev pub IsNegotiation : ℕ → Type 0
IsNegotiation c = (c ≡ 253) ⊎ (c ≡ 254) ⊎ (c ≡ 251) ⊎ (c ≡ 252)

abbrev pub IsInner : Inner → Type 0
IsInner (byte b) = b ≢ 255
IsInner literal_iac = Unit
IsInner (unknown b) = (b ≢ 240) × (b ≢ 255)

-- The items that can be told apart on the wire.
abbrev pub IsItem : Item → Type 0
IsItem (byte b) = b ≢ 255
IsItem literal_iac = Unit
IsItem (negotiation c opt) = IsNegotiation c
IsItem (subnegotiation opt inner) = All IsInner inner
IsItem (other c) = (c ≢ 255) × (c ≢ 250) × (IsNegotiation c → ⊥)

abbrev pub inner_wire : Inner → List ℕ
inner_wire (byte b) = b ∷ []
inner_wire literal_iac = 255 ∷ 255 ∷ []
inner_wire (unknown b) = 255 ∷ b ∷ []

abbrev pub inners_wire : List Inner → List ℕ
inners_wire [] = []
inners_wire (i ∷ is) = inner_wire i ++ inners_wire is

abbrev pub wire : Item → List ℕ
wire (byte b) = b ∷ []
wire literal_iac = 255 ∷ 255 ∷ []
wire (negotiation c opt) = 255 ∷ c ∷ opt ∷ []
wire (subnegotiation opt inner) = 255 ∷ 250 ∷ opt ∷ (inners_wire inner ++ 255 ∷ 240 ∷ [])
wire (other c) = 255 ∷ c ∷ []

-- The data bytes: those of plain bytes and of escaped IACs, and nothing of commands.
abbrev pub carried : Item → List ℕ
carried (byte b) = b ∷ []
carried literal_iac = 255 ∷ []
carried _ = []

-- DO is answered by WONT, WILL by DONT, anything else by nothing.
abbrev pub answer : Bool → Item → List ℕ
answer true (negotiation c opt) =
    if c == 253 then 255 ∷ 252 ∷ opt ∷ [] else if c == 251 then 255 ∷ 254 ∷ opt ∷ [] else []
answer _ _ = []

inner-step :
    (refuse : Bool) (g : Progress) (opt : ℕ) (buf : List ℕ) (i : Inner) (rest : List ℕ)
    → IsInner i
    → g.state ≡ subneg (some opt) false buf
    → (buf' : List ℕ) × (feed refuse g (inner_wire i ++ rest)
        ≡ feed refuse (record g { state = subneg (some opt) false buf' }) rest)
unfolding feed
inner-step refuse g opt buf (byte b) rest h e = (buf ++ b ∷ [], ground arith)
inner-step refuse g opt buf literal_iac rest h e = (buf ++ 255 ∷ [], ground arith)
inner-step refuse g opt buf (unknown b) rest h e = (buf, ground arith)

-- The whole block up to its `IAC SE` leaves no trace but the state.
inners-step :
    (refuse : Bool) (g : Progress) (opt : ℕ) (buf : List ℕ) (is : List Inner) (rest : List ℕ)
    → All IsInner is
    → g.state ≡ subneg (some opt) false buf
    → feed refuse g (inners_wire is ++ 255 ∷ 240 ∷ rest)
      ≡ feed refuse (record g { state = data_bytes }) rest
unfolding feed
inners-step refuse g opt buf [] rest h e = ground arith
inners-step refuse g opt buf (i ∷ is) rest h e =
    let (buf', p) = inner-step refuse g opt buf i (inners_wire is ++ 255 ∷ 240 ∷ rest) h.0 e in
    rw (append_assoc, p)
      (inners-step refuse (record g { state = subneg (some opt) false buf' }) opt buf' is rest h.1
        refl)

answer-subnegotiation :
    (refuse : Bool) (opt : ℕ) (is : List Inner) → answer refuse (subnegotiation opt is) ≡ []
answer-subnegotiation true opt is = refl
answer-subnegotiation false opt is = refl

-- One item, met between commands.
item-step :
    (refuse : Bool) (g : Progress) (i : Item) (rest : List ℕ)
    → IsItem i
    → g.state ≡ data_bytes
    → feed refuse g (wire i ++ rest)
      ≡ feed refuse
          (record {
            state = data_bytes;
            out = g.out ++ carried i;
            replies = g.replies ++ answer refuse i;
          })
          rest
unfolding feed
item-step refuse g (byte b) rest h e = ground (arith, append-nil g.replies)
item-step refuse g literal_iac rest h e = ground (arith, append-nil g.replies)
item-step refuse g (negotiation c opt) rest h e =
    ground (arith, append-nil g.replies, append-nil g.out)
item-step refuse g (other c) rest h e = ground (arith, append-nil g.replies, append-nil g.out)
item-step refuse g (subnegotiation opt is) rest h e =
    rw (e, append_assoc, append-nil, answer-subnegotiation refuse opt is, append-nil)
      (inners-step refuse (record g { state = subneg (some opt) false [] }) opt [] is rest h refl)

abbrev pub wires : List Item → List ℕ
wires [] = []
wires (i ∷ is) = wire i ++ wires is

abbrev pub carried_all : List Item → List ℕ
carried_all [] = []
carried_all (i ∷ is) = carried i ++ carried_all is

abbrev pub answers : Bool → List Item → List ℕ
answers refuse [] = []
answers refuse (i ∷ is) = answer refuse i ++ answers refuse is

feed-wires :
    (refuse : Bool) (g : Progress) (is : List Item)
    → All IsItem is
    → g.state ≡ data_bytes
    → feed refuse g (wires is) ≡ record {
      state = data_bytes;
      out = g.out ++ carried_all is;
      replies = g.replies ++ answers refuse is;
    }
unfolding feed
feed-wires refuse g [] h e = ground (arith, append-nil g.out, append-nil g.replies)
feed-wires refuse g (i ∷ is) h e =
    rw (item-step refuse g i (wires is) h.0 e, ← append_assoc, ← append_assoc)
      (feed-wires refuse
        (record {
          state = data_bytes;
          out = g.out ++ carried i;
          replies = g.replies ++ answer refuse i;
        })
        is h.1 refl)

-- From a parser between commands, a chunk that is the wire form of any items leaves it between
-- commands, and gives exactly the data that the items carry and the refusals that they call for,
-- in order; no refusal if `refuse_negotiation` is off.
pub parse-wires :
    (p : IacParser) (is : List Item)
    → p.state ≡ data_bytes
    → All IsItem is
    → parse p (wires is) ≡ (p, carried_all is, answers p.refuse_negotiation is)
unfolding parse
parse-wires p is e h = ground (arith, feed-wires p.refuse_negotiation (start p.state) is h e)
