-- ===== src/Slopio/Telnet/Tests.antt =====
-- The unit tests of telnet.rs, and the theorems at concrete inputs.
use slopmud.Prelude.{◌+◌, ◌≤◌, ◌≡◌, refl, true, List, [], ◌∷◌, arith}
use slopmud.Slopio.Telnet.{data_bytes, negotiate, IacParser, new, parse}
use slopmud.Slopio.Telnet.Chunks.{parse-append, parse_bounded}
use slopmud.Slopio.Telnet.Grammar.{
  Inner, Item, negotiation, subnegotiation, other, wires, parse-wires,
}

abbrev fresh : IacParser
fresh = record { state = data_bytes; refuse_negotiation = true }

decodes_escaped_iac : parse fresh (255 ∷ 255 ∷ 97 ∷ []) ≡ (fresh, 255 ∷ 97 ∷ [], [])
unfolding parse
decodes_escaped_iac = refl

refuses_do_and_will :
    parse new (255 ∷ 253 ∷ 1 ∷ 255 ∷ 251 ∷ 3 ∷ 120 ∷ [])
    ≡ (fresh, 120 ∷ [], 255 ∷ 252 ∷ 1 ∷ 255 ∷ 254 ∷ 3 ∷ [])
unfolding parse new
refuses_do_and_will = refl

handles_split_negotiation :
    (parse (record fresh { state = negotiate 253 }) (7 ∷ 122 ∷ [])).2 ≡ 255 ∷ 252 ∷ 7 ∷ []
unfolding parse
handles_split_negotiation = refl

parse-append_example :
    parse fresh (255 ∷ 253 ∷ 7 ∷ 122 ∷ []) ≡ (fresh, 122 ∷ [], 255 ∷ 252 ∷ 7 ∷ [])
unfolding parse
parse-append_example = parse-append fresh (255 ∷ 253 ∷ []) (7 ∷ 122 ∷ [])

parse_bounded_example : (0 + 3 ≤ 3 + 2) × (data_bytes ≡ data_bytes → 0 + 3 ≤ 3)
unfolding parse
parse_bounded_example = parse_bounded fresh (255 ∷ 253 ∷ 7 ∷ [])

abbrev items : List Item
items =
    Item.byte 97
    ∷ negotiation 253 24
    ∷ subnegotiation 24 (Inner.byte 120 ∷ Inner.literal_iac ∷ Inner.unknown 7 ∷ [])
    ∷ other 249
    ∷ Item.literal_iac
    ∷ []

parse-wires_example : parse fresh (wires items) ≡ (fresh, 97 ∷ 255 ∷ [], 255 ∷ 252 ∷ 24 ∷ [])
parse-wires_example = parse-wires fresh items refl (omega arith)
