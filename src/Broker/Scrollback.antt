-- ===== src/Broker/Scrollback.antt =====
-- crates/slopmud/src/main.rs: `Scrollback`, the last lines that a session was shown, and how a
-- report finds lines in it.
pub mod History
pub mod Context
mod Tests
use slopmud.Prelude.{
  ℕ, zero, suc, ◌+◌, ◌-◌, ◌*◌, ◌/◌, ◌%◌, ◌^◌, ◌≤◌, ◌<◌, min, max, ◌≡◌, refl, sym, ap, ap₂, ◌∙◌,
  subst, ◌≢◌, ◌↔◌, ◌⊎◌, inl, inr, Bool, true, false, not, ◌&&◌, ◌||◌, Option, none, some, List, [],
  ◌∷◌, ◌++◌, map, append-nil, append_assoc, arith, ltb, leb, ◌==◌, if◌then◌else◌, ==_iff,
  Bool-cases, Option-cases, Eq, ◌=?◌, =?_iff, =?_refl, nat_eq, list_eq, list_beq, list_beq_iff,
  length, get_elem?, take, drop, is_empty, any, all, concat, All, length-append, take-append-drop,
  length-take, length-drop, take_front, drop_front, take_all, take_front_of, drop_front_of,
  take-append_left, take_past, drop_past, get_elem?-front, get_elem?-append_left, All-append,
  All-left, reverse, reverse-append, reverse-reverse, filter, length-reverse, drop-append,
  drop-drop, drop_all, reverse-take,
}
use slopmud.Prelude.Text.{Text, trim, to_ascii_lowercase, contains}

pub record ScrollLine : Type 0 where
  pub id : ℕ
  pub ts_unix_ms : ℕ
  pub text : Text

-- `lines` from the oldest on.
pub record Scrollback : Type 0 where
  pub capacity : ℕ
  pub lines : List ScrollLine

unfoldable pub new : ℕ → Scrollback
new capacity = record { capacity = max capacity 1; lines = [] }

-- `while self.lines.len() > self.cap { pop_front }`.
unfoldable pub pop_while : ℕ → List ScrollLine → List ScrollLine
pop_while capacity [] = []
pop_while capacity (l ∷ ls) =
    if ltb capacity (length (l ∷ ls)) then pop_while capacity ls else l ∷ ls

unfoldable pub push_line : Scrollback → ScrollLine → Scrollback
unfolding pop_while
push_line s l = record s { lines = pop_while s.capacity (s.lines ++ l ∷ []) }

unfoldable pub last_n : Scrollback → ℕ → List ScrollLine
last_n s n = reverse (take (min n (length s.lines)) (reverse s.lines))

unfoldable pub matches : Text → ScrollLine → Bool
matches q_lc l = contains (to_ascii_lowercase l.text) q_lc

-- The loop of `search` over the lines from the newest on; `out` is what it has pushed.
unfoldable pub search_loop : Text → ℕ → List ScrollLine → List ScrollLine → List ScrollLine
unfolding matches
search_loop q_lc limit out [] = out
search_loop q_lc limit out (l ∷ ls) =
    let found = out ++ l ∷ [] in
    let more = search_loop q_lc limit found ls in
    let next = search_loop q_lc limit out ls in
    if matches q_lc l then if leb (max limit 1) (length found) then found else more else next

unfoldable pub search : Scrollback → Text → ℕ → List ScrollLine
unfolding search_loop
search s q limit =
    let q = trim q in
    if is_empty q then [] else search_loop (to_ascii_lowercase q) limit [] (reverse s.lines)

-- `idx`: where the first line with the id stands.
unfoldable pub index_of : ℕ → ℕ → List ScrollLine → Option ℕ
index_of id i [] = none
index_of id i (l ∷ ls) = if l.id == id then some i else index_of id (i + 1) ls

-- The lines from `start` to `end`, both included; `i` counts from the first line.
unfoldable pub context_loop : ℕ → ℕ → ℕ → List ScrollLine → List ScrollLine
context_loop start end i [] = []
context_loop start end i (l ∷ ls) =
    let rest = context_loop start end (i + 1) ls in
    if ltb i start then rest else if ltb end i then [] else l ∷ rest

-- `iter().find(|l| l.id == id)`.
unfoldable pub find_id : ℕ → List ScrollLine → Option ScrollLine
find_id id [] = none
find_id id (l ∷ ls) = if l.id == id then some l else find_id id ls

unfoldable pub target_of : ℕ → ℕ → List ScrollLine → List ScrollLine → Option ScrollLine
unfolding find_id
target_of id idx lines context = elim (find_id id context) [
  | some l ↦ some l
  | none ↦ get_elem? lines idx
]

unfoldable pub find_with_context : Scrollback → ℕ → ℕ → Option (ScrollLine × List ScrollLine)
unfolding index_of context_loop target_of
find_with_context s id ctx = elim (index_of id 0 s.lines) [
  | none ↦ none
  | some idx ↦
      let context = context_loop (idx - ctx) (min (idx + ctx) (length s.lines - 1)) 0 s.lines in
      elim (target_of id idx s.lines context) [ none ↦ none | some l ↦ some (l, context) ]
]
