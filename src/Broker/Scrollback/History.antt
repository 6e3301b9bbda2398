-- ===== src/Broker/Scrollback/History.antt =====
-- The scrollback against the whole history of lines.
use slopmud.Prelude.{
  ℕ, suc, ◌+◌, ◌-◌, ap₂, Bool, ◌&&◌, ◌||◌, ◌==◌, ◌=?◌, map, any, ◌≤◌, ◌<◌, min, max, ◌≡◌, refl, sym,
  ap, ◌∙◌, inl, inr, List, [], ◌∷◌, ◌++◌, append-nil, append_assoc, arith, ltb, leb, if◌then◌else◌,
  Bool-cases, nat_eq, list_eq, length, take, drop, is_empty, length-append, length-drop, take_all,
  reverse, filter, drop-append, drop-drop, drop_all, reverse-take, take_one,
}
use slopmud.Prelude.Text.{Text, trim, lower, to_ascii_lowercase, starts_with, contains}
use slopmud.Broker.Scrollback.{
  ScrollLine, Scrollback, new, pop_while, push_line, last_n, matches, search_loop, search,
}

abbrev pub push_all : Scrollback → List ScrollLine → Scrollback
push_all s [] = s
push_all s (l ∷ ls) = push_all (push_line s l) ls

drop_next :
    (k : ℕ) (l : ScrollLine) (ls : List ScrollLine)
    → k ≤ length ls
    → drop (suc (length ls) - k) (l ∷ ls) ≡ drop (length ls - k) ls
drop_next k l ls h =
    let e : suc (length ls) - k ≡ suc (length ls - k) = omega arith in
    ap (λ (t : ℕ). drop t (l ∷ ls)) e

drop_none : (k : ℕ) (ls : List ScrollLine) → length ls ≤ k → drop (length ls - k) ls ≡ ls
drop_none k ls h = let e : length ls - k ≡ 0 = omega arith in ap (λ (t : ℕ). drop t ls) e

pop_while-drop : (k : ℕ) (ls : List ScrollLine) → pop_while k ls ≡ drop (length ls - k) ls
unfolding pop_while
pop_while-drop k [] = sym (drop_all (0 - k) [] (omega arith))
pop_while-drop k (l ∷ ls) = elim (Bool-cases (ltb k (length (l ∷ ls)))) [
  | inl e ↦ ground (arith, pop_while-drop k ls, drop_next k l ls)
  | inr e ↦ ground (arith, drop_none k (l ∷ ls))
]

-- What the buffer holds of a history, behind what it held before.
push_all-lines :
    (s : Scrollback) (ls : List ScrollLine)
    → length s.lines ≤ s.capacity
    → ((push_all s ls).lines ≡ drop (length (s.lines ++ ls) - s.capacity) (s.lines ++ ls))
unfolding push_line
push_all-lines s [] h = rw append-nil (sym (drop_none s.capacity s.lines h))
push_all-lines s (l ∷ ls) h =
    let whole : List ScrollLine = s.lines ++ l ∷ [] in
    let j : ℕ = length whole - s.capacity in
    let kept = pop_while-drop s.capacity whole in
    let m : ℕ = s.capacity in
    push_all-lines (push_line s l) ls (omega (arith, ap length kept, length-drop j whole))
    ∙ ap (λ (t : List ScrollLine). drop (length t - m) t)
        (ap (λ t. t ++ ls) kept ∙ sym (drop-append j whole ls (omega arith)))
    ∙ drop-drop (length (drop j (whole ++ ls)) - m) j (whole ++ ls)
    ∙ ap (λ (k : ℕ). drop k (whole ++ ls))
        (omega (arith, length-drop j (whole ++ ls), length-append whole ls))
    ∙ ap (λ (t : List ScrollLine). drop (length t - m) t) (append_assoc s.lines (l ∷ []) ls)

-- `last_n` after any history gives its last `n` lines, or as many as the capacity (at least 1)
-- allows, in their order.
pub last_n-push_all :
    (capacity n : ℕ) (history : List ScrollLine)
    → last_n (push_all (new capacity) history) n
      ≡ drop (length history - min n (max capacity 1)) history
unfolding new last_n
last_n-push_all capacity n history =
    let m : ℕ = max capacity 1 in
    let kept : List ScrollLine = drop (length history - m) history in
    let lines = push_all-lines (new capacity) history (omega arith) in
    ap (λ (t : List ScrollLine). reverse (take (min n (length t)) (reverse t))) lines
    ∙ reverse-take (min n (length kept)) kept (omega arith)
    ∙ drop-drop (length kept - min n (length kept)) (length history - m) history
    ∙ ap (λ (k : ℕ). drop k history) (omega (arith, length-drop (length history - m) history))

search_loop-filter :
    (q : Text) (limit : ℕ) (out ls : List ScrollLine)
    → length out < max limit 1
    → search_loop q limit out ls ≡ out ++ take (max limit 1 - length out) (filter (matches q) ls)
unfolding search_loop
search_loop-filter q limit out [] h =
    sym (ap (λ t. out ++ t) (take_all (max limit 1 - length out) [] (omega arith)) ∙ append-nil out)
search_loop-filter q limit out (l ∷ ls) h =
    let room : ℕ = max limit 1 - length out in
    let found : List ScrollLine = out ++ l ∷ [] in
    let rest : List ScrollLine = filter (matches q) ls in
    elim (Bool-cases (matches q l)) [
      | inr e ↦ ground (arith, e, search_loop-filter q limit out ls h)
      | inl e ↦ elim (Bool-cases (leb (max limit 1) (length found))) [
        | inl full ↦
            let last : room - 1 ≡ 0 = ground (arith, length-append out (l ∷ []), full) in
            ground (arith, e, full, hit last)
        | inr more ↦
            let next : room - 1 ≡ max limit 1 - length found =
              omega (arith, length-append out (l ∷ [])) in
            ground (
              arith,
              e,
              more,
              search_loop-filter q limit found ls (ground (arith, more)),
              append_assoc out (l ∷ []) (take (max limit 1 - length found) rest),
              hit next,
            )
      ]
    ]
  where
    hit :
        {k : ℕ}
        → max limit 1 - length out - 1 ≡ k
        → out ++ take (max limit 1 - length out) (l ∷ filter (matches q) ls)
          ≡ out ++ l ∷ take k (filter (matches q) ls)
    hit left =
        ap (λ t. out ++ t)
          (take_one (max limit 1 - length out) l (filter (matches q) ls) (omega arith)
            ∙ ap (λ k. l ∷ take k (filter (matches q) ls)) left)

-- A letter in lower case: 32 is added to the codes of A to Z.
abbrev pub lower_of : Text → Text
lower_of t = map (λ c. if leb 65 c && leb c 90 then c + 32 else c) t

-- What is left of a text from each position on.
abbrev pub suffixes : Text → List Text
suffixes [] = [] ∷ []
suffixes (c ∷ t) = (c ∷ t) ∷ suffixes t

-- Whether one text stands in another at some position.
abbrev pub stands_in : Text → Text → Bool
stands_in p t = any (λ rest. take (length p) rest =? p) (suffixes t)

starts_with-take : (t p : Text) → starts_with t p ≡ (take (length p) t =? p)
unfolding starts_with
starts_with-take t [] = refl
starts_with-take [] (c ∷ p) = refl
starts_with-take (x ∷ t) (c ∷ p) = ap (λ b. (x == c) && b) (starts_with-take t p)

contains-stands_in : (t p : Text) → contains t p ≡ stands_in p t
unfolding contains
contains-stands_in [] p = ground (arith, starts_with-take [] p)
contains-stands_in (x ∷ t) p = ap₂ ◌||◌ (starts_with-take (x ∷ t) p) (contains-stands_in t p)

search-matches :
    (s : Scrollback) (q : Text) (limit : ℕ)
    → search s q limit ≡ (
        if is_empty (trim q)
        then []
        else take (max limit 1) (filter (matches (to_ascii_lowercase (trim q))) (reverse s.lines)))
unfolding search
search-matches s q limit =
    ground (arith, search_loop-filter (to_ascii_lowercase (trim q)) limit [] (reverse s.lines))

-- `search` finds the lines in whose text the query stands at some position, up to ASCII case and the
-- query's outer spaces, the newest first, and of them the first `limit`, but at least one; an empty
-- query finds none.
pub search-filter :
    (s : Scrollback) (q : Text) (limit : ℕ)
    → search s q limit ≡ (
        if is_empty (trim q)
        then []
        else take (max limit 1) (
            filter
              (λ (l : ScrollLine). stands_in (lower_of (trim q)) (lower_of l.text))
              (reverse s.lines)))
unfolding matches to_ascii_lowercase lower
search-filter s q limit =
    search-matches s q limit
    ∙ ap
        (λ (test : ScrollLine → Bool).
          if is_empty (trim q) then [] else take (max limit 1) (filter test (reverse s.lines)))
        (λ i l. contains-stands_in (lower_of l.text) (lower_of (trim q)) i)
