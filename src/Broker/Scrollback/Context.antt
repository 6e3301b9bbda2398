-- ===== src/Broker/Scrollback/Context.antt =====
-- What a report finds around a line: the line, and its neighbours.
use slopmud.Prelude.{
  ℕ, suc, ◌+◌, ◌-◌, ◌≤◌, min, ◌≡◌, refl, sym, ap, ◌∙◌, subst, inl, inr, false, none, some, List, [],
  ◌∷◌, ◌++◌, append_assoc, arith, ltb, ◌==◌, Bool-cases, nat_eq, list_eq, length, take, drop, All,
  length-append, take-append-drop, length-take, length-drop, take_all, take_one, take_over,
  take_least, All-right,
}
use slopmud.Broker.Scrollback.{
  ScrollLine, Scrollback, index_of, context_loop, find_id, target_of, find_with_context,
}

abbrev Others : ℕ → List ScrollLine → Type 0
Others id ls = All (λ l. (l.id == id) ≡ false) ls

index_of-front :
    (id i : ℕ) (older : List ScrollLine) (l : ScrollLine) (newer : List ScrollLine)
    → Others id older
    → l.id ≡ id
    → index_of id i (older ++ l ∷ newer) ≡ some (i + length older)
unfolding index_of
index_of-front id i [] l newer others e = ground arith
index_of-front id i (x ∷ older) l newer others e =
    ground (arith, others.0, index_of-front id (i + 1) older l newer others.1 e)

index_of-none : (id i : ℕ) (ls : List ScrollLine) → Others id ls → index_of id i ls ≡ none
unfolding index_of
index_of-none id i [] others = refl
index_of-none id i (x ∷ ls) others = ground (arith, others.0, index_of-none id (i + 1) ls others.1)

-- The loop over lines that come before `start`, over lines within, and over lines after `end`.
context_loop-skip :
    (start end i : ℕ) (before ls : List ScrollLine)
    → i + length before ≤ start
    → context_loop start end i (before ++ ls) ≡ context_loop start end (i + length before) ls
unfolding context_loop
context_loop-skip start end i [] ls h = ap (λ (k : ℕ). context_loop start end k ls) (omega arith)
context_loop-skip start end i (x ∷ before) ls h =
    let e : i + 1 + length before ≡ i + suc (length before) = omega arith in
    ground (
      arith,
      context_loop-skip start end (i + 1) before ls (omega arith),
      ap (λ k. context_loop start end k ls) e,
    )

context_loop-take :
    (start end i : ℕ) (ls : List ScrollLine)
    → start ≤ i
    → i ≤ end + 1
    → context_loop start end i ls ≡ take (end + 1 - i) ls
unfolding context_loop
context_loop-take start end i [] h k = sym (take_all (end + 1 - i) [] (omega arith))
context_loop-take start end i (x ∷ ls) h k = elim (Bool-cases (ltb end i)) [
  | inl e ↦
      let none_left : end + 1 - i ≡ 0 = ground (arith, e) in
      ground (arith, e, ap (λ t. take t (x ∷ ls)) none_left)
  | inr e ↦
      let more : end + 1 - i - 1 ≡ end + 1 - (i + 1) = omega arith in
      ground (
        arith,
        e,
        take_one (end + 1 - i) x ls (ground (arith, e)),
        ap (λ t. take t ls) more,
        context_loop-take start end (i + 1) ls (omega arith) (ground (arith, e)),
      )
]

find_id-front :
    (id : ℕ) (older : List ScrollLine) (l : ScrollLine) (newer : List ScrollLine)
    → Others id older
    → l.id ≡ id
    → find_id id (older ++ l ∷ newer) ≡ some l
unfolding find_id
find_id-front id [] l newer others e = ground arith
find_id-front id (x ∷ older) l newer others e =
    ground (arith, others.0, find_id-front id older l newer others.1 e)

-- The lines around the one behind `older`.
context_loop-around :
    (ctx : ℕ) (older : List ScrollLine) (l : ScrollLine) (newer : List ScrollLine)
    → let n = length older in
      context_loop
        (n - ctx)
        (min (n + ctx) (length (older ++ l ∷ newer) - 1))
        0
        (older ++ l ∷ newer)
      ≡ drop (n - ctx) older ++ l ∷ take ctx newer
context_loop-around ctx older l newer =
    let n : ℕ = length older in
    let start : ℕ = n - ctx in
    let end : ℕ = min (n + ctx) (length (older ++ l ∷ newer) - 1) in
    let near : List ScrollLine = drop start older in
    let k : ℕ = min ctx (length newer) in
    let count : end + 1 - (0 + length (take start older)) ≡ length near + suc k =
      omega (
        arith,
        length-append older (l ∷ newer),
        length-take start older,
        length-drop start older,
      ) in
    ap (context_loop start end 0) (
      ap (λ t. t ++ l ∷ newer) (sym (take-append-drop start older))
      ∙ append_assoc (take start older) near (l ∷ newer))
    ∙ context_loop-skip start end 0 (take start older) (near ++ l ∷ newer)
        (omega (arith, length-take start older))
    ∙ context_loop-take start end (0 + length (take start older)) (near ++ l ∷ newer)
        (omega (arith, length-take start older))
        (omega (arith, length-take start older, length-append older (l ∷ newer)))
    ∙ ap (λ t. take t (near ++ l ∷ newer)) count
    ∙ take_over near (l ∷ newer) (suc k)
    ∙ ap (λ t. near ++ l ∷ t) (take_least ctx newer)

-- `find_with_context` finds the oldest line with the id, and gives with it up to `ctx` lines on
-- either side, in their order.
pub find_with_context-around :
    (s : Scrollback) (id ctx : ℕ) (older : List ScrollLine) (l : ScrollLine)
    (newer : List ScrollLine)
    → s.lines ≡ older ++ l ∷ newer
    → All (λ o. (o.id == id) ≡ false) older
    → l.id ≡ id
    → find_with_context s id ctx ≡ some (l, drop (length older - ctx) older ++ l ∷ take ctx newer)
unfolding find_with_context target_of
find_with_context-around s id ctx older l newer e others here =
    let near : List ScrollLine = drop (length older - ctx) older in
    let rest =
      All-right (λ x. (x.id == id) ≡ false) (take (length older - ctx) older) near
        (subst (Others id) (sym (take-append-drop (length older - ctx) older)) others) in
    let n : ℕ = length older in
    let at : index_of id 0 (older ++ l ∷ newer) ≡ some n =
      index_of-front id 0 older l newer others here ∙ ap some {x = 0 + n} (omega arith) in
    ap (λ ls. find_with_context (record s { lines = ls }) id ctx) e
    ∙ rw
        (
          find_with_context,
          at,
          target_of,
          context_loop-around ctx older l newer,
          find_id-front id near l (take ctx newer) rest here,
        )
        (ap (λ c. some (l, c)) (context_loop-around ctx older l newer))

-- An id that no line has is not found.
find_with_context-none :
    (s : Scrollback) (id ctx : ℕ) → Others id s.lines → find_with_context s id ctx ≡ none
unfolding find_with_context
find_with_context-none s id ctx others =
    rw (find_with_context, index_of-none id 0 s.lines others) refl
