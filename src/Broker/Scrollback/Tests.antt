-- ===== src/Broker/Scrollback/Tests.antt =====
-- The theorems at a small history.
use slopmud.Prelude.{
  ℕ, ◌+◌, ◌-◌, min, max, ◌≡◌, refl, some, [], ◌∷◌, ◌++◌, nat_eq, list_eq, take, drop, reverse,
  filter,
}
use slopmud.Prelude.Text.{
  text, trim, trim_start_matches, trim_end_matches, is_whitespace, to_ascii_lowercase, lower,
}
use slopmud.Broker.Scrollback.{ScrollLine, Scrollback, find_with_context, new, last_n, search}
use slopmud.Broker.Scrollback.History.{
  push_all, last_n-push_all, lower_of, stands_in, search-filter,
}
use slopmud.Broker.Scrollback.Context.{find_with_context-around}

abbrev line : ℕ → ScrollLine
line id = record { id = id; ts_unix_ms = 1000 + id; text = text "Hello" }

abbrev session : Scrollback
session = record { capacity = 4; lines = line 1 ∷ line 2 ∷ line 3 ∷ line 4 ∷ [] }

find_with_context-around_example :
    find_with_context session 3 1
    ≡ some (line 3, drop 1 (line 1 ∷ line 2 ∷ []) ++ line 3 ∷ take 1 (line 4 ∷ []))
find_with_context-around_example =
    find_with_context-around session 3 1 (line 1 ∷ line 2 ∷ []) (line 3) (line 4 ∷ []) refl
      (refl, (refl, tt)) refl

last_n-push_all_example :
    last_n (push_all (new 2) (line 1 ∷ line 2 ∷ line 3 ∷ [])) 5
    ≡ drop (3 - min 5 (max 2 1)) (line 1 ∷ line 2 ∷ line 3 ∷ [])
last_n-push_all_example = last_n-push_all 2 5 (line 1 ∷ line 2 ∷ line 3 ∷ [])

search-filter_example :
    search session (text " hell") 0
    ≡ take 1 (
        filter
          (λ (l : ScrollLine). stands_in (lower_of (text "hell")) (lower_of l.text))
          (reverse session.lines))
unfolding trim trim_start_matches trim_end_matches is_whitespace to_ascii_lowercase lower
search-filter_example = search-filter session (text " hell") 0
