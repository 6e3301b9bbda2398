-- ===== src/Shard/RaftLog/Tests.antt =====
-- The theorem at a log of numbers, each written as one character between braces, 100 above it.
use slopmud.Prelude.{
  ℕ, ◌+◌, ◌-◌, ◌==◌, any, true, ◌≡◌, refl, false, Option, none, some, [], ◌∷◌, ◌++◌, arith, nat_eq,
  list_eq, is_empty,
}
use slopmud.Prelude.Text.{Text, trim, trim_start_matches, trim_end_matches, is_whitespace}
use slopmud.Shard.World.{add_u64}
use slopmud.Shard.RaftLog.{
  RaftEnvelope, RaftLog, split_lines, load_replay, opened, open_log, append,
}
use slopmud.Shard.RaftLog.Recovery.{content, is_whole, open_log-append}

abbrev encode : RaftEnvelope ℕ → Text
encode e = b'{' ∷ (e.index + 100) ∷ (e.ms + 100) ∷ (e.entry + 100) ∷ b'}' ∷ []

abbrev decode : Text → Option (RaftEnvelope ℕ)
decode (a ∷ i ∷ m ∷ n ∷ b ∷ []) = some (record { index = i - 100; ms = m - 100; entry = n - 100 })
decode s = none

abbrev empty_log : RaftLog
empty_log = record { next_index = 1; recent = []; file = none }

back : (n : ℕ) → n + 100 - 100 ≡ n
back n = omega arith

decode-encode : (e : RaftEnvelope ℕ) → decode (encode e) ≡ some e
decode-encode e =
    λ i. some (record { index = back e.index i; ms = back e.ms i; entry = back e.entry i })

compact :
    (e : RaftEnvelope ℕ)
    → (trim (encode e) ≡ encode e)
      × (is_empty (encode e) ≡ false)
      × (any (λ c. c == 10) (encode e) ≡ false)
unfolding trim trim_start_matches trim_end_matches is_whitespace
compact e = (refl, refl, ground arith)

open_log-append_example :
    (open_log decode (append encode empty_log 5 42).1.file
      ≡ some ((append encode empty_log 5 42).1, [] ++ (append encode empty_log 5 42).0 ∷ []))
    × (is_whole (content (append encode empty_log 5 42).1.file) ≡ true)
unfolding open_log load_replay opened add_u64 split_lines
open_log-append_example =
    open_log-append encode decode decode-encode compact empty_log [] 5 42 (omega arith) refl refl
