-- ===== src/Shard/RaftLog.antt =====
-- apps/shard_01/src/raftlog.rs: a log of entries of any type. The file is its text, or missing. Reading and writing JSON is serde_json's: `encode` and `decode` stand for it. Writes are
-- taken to succeed.
use slopmud.Prelude.{
  ℕ, zero, suc, ◌+◌, ◌-◌, ◌*◌, ◌/◌, ◌%◌, ◌^◌, ◌≤◌, ◌<◌, min, max, ◌≡◌, refl, sym, ap, ap₂, ◌∙◌,
  subst, ◌≢◌, ◌↔◌, ◌⊎◌, inl, inr, Bool, true, false, not, ◌&&◌, ◌||◌, Option, none, some, List, [],
  ◌∷◌, ◌++◌, map, append-nil, append_assoc, arith, ltb, leb, ◌==◌, if◌then◌else◌, ==_iff,
  Bool-cases, Option-cases, Eq, ◌=?◌, =?_iff, =?_refl, nat_eq, list_eq, list_beq, list_beq_iff,
  length, get_elem?, take, drop, is_empty, any, all, concat, All, length-append, take-append-drop,
  length-take, length-drop, take_front, drop_front, take_all, take_front_of, drop_front_of,
  take-append_left, take_past, drop_past, get_elem?-front, get_elem?-append_left, All-append,
  All-left, reverse, reverse-append, reverse-reverse, filter, length-reverse, drop-append,
  drop-drop, drop_all, reverse-take, take_one, take_over, take_least, All-right, List-cases,
  All-filter, map_or, map_or_intro, if_intro,
}
use slopmud.Prelude.Text.{Text, trim}
use slopmud.Shard.World.{add_u64}
pub mod Recovery
mod Tests

pub record RaftEnvelope (E : Type 0) : Type 0 where
  pub index : ℕ
  pub ms : ℕ
  pub entry : E

-- `recent_cap`.
abbrev pub recent_cap : ℕ
recent_cap = 200

-- `while len >= cap { pop_front }`
unfoldable pub pop_over : ℕ → List Text → List Text
pop_over cap [] = []
pop_over cap (l ∷ ls) = if leb cap (length (l ∷ ls)) then pop_over cap ls else l ∷ ls

unfoldable pub push_recent : List Text → Text → List Text
unfolding pop_over
push_recent recent line = pop_over recent_cap recent ++ line ∷ []

-- `recent_lines`: the last n, at least one.
unfoldable pub recent_lines : List Text → ℕ → List Text
recent_lines recent n = reverse (take (min (max n 1) (length recent)) (reverse recent))

-- What is read of a file: the envelopes, the greatest index and the recent lines.
pub record Replay (E : Type 0) : Type 0 where
  pub replayed : List (RaftEnvelope E)
  pub max_index : ℕ
  pub recent : List Text

-- The log in memory, with its file.
pub record RaftLog : Type 0 where
  pub next_index : ℕ
  pub recent : List Text
  pub file : Option Text

-- One envelope in front of the others.
abbrev pub and_then : {E : Type 0} → RaftEnvelope E → Replay E → Replay E
and_then env r = record r { replayed = env ∷ r.replayed }

unfoldable pub onto_line : ℕ → List Text → List Text
onto_line c [] = (c ∷ []) ∷ []
onto_line c (l ∷ ls) = (c ∷ l) ∷ ls

-- `BufRead::lines`: up to each line end, and what stands after the last one, if anything. A carriage return
-- in front of a line end is left for `trim`, which the only caller applies to each line.
unfoldable pub split_lines : Text → List Text
unfolding onto_line
split_lines [] = []
split_lines (c ∷ t) = let rest = split_lines t in if c == 10 then [] ∷ rest else onto_line c rest

-- The lines in order; a line that does not parse is an error.
unfoldable pub load_replay :
    {E : Type 0} → (Text → Option (RaftEnvelope E)) → List Text → ℕ → List Text → Option (Replay E)
unfolding push_recent
load_replay decode [] max_index recent =
    some (record { replayed = []; max_index = max_index; recent = recent })
load_replay {E = E} decode (line ∷ lines) max_index recent =
    let raw : Text = trim line in
    if is_empty raw
    then load_replay decode lines max_index recent
    else map_or none
        (λ (env : RaftEnvelope E).
          map_or none (λ r. some (and_then env r))
            (load_replay decode lines (max max_index env.index) (push_recent recent raw)))
        (decode raw)

unfoldable pub opened : {E : Type 0} → Option Text → Replay E → RaftLog × List (RaftEnvelope E)
unfolding add_u64
opened file r = (
  record { next_index = max (add_u64 r.max_index 1) 1; recent = r.recent; file = file },
  r.replayed,
)

-- A missing file is an empty log.
unfoldable pub open_log :
    {E : Type 0}
    → (Text → Option (RaftEnvelope E))
    → Option Text
    → Option (RaftLog × List (RaftEnvelope E))
unfolding load_replay opened split_lines
open_log decode file =
    map_or none (λ r. some (opened file r))
      (load_replay decode (split_lines (map_or [] (λ t. t) file)) 0 [])

unfoldable pub append :
    {E : Type 0} → (RaftEnvelope E → Text) → RaftLog → ℕ → E → RaftEnvelope E × RaftLog
unfolding push_recent add_u64
append {E = E} encode log ms entry =
    let env : RaftEnvelope E = record { index = log.next_index; ms = ms; entry = entry } in
    (
      env,
      record {
        next_index = add_u64 log.next_index 1;
        recent = push_recent log.recent (encode env);
        file = some (map_or [] (λ t. t) log.file ++ encode env ++ 10 ∷ []);
      },
    )
