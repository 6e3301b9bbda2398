-- ===== src/Shard/RaftLog/Recovery.antt =====
-- Starting again from the file of a log.
use slopmud.Prelude.{
  ℕ, ◌+◌, ◌-◌, ◌^◌, ◌<◌, min, max, ◌≡◌, refl, ap, ◌∙◌, Bool, true, false, Option, none, some, List,
  [], ◌∷◌, ◌++◌, arith, ◌==◌, if◌then◌else◌, Bool-cases, nat_eq, list_eq, is_empty, any, List-cases,
  map_or,
}
use slopmud.Prelude.Text.{Text, trim}
use slopmud.Shard.World.{add_u64}
use slopmud.Shard.RaftLog.{
  split_lines, onto_line, RaftEnvelope, Replay, RaftLog, push_recent, and_then, load_replay, opened,
  open_log, append,
}

-- An envelope behind the others.
abbrev and_last : {E : Type 0} → RaftEnvelope E → Text → Replay E → Replay E
and_last env line r = record {
  replayed = r.replayed ++ env ∷ [];
  max_index = max r.max_index env.index;
  recent = push_recent r.recent line;
}

-- The text of a file, empty if it is missing.
abbrev pub content : Option Text → Text
content file = map_or [] (λ t. t) file

-- Every line has its end.
abbrev pub is_whole : Text → Bool
is_whole [] = true
is_whole (c ∷ []) = c == 10
is_whole (c ∷ d ∷ t) = is_whole (d ∷ t)

split_lines-one :
    (line : Text)
    → is_empty line ≡ false
    → any (λ c. c == 10) line ≡ false
    → split_lines (line ++ 10 ∷ []) ≡ line ∷ []
unfolding split_lines onto_line
split_lines-one [] full clean = absurd (ground (arith, full))
split_lines-one (c ∷ []) full clean = ground (arith, clean)
split_lines-one (c ∷ d ∷ line) full clean =
    ground (arith, clean, split_lines-one (d ∷ line) refl (ground (arith, clean)))

-- Something is read of a text that is not empty.
some_line : (c : ℕ) (t : Text) → is_empty (split_lines (c ∷ t)) ≡ false
unfolding split_lines onto_line
some_line c t = ground (arith, List-cases (split_lines t))

onto_line-append :
    (c : ℕ) (ls : List Text) (line : Text)
    → is_empty ls ≡ false
    → onto_line c (ls ++ line ∷ []) ≡ onto_line c ls ++ line ∷ []
unfolding onto_line
onto_line-append c [] line e = absurd (ground (arith, e))
onto_line-append c (l ∷ ls) line e = refl

split_lines-append :
    (t line : Text)
    → is_whole t ≡ true
    → is_empty line ≡ false
    → any (λ c. c == 10) line ≡ false
    → split_lines (t ++ line ++ 10 ∷ []) ≡ split_lines t ++ line ∷ []
unfolding split_lines
split_lines-append [] line whole full clean = split_lines-one line full clean
split_lines-append (c ∷ []) line whole full clean =
    ground (arith, whole, split_lines-one line full clean)
split_lines-append (c ∷ d ∷ t) line whole full clean = ground (
  arith,
  split_lines-append (d ∷ t) line whole full clean,
  onto_line-append c (split_lines (d ∷ t)) line (some_line d t),
  Bool-cases (c == 10),
)

is_whole-append : (t line : Text) → is_whole t ≡ true → is_whole (t ++ line ++ 10 ∷ []) ≡ true
is_whole-append [] [] h = refl
is_whole-append [] (c ∷ []) h = refl
is_whole-append [] (c ∷ d ∷ line) h = is_whole-append [] (d ∷ line) refl
is_whole-append (c ∷ []) [] h = refl
is_whole-append (c ∷ []) (d ∷ line) h = is_whole-append [] (d ∷ line) refl
is_whole-append (c ∷ d ∷ t) line h = is_whole-append (d ∷ t) line h

-- What the encoder and the decoder of JSON do: an object is written on one line, without space around it,
-- and read back.
module _ {E : Type 0} (encode : RaftEnvelope E → Text) (decode : Text → Option (RaftEnvelope E))
    (decode-encode : (env : RaftEnvelope E) → decode (encode env) ≡ some env)
    (compact : (env : RaftEnvelope E)
      → (trim (encode env) ≡ encode env)
        × (is_empty (encode env) ≡ false)
        × (any (λ c. c == 10) (encode env) ≡ false)) where
  load_replay-append :
      (lines : List Text) (env : RaftEnvelope E) (max_index : ℕ) (recent : List Text)
      → load_replay decode (lines ++ encode env ∷ []) max_index recent
        ≡ map_or none
            (λ r. some (and_last env (encode env) r))
            (load_replay decode lines max_index recent)
  unfolding load_replay
  load_replay-append [] env max_index recent = read_last (trim (encode env)) (compact env).0
    where
      nothing : Option (Replay E)
      nothing = some (record { replayed = []; max_index = max_index; recent = recent })

      only : Text → RaftEnvelope E → Option (Replay E)
      only raw e = some (record {
        replayed = e ∷ [];
        max_index = max max_index e.index;
        recent = push_recent recent raw;
      })

      read_last :
          (raw : Text)
          → raw ≡ encode env
          → (if is_empty raw then nothing else map_or none (only raw) (decode raw))
            ≡ only (encode env) env
      read_last raw e = ground (arith, e, (compact env).1, decode-encode env)
  load_replay-append (line ∷ lines) env max_index recent =
      step (is_empty (trim line)) (decode (trim line)) (load_replay-append lines env)
    where
      last : Option (Replay E) → Option (Replay E)
      last o = map_or none (λ r. some (and_last env (encode env) r)) o

      first : RaftEnvelope E → Option (Replay E) → Option (Replay E)
      first e o = map_or none (λ r. some (and_then e r)) o

      load : List Text → ℕ → List Text → Option (Replay E)
      load = load_replay decode

      commute : (e : RaftEnvelope E) (o : Option (Replay E)) → first e (last o) ≡ last (first e o)
      commute e none = refl
      commute e (some r) = refl

      step :
          (b : Bool) (d : Option (RaftEnvelope E))
          → ((m : ℕ) (rs : List Text)
              → load (lines ++ encode env ∷ []) m rs ≡ last (load lines m rs))
          → (if b
              then load (lines ++ encode env ∷ []) max_index recent
              else map_or none
                  (λ e. first e (
                    load
                      (lines ++ encode env ∷ [])
                      (max max_index e.index)
                      (push_recent recent (trim line))))
                  d)
            ≡ last (
                if b
                then load lines max_index recent
                else map_or none
                    (λ e.
                      first e (load lines (max max_index e.index) (push_recent recent (trim line))))
                    d)
      step true d rest = rest max_index recent
      step false none rest = refl
      step false (some e) rest =
          let m : ℕ = max max_index e.index in
          let rs : List Text = push_recent recent (trim line) in
          ap (first e) (rest m rs) ∙ commute e (load lines m rs)

  -- When a start from a file whose lines all have their ends gives the log in memory and the envelopes, it
  -- does after another entry is appended: the log in memory, and the envelopes with the new one at the
  -- end; and all lines have their ends again. The encoder writes one line without space around it, and
  -- what it writes is read back; indices are not used up.
  pub open_log-append :
      (log : RaftLog) (envs : List (RaftEnvelope E)) (ms : ℕ) (entry : E)
      → log.next_index < 2 ^ 64 - 1
      → is_whole (content log.file) ≡ true
      → open_log decode log.file ≡ some (log, envs)
      → (open_log decode (append encode log ms entry).1.file
          ≡ some ((append encode log ms entry).1, envs ++ (append encode log ms entry).0 ∷ []))
        × (is_whole (content (append encode log ms entry).1.file) ≡ true)
  unfolding append open_log opened add_u64
  open_log-append log envs ms entry small whole h = (
    ap (λ ls. map_or none (λ r. some (opened (some written) r)) (load_replay decode ls 0 []))
          (split_lines-append (content log.file) (encode env) whole (compact env).1 (compact env).2)
        ∙ ap (map_or none (λ r. some (opened (some written) r))) (load_replay-append lines env 0 [])
        ∙ reopen (load_replay decode lines 0 []) h,
    is_whole-append (content log.file) (encode env) whole,
  )
    where
      env : RaftEnvelope E
      env = record { index = log.next_index; ms = ms; entry = entry }

      lines : List Text
      lines = split_lines (content log.file)

      written : Text
      written = content log.file ++ encode env ++ 10 ∷ []

      inner : {x y : RaftLog × List (RaftEnvelope E)} → some x ≡ some y → x ≡ y
      inner {x} {y} e = cc

      reopen :
          (o : Option (Replay E))
          → map_or none (λ r. some (opened log.file r)) o ≡ some (log, envs)
          → map_or none
              (λ r. some (opened (some written) r))
              (map_or none (λ r. some (and_last env (encode env) r)) o)
            ≡ some ((append encode log ms entry).1, envs ++ env ∷ [])
      reopen none e = absurd (ground (arith, e))
      reopen (some r) e =
          let same : opened log.file r ≡ (log, envs) = inner e in
          let index : max (min (r.max_index + 1) (2 ^ 64 - 1)) 1 ≡ log.next_index =
            ap (λ (l : RaftLog × List (RaftEnvelope E)). l.0.next_index) same in
          let next : max (min (max r.max_index log.next_index + 1) (2 ^ 64 - 1)) 1
              ≡ min (log.next_index + 1) (2 ^ 64 - 1) =
            omega (arith, index, small) in
          λ i. some (
            record {
              next_index = next i;
              recent = push_recent (same i).0.recent (encode env);
              file = some written;
            },
            (same i).1 ++ env ∷ [],
          )
