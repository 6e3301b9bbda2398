-- ===== src/Slopio/Line.antt =====
-- crates/slopio/src/line.rs: `LineReader`. `memchr` is a parameter of the reader.
pub mod Chunking
pub mod Limits
mod Tests
use slopmud.Prelude.{
  ℕ, ◌+◌, ◌-◌, ◌*◌, Bool, true, false, ◌&&◌, List, [], ◌∷◌, ◌++◌, Option, none, some, ◌==◌, ltb,
  length, get_elem?, take, drop, is_empty, max, if◌then◌else◌,
}
use slopmud.Slopio.Stream.{
  Read, chunk, failed, Result, ok, err, invalid_data, unexpected_eof, read_error,
}

pub record LineReader : Type 0 where
  pub inner : List Read
  pub buf : List ℕ
  pub max_line_len : ℕ

unfoldable pub new : List Read → LineReader
new inner = record { inner = inner; buf = []; max_line_len = 8 * 1024 }

unfoldable pub with_capacity : List Read → ℕ → LineReader
with_capacity inner capacity = record { inner = inner; buf = []; max_line_len = max capacity 1 }

unfoldable pub set_max_line_len : LineReader → ℕ → LineReader
set_max_line_len r n = record r { max_line_len = max n 1 }

-- `b[i] == c`, for an index in range.
abbrev pub is_at : List ℕ → ℕ → ℕ → Bool
is_at b i c = elim (get_elem? b i) [ some x ↦ x == c | none ↦ false ]

-- The end of the line when a byte `c` at its end is left out.
abbrev before : List ℕ → ℕ → ℕ → ℕ
before b end c = if ltb 0 end && is_at b (end - 1) c then end - 1 else end

unfoldable pub trim_crlf : List ℕ → List ℕ
trim_crlf b = take (before b (before b (length b) 10) 13) b

-- `read_line` returns its result, and leaves the reader changed.
abbrev pub Outcome : Type 0
Outcome = Result (Option (List ℕ)) × LineReader

-- The end of the stream.
abbrev at_eof : LineReader → Outcome
at_eof r = if is_empty r.buf then (ok none, r) else (err unexpected_eof, r)

module _ (memchr : ℕ → List ℕ → Option ℕ) where
  -- What a round of the loop does before it reads: it returns a buffered line or refuses a long one.
  unfoldable pub buffered : LineReader → Option Outcome
  unfolding trim_crlf
  buffered r = elim (memchr 10 r.buf) [
    | some i ↦
        some (ok (some (trim_crlf (take (i + 1) r.buf))), record r { buf = drop (i + 1) r.buf })
    | none ↦ if ltb r.max_line_len (length r.buf) then some (err invalid_data, r) else none
  ]

  unfoldable pub read_loop : LineReader → List Read → Outcome
  unfolding buffered
  read_loop r [] = elim (buffered (record r { inner = [] })) [
    | some o ↦ o
    | none ↦ at_eof (record r { inner = [] })
  ]
  read_loop r (chunk [] ∷ reads) = elim (buffered (record r { inner = chunk [] ∷ reads })) [
    | some o ↦ o
    | none ↦ at_eof (record r { inner = reads })
  ]
  read_loop r (chunk (b ∷ bs) ∷ reads) =
      elim (buffered (record r { inner = chunk (b ∷ bs) ∷ reads })) [
        | some o ↦ o
        | none ↦ read_loop (record r { buf = r.buf ++ b ∷ bs }) reads
      ]
  read_loop r (failed e ∷ reads) = elim (buffered (record r { inner = failed e ∷ reads })) [
    | some o ↦ o
    | none ↦ (err (read_error e), record r { inner = reads })
  ]

  unfoldable pub read_line : LineReader → Outcome
  unfolding read_loop
  read_line r = read_loop r r.inner
