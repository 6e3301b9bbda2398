-- ===== src/Slopio/Frame.antt =====
-- crates/slopio/src/frame.rs: frames with a 32-bit big-endian length in front. `usize` has 64 bits,
-- so the 32-bit length and the sums on it do not wrap.
pub mod RoundTrip
pub mod Limits
mod Tests
use slopmud.Prelude.{
  ℕ, zero, suc, ◌+◌, ◌-◌, ◌*◌, ◌/◌, ◌%◌, ◌^◌, ◌≤◌, ◌<◌, min, max, ◌≡◌, refl, sym, ap, ap₂, ◌∙◌,
  subst, ◌≢◌, ◌↔◌, ◌⊎◌, inl, inr, Bool, true, false, not, ◌&&◌, ◌||◌, Option, none, some, List, [],
  ◌∷◌, ◌++◌, map, append-nil, append_assoc, arith, ltb, leb, ◌==◌, if◌then◌else◌, ==_iff,
  Bool-cases, Option-cases, Eq, ◌=?◌, =?_iff, =?_refl, nat_eq, list_eq, list_beq, list_beq_iff,
  length, get_elem?, take, drop, is_empty, any, all, concat, All, length-append, take-append-drop,
  length-take, length-drop, take_front, drop_front, take_all, take_past, drop_past, get_elem?-front,
  get_elem?-append_left, All-append, All-left,
}
use slopmud.Prelude.Bytes.{to_be_bytes, from_be_bytes}
use slopmud.Slopio.Stream.{
  Read, chunk, failed, Result, ok, err, invalid_data, unexpected_eof, read_error,
}

pub record FrameReader : Type 0 where
  pub inner : List Read
  pub buf : List ℕ
  pub max_frame_len : ℕ

unfoldable pub new : List Read → FrameReader
new inner = record { inner = inner; buf = []; max_frame_len = 8 * 1024 * 1024 }

unfoldable pub set_max_frame_len : FrameReader → ℕ → FrameReader
set_max_frame_len r n = record r { max_frame_len = max n 1 }

abbrev pub Outcome : Type 0
Outcome = Result (Option (List ℕ)) × FrameReader

abbrev at_eof : FrameReader → Outcome
at_eof r = if is_empty r.buf then (ok none, r) else (err unexpected_eof, r)

-- The length that the first four bytes of the buffer hold.
unfoldable pub prefix_len : List ℕ → ℕ
prefix_len buf = from_be_bytes (take 4 buf)

-- A round of the loop before it reads: it refuses a long frame, or returns a whole one.
unfoldable pub buffered : FrameReader → Option Outcome
buffered r =
    if leb 4 (length r.buf)
    then if ltb r.max_frame_len (prefix_len r.buf)
      then some (err invalid_data, r)
      else if leb (4 + prefix_len r.buf) (length r.buf)
      then some (
        ok (some (take (prefix_len r.buf) (drop 4 r.buf))),
        record r { buf = drop (prefix_len r.buf) (drop 4 r.buf) },
      )
      else none
    else none

unfoldable pub read_loop : FrameReader → List Read → Outcome
unfolding buffered
read_loop r [] = elim (buffered (record r { inner = [] })) [
  | some o ↦ o
  | none ↦ at_eof (record r { inner = [] })
]
read_loop r (chunk [] ∷ reads) = elim (buffered (record r { inner = chunk [] ∷ reads })) [
  | some o ↦ o
  | none ↦ at_eof (record r { inner = reads })
]
read_loop r (chunk (b ∷ bs) ∷ reads) =
    elim (buffered (record r { inner = chunk (b ∷ bs) ∷ reads })) [
      | some o ↦ o
      | none ↦ read_loop (record r { buf = r.buf ++ b ∷ bs }) reads
    ]
read_loop r (failed e ∷ reads) = elim (buffered (record r { inner = failed e ∷ reads })) [
  | some o ↦ o
  | none ↦ (err (read_error e), record r { inner = reads })
]

unfoldable pub read_frame : FrameReader → Outcome
unfolding read_loop
read_frame r = read_loop r r.inner

-- `parts.iter().map(|p| p.len()).sum()`.
unfoldable pub total_len : List (List ℕ) → ℕ
total_len [] = 0
total_len (p ∷ parts) = length p + total_len parts

-- The bytes that `write_frame_parts` hands to the stream below, which takes them all; nothing is
-- written where the length does not fit.
unfoldable pub write_parts : List (List ℕ) → List ℕ
write_parts [] = []
write_parts (p ∷ parts) = if is_empty p then write_parts parts else p ++ write_parts parts

unfoldable pub write_frame_parts : List (List ℕ) → Result (List ℕ)
unfolding total_len write_parts
write_frame_parts parts =
    if ltb (total_len parts) (2 ^ 32)
    then ok (to_be_bytes 4 (total_len parts) ++ write_parts parts)
    else err invalid_data

unfoldable pub write_frame : List ℕ → Result (List ℕ)
unfolding write_frame_parts
write_frame payload = write_frame_parts (payload ∷ [])
