-- ===== src/Slopio/Line/Limits.antt =====
-- What `read_line` answers when no line end comes.
use slopmud.Prelude.{
  ℕ, ◌<◌, ◌≡◌, ◌∙◌, ◌≢◌, Option, none, List, [], ◌∷◌, ◌++◌, append-nil, append_assoc, arith, ltb,
  if◌then◌else◌, nat_eq, list_eq, length, All, length-append, All-left,
}
use slopmud.Prelude.Bytes.{position-none, IsMemchr, Free}
use slopmud.Slopio.Stream.{
  Read, chunk, failed, Result, ok, err, invalid_data, unexpected_eof, IsFlowing, arriving,
}
use slopmud.Slopio.Line.{LineReader, read_loop, read_line}

-- The answer to a stream that ends after `bytes`, none of which is a line end.
abbrev pub endless : ℕ → List ℕ → Result (Option (List ℕ))
endless limit [] = ok none
endless limit (b ∷ bs) =
    if ltb limit (length (b ∷ bs)) then err invalid_data else err unexpected_eof

module _ (memchr : ℕ → List ℕ → Option ℕ) (finds : IsMemchr memchr) where
  no_line : (r : LineReader) → Free 10 r.buf → memchr 10 r.buf ≡ none
  no_line r free = finds 10 r.buf ∙ position-none 10 r.buf free

  endless-long :
      (limit : ℕ) (xs ys : List ℕ) → limit < length xs → endless limit (xs ++ ys) ≡ err invalid_data
  endless-long limit [] ys h = absurd (omega arith)
  endless-long limit (x ∷ xs) ys h = ground (arith, length-append xs ys)

  read_loop-endless :
      (r : LineReader) (reads : List Read)
      → Free 10 (r.buf ++ arriving reads)
      → All IsFlowing reads
      → (read_loop memchr r reads).0 ≡ endless r.max_line_len (r.buf ++ arriving reads)
  unfolding read_loop
  read_loop-endless r [] free flow =
      rw append-nil (ground (arith, no_line r (rw append-nil at free)))
  read_loop-endless r (chunk [] ∷ reads) free flow = absurd flow.0
  read_loop-endless r (failed n ∷ reads) free flow = absurd flow.0
  read_loop-endless r (chunk (b ∷ bs) ∷ reads) free flow = ground (
    arith,
    no_line r (All-left (λ x. x ≢ 10) r.buf (b ∷ bs ++ arriving reads) free),
    endless-long r.max_line_len r.buf (b ∷ bs ++ arriving reads),
    append_assoc r.buf (b ∷ bs) (arriving reads),
    read_loop-endless (record r { buf = r.buf ++ b ∷ bs }) reads
        (rw (append_assoc r.buf (b ∷ bs) (arriving reads)) free) flow.1,
  )

  -- A stream that ends with no line end in it: `read_line` gives a clean end if there was nothing at
  -- all, "line too long" if there were more bytes than `max_line_len`, and otherwise the error of an
  -- end inside a line, however the bytes are cut into reads.
  pub read_line-endless :
      (r : LineReader)
      → Free 10 (r.buf ++ arriving r.inner)
      → All IsFlowing r.inner
      → (read_line memchr r).0 ≡ endless r.max_line_len (r.buf ++ arriving r.inner)
  unfolding read_line
  read_line-endless r free flow = read_loop-endless r r.inner free flow
