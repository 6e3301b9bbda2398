-- ===== src/Slopio/Frame/Limits.antt =====
-- Frames over the limits: the reader refuses one by its length alone.
use slopmud.Prelude.{
  ℕ, ◌^◌, ◌<◌, ◌≡◌, ap, ◌∙◌, inl, inr, none, some, List, [], ◌∷◌, ◌++◌, append_assoc, arith, nat_eq,
  list_eq, length, All, length-append, take_front_of,
}
use slopmud.Prelude.Bytes.{to_be_bytes, length-to_be_bytes, from_be_bytes-to_be_bytes}
use slopmud.Slopio.Stream.{Read, chunk, failed, err, invalid_data, IsFlowing, arriving, cut_whole}
use slopmud.Slopio.Frame.{FrameReader, prefix_len, buffered, read_loop, read_frame}

module _ (len : ℕ) (rest : List ℕ) (small : len < 2 ^ 32) where
  prefix_len-header : (m : List ℕ) → prefix_len (to_be_bytes 4 len ++ m) ≡ len
  unfolding prefix_len
  prefix_len-header m =
      rw (take_front_of 4 (to_be_bytes 4 len) m (length-to_be_bytes 4 len))
        (from_be_bytes-to_be_bytes 4 len small)

  buffered-refused :
      (m : List ℕ) (r : FrameReader)
      → r.max_frame_len < len
      → r.buf ≡ to_be_bytes 4 len ++ m
      → buffered r ≡ some (err invalid_data, r)
  unfolding buffered
  buffered-refused m r over e =
      ground
        (arith, prefix_len-header m, length-append (to_be_bytes 4 len) m, length-to_be_bytes 4 len)

  buffered-short :
      (y : ℕ) (m : List ℕ) (r : FrameReader)
      → to_be_bytes 4 len ≡ r.buf ++ y ∷ m
      → buffered r ≡ none
  unfolding buffered
  buffered-short y m r e =
      ground (arith, length-append r.buf (y ∷ m), length-to_be_bytes 4 len, ap (length {A = ℕ}) e)

  read_loop-refused :
      (r : FrameReader) (reads : List Read)
      → r.max_frame_len < len
      → All IsFlowing reads
      → r.buf ++ arriving reads ≡ to_be_bytes 4 len ++ rest
      → (read_loop r reads).0 ≡ err invalid_data
  unfolding read_loop
  read_loop-refused r [] over flow e = elim (cut_whole r.buf [] (to_be_bytes 4 len) rest e) [
    | inl (m, p, q) ↦ rw (buffered-refused m (record r { inner = [] }) over p, read_loop)
    | inr (y, m, p, q) ↦ cc q
  ]
  read_loop-refused r (chunk [] ∷ reads) over flow e = absurd flow.0
  read_loop-refused r (failed n ∷ reads) over flow e = absurd flow.0
  read_loop-refused r (chunk (b ∷ bs) ∷ reads) over flow e =
      let now : FrameReader = record r { inner = chunk (b ∷ bs) ∷ reads } in
      elim (cut_whole r.buf (b ∷ bs ++ arriving reads) (to_be_bytes 4 len) rest e) [
        | inl (m, p, q) ↦ rw (buffered-refused m now over p, read_loop)
        | inr (y, m, p, q) ↦ ground (
          arith,
          buffered-short y m now p,
          read_loop-refused (record r { buf = r.buf ++ b ∷ bs }) reads over flow.1
              (append_assoc r.buf (b ∷ bs) (arriving reads) ∙ e),
        )
      ]

-- A length over the reader's limit is refused, however the stream is cut into reads and whatever
-- follows the length.
pub read_frame_too_large :
    (len : ℕ) (rest : List ℕ) (r : FrameReader)
    → len < 2 ^ 32
    → r.max_frame_len < len
    → All IsFlowing r.inner
    → r.buf ++ arriving r.inner ≡ to_be_bytes 4 len ++ rest
    → (read_frame r).0 ≡ err invalid_data
unfolding read_frame
read_frame_too_large len rest r small over flow e =
    read_loop-refused len rest small r r.inner over flow e
