-- ===== src/Slopio/Frame/RoundTrip.antt =====
-- What the writer wrote the reader reads back, however the stream is cut into reads.
use slopmud.Prelude.{
  ℕ, ◌+◌, ◌^◌, ◌≤◌, ◌<◌, ◌≡◌, refl, ap, ◌∙◌, inl, inr, none, some, List, [], ◌∷◌, ◌++◌, append-nil,
  append_assoc, arith, nat_eq, list_eq, length, drop, concat, All, length-append, take_front,
  drop_front, take_front_of, drop_front_of, take-append_left,
}
use slopmud.Prelude.Bytes.{to_be_bytes, length-to_be_bytes, from_be_bytes-to_be_bytes}
use slopmud.Slopio.Stream.{Read, chunk, failed, ok, IsFlowing, arriving, cut_whole}
use slopmud.Slopio.Frame.{
  FrameReader, Outcome, prefix_len, buffered, read_loop, read_frame, total_len, write_parts,
  write_frame_parts,
}

-- A payload is returned, and `rest` is still to be read.
abbrev pub Returned : List ℕ → List ℕ → Outcome → Type 0
Returned payload rest (res, r) =
    (res ≡ ok (some payload)) × (r.buf ++ arriving r.inner ≡ rest) × All IsFlowing r.inner

abbrev framed : List ℕ → List ℕ
framed payload = to_be_bytes 4 (length payload) ++ payload

prefix_len-framed :
    (payload m : List ℕ)
    → length payload < 2 ^ 32
    → prefix_len (framed payload ++ m) ≡ length payload
unfolding prefix_len
prefix_len-framed payload m h =
    rw (append_assoc, take_front_of 4 _ (payload ++ m) (length-to_be_bytes 4 (length payload)))
      (from_be_bytes-to_be_bytes 4 (length payload) h)

length-framed : (payload : List ℕ) → length (framed payload) ≡ 4 + length payload
length-framed payload = omega (
  arith,
  length-append (to_be_bytes 4 (length payload)) payload,
  length-to_be_bytes 4 (length payload),
)

drop-framed : (payload m : List ℕ) → drop 4 (framed payload ++ m) ≡ payload ++ m
drop-framed payload m = rw append_assoc (
    drop_front_of 4 (to_be_bytes 4 (length payload)) (payload ++ m)
      (length-to_be_bytes 4 (length payload)))

buffered-found :
    (payload m : List ℕ) (r : FrameReader)
    → length payload < 2 ^ 32
    → length payload ≤ r.max_frame_len
    → r.buf ≡ framed payload ++ m
    → buffered r ≡ some (ok (some payload), record r { buf = m })
unfolding buffered
buffered-found payload m r small fits e = ground (
  arith,
  prefix_len-framed payload m small,
  length-framed payload,
  length-append (framed payload) m,
  drop-framed payload m,
  take_front payload m,
  drop_front payload m,
)

buffered-partial :
    (payload m : List ℕ) (y : ℕ) (r : FrameReader)
    → length payload < 2 ^ 32
    → length payload ≤ r.max_frame_len
    → framed payload ≡ r.buf ++ y ∷ m
    → buffered r ≡ none
unfolding buffered prefix_len
buffered-partial payload m y r small fits e = ground (
  arith,
  prefix_len-framed payload [] small,
  append-nil (framed payload),
  length-framed payload,
  length-append r.buf (y ∷ m),
  take-append_left 4 r.buf (y ∷ m),
)

read_loop-buffered :
    (r : FrameReader) (reads : List Read) (o : Outcome)
    → buffered (record r { inner = reads }) ≡ some o
    → read_loop r reads ≡ o
unfolding read_loop
read_loop-buffered r [] o e = rw (e, read_loop)
read_loop-buffered r (chunk [] ∷ reads) o e = rw (e, read_loop)
read_loop-buffered r (chunk (b ∷ bs) ∷ reads) o e = rw (e, read_loop)
read_loop-buffered r (failed n ∷ reads) o e = rw (e, read_loop)

read_loop-partial :
    (r : FrameReader) (b : ℕ) (bs : List ℕ) (reads : List Read)
    → buffered (record r { inner = chunk (b ∷ bs) ∷ reads }) ≡ none
    → read_loop r (chunk (b ∷ bs) ∷ reads) ≡ read_loop (record r { buf = r.buf ++ b ∷ bs }) reads
unfolding read_loop
read_loop-partial r b bs reads e = rw (e, read_loop)

module _ (payload rest : List ℕ) (small : length payload < 2 ^ 32) where
  read_loop-found :
      (m : List ℕ) (r : FrameReader) (reads : List Read)
      → length payload ≤ r.max_frame_len
      → All IsFlowing reads
      → r.buf ≡ framed payload ++ m
      → m ++ arriving reads ≡ rest
      → Returned payload rest (read_loop r reads)
  read_loop-found m r reads fits flow p q =
      rw
        (read_loop-buffered r reads _
          (buffered-found payload m (record r { inner = reads }) small fits p))
        (refl, q, flow)

  read_loop-Returned :
      (r : FrameReader) (reads : List Read)
      → length payload ≤ r.max_frame_len
      → All IsFlowing reads
      → r.buf ++ arriving reads ≡ framed payload ++ rest
      → Returned payload rest (read_loop r reads)
  read_loop-Returned r [] fits flow e = elim (cut_whole r.buf [] (framed payload) rest e) [
    | inl (m, p, q) ↦ read_loop-found m r [] fits flow p q
    | inr (y, m, p, q) ↦ cc q
  ]
  read_loop-Returned r (chunk [] ∷ reads) fits flow e = absurd flow.0
  read_loop-Returned r (failed n ∷ reads) fits flow e = absurd flow.0
  read_loop-Returned r (chunk (b ∷ bs) ∷ reads) fits flow e =
      elim (cut_whole r.buf (b ∷ bs ++ arriving reads) (framed payload) rest e) [
        | inl (m, p, q) ↦ read_loop-found m r (chunk (b ∷ bs) ∷ reads) fits flow p q
        | inr (y, m, p, q) ↦
            rw
              (read_loop-partial r b bs reads (
                buffered-partial payload m y (record r { inner = chunk (b ∷ bs) ∷ reads }) small
                  fits p))
              (read_loop-Returned (record r { buf = r.buf ++ b ∷ bs }) reads fits flow.1
                (append_assoc r.buf (b ∷ bs) (arriving reads) ∙ e))
      ]

write_parts-concat : (parts : List (List ℕ)) → write_parts parts ≡ concat parts
unfolding write_parts
write_parts-concat [] = refl
write_parts-concat ([] ∷ parts) = write_parts-concat parts
write_parts-concat ((b ∷ p) ∷ parts) = ap (λ t. b ∷ p ++ t) (write_parts-concat parts)

total_len-concat : (parts : List (List ℕ)) → total_len parts ≡ length (concat parts)
unfolding total_len
total_len-concat [] = refl
total_len-concat (p ∷ parts) = omega (arith, length-append p (concat parts), total_len-concat parts)

written_framed :
    (parts : List (List ℕ)) (wire : List ℕ)
    → write_frame_parts parts ≡ ok wire
    → (length (concat parts) < 2 ^ 32) × (wire ≡ framed (concat parts))
unfolding write_frame_parts
written_framed parts wire e = ground (arith, write_parts-concat parts, total_len-concat parts)

-- A frame written in parts is the next in the buffer and the stream, cut into reads in any way:
-- `read_frame` returns the parts joined, and leaves exactly what follows the frame, if the joined
-- parts are within the reader's limit.
pub read_frame-write_frame_parts :
    (parts : List (List ℕ)) (wire rest : List ℕ) (r : FrameReader)
    → write_frame_parts parts ≡ ok wire
    → length (concat parts) ≤ r.max_frame_len
    → All IsFlowing r.inner
    → r.buf ++ arriving r.inner ≡ wire ++ rest
    → Returned (concat parts) rest (read_frame r)
unfolding read_frame
read_frame-write_frame_parts parts wire rest r written fits flow e =
    let (small, framing) = written_framed parts wire written in
    read_loop-Returned (concat parts) rest small r r.inner fits flow
      (e ∙ ap (λ t. t ++ rest) framing)
