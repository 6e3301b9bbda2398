-- ===== src/Slopio/Line/Chunking.antt =====
-- However the stream is cut into reads, `read_line` returns the next line and leaves the rest.
use slopmud.Prelude.{
  ℕ, suc, ◌-◌, ◌≤◌, ◌≡◌, refl, sym, ap, ◌∙◌, subst, ◌≢◌, inl, inr, Bool, true, false, Option, none,
  some, List, [], ◌∷◌, ◌++◌, append_assoc, arith, if◌then◌else◌, nat_eq, list_eq, length, get_elem?,
  All, length-append, take_front, take_past, drop_past, get_elem?-front, get_elem?-append_left,
  All-append, All-left,
}
use slopmud.Prelude.Bytes.{position-none, position-some, IsMemchr, Free}
use slopmud.Slopio.Stream.{Read, chunk, failed, ok, IsFlowing, arriving, cut_at}
use slopmud.Slopio.Line.{LineReader, is_at, trim_crlf, Outcome, buffered, read_loop, read_line}

abbrev pub eol : Bool → List ℕ
eol crlf = if crlf then 13 ∷ 10 ∷ [] else 10 ∷ []

-- A body that a bare `\n` may end: its last byte is not `\r`, which would be taken for a part of it.
abbrev pub Ends : Bool → List ℕ → Type 0
Ends true body = Unit
Ends false body = is_at body (length body - 1) 13 ≡ false

get_elem?-front_of :
    (xs ys : List ℕ) (x i : ℕ) → i ≡ length xs → get_elem? (xs ++ x ∷ ys) i ≡ some x
get_elem?-front_of xs ys x i e = rw e (get_elem?-front xs ys x)

trim_crlf-eol : (crlf : Bool) (body : List ℕ) → Ends crlf body → trim_crlf (body ++ eol crlf) ≡ body
unfolding trim_crlf
trim_crlf-eol true body h = ground (
  arith,
  length-append body (13 ∷ 10 ∷ []),
  get_elem?-front_of (body ++ 13 ∷ []) [] 10 (suc (length body)),
  length-append body (13 ∷ []),
  append_assoc body (13 ∷ []) (10 ∷ []),
  get_elem?-front body (10 ∷ []) 13,
  take_front body (13 ∷ 10 ∷ []),
)
trim_crlf-eol false body h = ground (
  arith,
  length-append body (10 ∷ []),
  get_elem?-front body [] 10,
  get_elem?-append_left body (10 ∷ []) (length body - 1),
  take_front body (10 ∷ []),
)

-- The bytes of a line but its `\n`.
abbrev pub raw : Bool → List ℕ → List ℕ
raw true body = body ++ 13 ∷ []
raw false body = body

raw-eol : (crlf : Bool) (body : List ℕ) → raw crlf body ++ 10 ∷ [] ≡ body ++ eol crlf
raw-eol true body = append_assoc body (13 ∷ []) (10 ∷ [])
raw-eol false body = refl

raw-Free : (crlf : Bool) (body : List ℕ) → Free 10 body → Free 10 (raw crlf body)
raw-Free true body h = All-append (λ x. x ≢ 10) body (13 ∷ []) h (omega arith)
raw-Free false body h = h

-- What the theorem promises of an outcome: the body is returned, and `rest` is still to be read.
abbrev pub Returned : List ℕ → List ℕ → Outcome → Type 0
Returned body rest (res, r) =
    (res ≡ ok (some body)) × (r.buf ++ arriving r.inner ≡ rest) × All IsFlowing r.inner

module _ (memchr : ℕ → List ℕ → Option ℕ) (finds : IsMemchr memchr) where
  buffered-found :
      (crlf : Bool) (body rest : List ℕ) (r : LineReader)
      → Free 10 body
      → Ends crlf body
      → r.buf ≡ raw crlf body ++ 10 ∷ rest
      → buffered memchr r ≡ some (ok (some body), record r { buf = rest })
  unfolding buffered
  buffered-found crlf body rest r free ends e = ground (
    arith,
    finds 10 r.buf,
    position-some 10 (raw crlf body) rest (raw-Free crlf body free),
    take_past (raw crlf body) rest 10,
    drop_past (raw crlf body) rest 10,
    raw-eol crlf body,
    trim_crlf-eol crlf body ends,
  )

  buffered-partial :
      (r : LineReader) → Free 10 r.buf → length r.buf ≤ r.max_line_len → buffered memchr r ≡ none
  unfolding buffered
  buffered-partial r free h = ground (arith, finds 10 r.buf, position-none 10 r.buf)

  read_loop-buffered :
      (r : LineReader) (reads : List Read) (o : Outcome)
      → buffered memchr (record r { inner = reads }) ≡ some o
      → read_loop memchr r reads ≡ o
  unfolding read_loop
  read_loop-buffered r [] o e = rw (e, read_loop)
  read_loop-buffered r (chunk [] ∷ reads) o e = rw (e, read_loop)
  read_loop-buffered r (chunk (b ∷ bs) ∷ reads) o e = rw (e, read_loop)
  read_loop-buffered r (failed n ∷ reads) o e = rw (e, read_loop)

  read_loop-partial :
      (r : LineReader) (b : ℕ) (bs : List ℕ) (reads : List Read)
      → buffered memchr (record r { inner = chunk (b ∷ bs) ∷ reads }) ≡ none
      → read_loop memchr r (chunk (b ∷ bs) ∷ reads)
        ≡ read_loop memchr (record r { buf = r.buf ++ b ∷ bs }) reads
  unfolding read_loop
  read_loop-partial r b bs reads e = rw (e, read_loop)

  read_loop-found :
      (crlf : Bool) (body rest m : List ℕ) (r : LineReader) (reads : List Read)
      → Free 10 body
      → Ends crlf body
      → All IsFlowing reads
      → r.buf ≡ raw crlf body ++ 10 ∷ m
      → m ++ arriving reads ≡ rest
      → Returned body rest (read_loop memchr r reads)
  read_loop-found crlf body rest m r reads free ends flow p q =
      rw
        (read_loop-buffered r reads _
          (buffered-found crlf body m (record r { inner = reads }) free ends p))
        (refl, q, flow)

  read_loop-Returned :
      (crlf : Bool) (body rest : List ℕ) (r : LineReader) (reads : List Read)
      → Free 10 body
      → Ends crlf body
      → length (raw crlf body) ≤ r.max_line_len
      → All IsFlowing reads
      → r.buf ++ arriving reads ≡ raw crlf body ++ 10 ∷ rest
      → Returned body rest (read_loop memchr r reads)
  read_loop-Returned crlf body rest r [] free ends fits flow e =
      elim (cut_at r.buf [] (raw crlf body) rest 10 e) [
        | inl (m, p, q) ↦ read_loop-found crlf body rest m r [] free ends flow p q
        | inr (m, p, q) ↦ absurd (ground (arith, q, length-append m (10 ∷ rest), ap length q))
      ]
  read_loop-Returned crlf body rest r (chunk [] ∷ reads) free ends fits flow e = absurd flow.0
  read_loop-Returned crlf body rest r (failed n ∷ reads) free ends fits flow e = absurd flow.0
  read_loop-Returned crlf body rest r (chunk (b ∷ bs) ∷ reads) free ends fits flow e =
      elim (cut_at r.buf (b ∷ bs ++ arriving reads) (raw crlf body) rest 10 e) [
        | inl (m, p, q) ↦
            read_loop-found crlf body rest m r (chunk (b ∷ bs) ∷ reads) free ends flow p q
        | inr (m, p, q) ↦ rw (read_loop-partial r b bs reads (waits m p)) (
            read_loop-Returned crlf body rest (record r { buf = r.buf ++ b ∷ bs }) reads free ends
              fits flow.1 (append_assoc r.buf (b ∷ bs) (arriving reads) ∙ e))
      ]
    where
      waits :
          (m : List ℕ)
          → raw crlf body ≡ r.buf ++ m
          → buffered memchr (record r { inner = chunk (b ∷ bs) ∷ reads }) ≡ none
      waits m p =
          buffered-partial (record r { inner = chunk (b ∷ bs) ∷ reads })
            (All-left (λ x. x ≢ 10) r.buf m (subst (Free 10) p (raw-Free crlf body free)))
            (omega (arith, ap length p, length-append r.buf m))

  -- However a stream is cut into reads, and whatever of it is in the buffer: if a line of at most
  -- `max_line_len` bytes is next, ended by `\n` or `\r\n`, `read_line` returns it without its end,
  -- and what it leaves in the buffer and the stream is exactly what follows the line.
  pub read_line_any_chunking :
      (crlf : Bool) (body rest : List ℕ) (r : LineReader)
      → Free 10 body
      → Ends crlf body
      → length (raw crlf body) ≤ r.max_line_len
      → All IsFlowing r.inner
      → r.buf ++ arriving r.inner ≡ body ++ eol crlf ++ rest
      → Returned body rest (read_line memchr r)
  unfolding read_line
  read_line_any_chunking crlf body rest r free ends fits flow e =
      read_loop-Returned crlf body rest r r.inner free ends fits flow (
        e
        ∙ ap (λ t. t ++ rest) (sym (raw-eol crlf body))
        ∙ append_assoc (raw crlf body) (10 ∷ []) rest)
