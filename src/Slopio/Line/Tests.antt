-- ===== src/Slopio/Line/Tests.antt =====
-- The unit test of line.rs, and the theorems at concrete inputs.
use slopmud.Prelude.{◌≡◌, refl, true, some, List, [], ◌∷◌, arith, nat_eq, list_eq}
use slopmud.Prelude.Bytes.{position}
use slopmud.Slopio.Stream.{Read, chunk, ok, err, invalid_data}
use slopmud.Slopio.Line.{LineReader, read_line, new}
use slopmud.Slopio.Line.Chunking.{Returned, read_line_any_chunking}
use slopmud.Slopio.Line.Limits.{read_line-endless}

-- "hel" and "lo\r\nwo" and "rld\n".
abbrev reads : List Read
reads =
    chunk (104 ∷ 101 ∷ 108 ∷ [])
    ∷ chunk (108 ∷ 111 ∷ 13 ∷ 10 ∷ 119 ∷ 111 ∷ [])
    ∷ chunk (114 ∷ 108 ∷ 100 ∷ 10 ∷ [])
    ∷ []

abbrev reader : LineReader
reader = record { inner = reads; buf = []; max_line_len = 16 }

reads_crlf : (read_line position (new reads)).0 ≡ ok (some (104 ∷ 101 ∷ 108 ∷ 108 ∷ 111 ∷ []))
unfolding read_line new
reads_crlf = refl

read_line_any_chunking_example :
    Returned
      (104 ∷ 101 ∷ 108 ∷ 108 ∷ 111 ∷ [])
      (119 ∷ 111 ∷ 114 ∷ 108 ∷ 100 ∷ 10 ∷ [])
      (read_line position reader)
read_line_any_chunking_example =
    read_line_any_chunking position (λ c xs. refl) true (104 ∷ 101 ∷ 108 ∷ 108 ∷ 111 ∷ [])
      (119 ∷ 111 ∷ 114 ∷ 108 ∷ 100 ∷ 10 ∷ []) reader (omega arith) tt (omega arith) (omega arith)
      refl

abbrev endless_reader : LineReader
endless_reader = record {
  inner = chunk (104 ∷ 101 ∷ []) ∷ chunk (108 ∷ 108 ∷ []) ∷ [];
  buf = [];
  max_line_len = 3;
}

read_line-endless_example : (read_line position endless_reader).0 ≡ err invalid_data
read_line-endless_example =
    read_line-endless position (λ c xs. refl) endless_reader (omega arith) (omega arith)
