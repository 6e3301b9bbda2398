-- ===== src/Slopio/Frame/Tests.antt =====
-- The unit tests of frame.rs, and the theorems at concrete inputs.
use slopmud.Prelude.{ℕ, ◌≡◌, refl, List, [], ◌∷◌, arith, nat_eq, list_eq}
use slopmud.Prelude.Bytes.{to_be_bytes}
use slopmud.Slopio.Stream.{chunk, ok, err, invalid_data}
use slopmud.Slopio.Frame.{FrameReader, read_frame, write_frame, write_frame_parts}
use slopmud.Slopio.Frame.RoundTrip.{Returned, read_frame-write_frame_parts}
use slopmud.Slopio.Frame.Limits.{read_frame_too_large}

abbrev he : List ℕ
he = 104 ∷ 101 ∷ []

abbrev llo : List ℕ
llo = 108 ∷ 108 ∷ 111 ∷ []

abbrev wire : List ℕ
wire = 0 ∷ 0 ∷ 0 ∷ 5 ∷ 104 ∷ 101 ∷ 108 ∷ 108 ∷ 111 ∷ []

writes_parts_without_concat : write_frame_parts (he ∷ [] ∷ llo ∷ []) ≡ ok wire
unfolding write_frame_parts to_be_bytes
writes_parts_without_concat = refl

writes_frame : write_frame (7 ∷ []) ≡ ok (0 ∷ 0 ∷ 0 ∷ 1 ∷ 7 ∷ [])
unfolding write_frame to_be_bytes
writes_frame = refl

-- The frame in three reads, and two bytes of the next one.
abbrev reader : FrameReader
reader = record {
  inner = chunk (0 ∷ 5 ∷ 104 ∷ []) ∷ chunk (101 ∷ 108 ∷ []) ∷ chunk (108 ∷ 111 ∷ 0 ∷ 0 ∷ []) ∷ [];
  buf = 0 ∷ 0 ∷ [];
  max_frame_len = 100;
}

read_frame-write_frame_parts_example :
    Returned (104 ∷ 101 ∷ 108 ∷ 108 ∷ 111 ∷ []) (0 ∷ 0 ∷ []) (read_frame reader)
read_frame-write_frame_parts_example =
    read_frame-write_frame_parts (he ∷ [] ∷ llo ∷ []) wire (0 ∷ 0 ∷ []) reader
      writes_parts_without_concat (omega arith) (omega arith) refl

read_frame_too_large_example :
    (read_frame (record reader { max_frame_len = 4 })).0 ≡ err invalid_data
unfolding to_be_bytes
read_frame_too_large_example =
    read_frame_too_large 5 (104 ∷ 101 ∷ 108 ∷ 108 ∷ 111 ∷ 0 ∷ 0 ∷ [])
      (record reader { max_frame_len = 4 }) (omega arith) (omega arith) (omega arith) refl
