-- ===== src/Slopio/Stream.antt =====
-- The byte stream under the readers (`AsyncRead`), as the list of what its reads give. `read_buf`
-- appends what it got to the buffer, and an empty chunk is the end of the stream, as is the end of
-- the list. `Bytes` and `BytesMut` are byte sequences.
use slopmud.Prelude.{sym, ◌∙◌, append-nil, ℕ, ◌≡◌, ◌⊎◌, refl, inl, inr, List, [], ◌∷◌, ◌++◌, arith}

pub data IoError : Type 0 where
  invalid_data unexpected_eof : IoError
  read_error : ℕ → IoError

pub data Read : Type 0 where
  chunk : List ℕ → Read
  failed : ℕ → Read

-- `io::Result`.
pub data Result {ℓ} (A : Type ℓ) : Type ℓ where
  ok : A → Result A
  err : IoError → Result A

-- The reads give bytes, each at least one.
abbrev pub IsFlowing : Read → Type 0
IsFlowing (chunk []) = ⊥
IsFlowing (chunk (b ∷ bs)) = Unit
IsFlowing (failed e) = ⊥

abbrev pub read_bytes : Read → List ℕ
read_bytes (chunk bs) = bs
read_bytes (failed e) = []

abbrev pub arriving : List Read → List ℕ
arriving [] = []
arriving (r ∷ reads) = read_bytes r ++ arriving reads

-- Two ways to cut one list: one cut is not behind the other.
pub cut_cases {ℓ} :
    {A : Type ℓ} (a b c d : List A)
    → a ++ b ≡ c ++ d
    → ((m : List A) × (a ≡ c ++ m) × (m ++ b ≡ d)) ⊎ ((m : List A) × (c ≡ a ++ m) × (b ≡ m ++ d))
cut_cases a b [] d e = inl (a, refl, e)
cut_cases [] b (y ∷ c) d e = inr (y ∷ c, refl, e)
cut_cases (x ∷ a) b (y ∷ c) d e = elim (cut_cases a b c d (ground arith)) [
  | inl (m, p, q) ↦ inl (m, ground arith, q)
  | inr (m, p, q) ↦ inr (m, ground arith, q)
]

-- So too where the second list goes on with a byte `y`: the byte has come, or it has not.
pub cut_at {ℓ} :
    {A : Type ℓ} (a b c d : List A) (y : A)
    → a ++ b ≡ c ++ y ∷ d
    → ((m : List A) × (a ≡ c ++ y ∷ m) × (m ++ b ≡ d))
      ⊎ ((m : List A) × (c ≡ a ++ m) × (b ≡ m ++ y ∷ d))
cut_at a b c d y e = elim (cut_cases a b c (y ∷ d) e) [
  | inl ([], p, q) ↦ inr ([], rw (p, append-nil, append-nil), q)
  | inl (z ∷ m, p, q) ↦ inl (m, ground (arith, p, q), ground (arith, q))
  | inr (m, p, q) ↦ inr (m, p, q)
]

-- And where a frame is to come: it is all in the first list, or its last bytes are not.
pub cut_whole {ℓ} :
    {A : Type ℓ} (a b c d : List A)
    → a ++ b ≡ c ++ d
    → ((m : List A) × (a ≡ c ++ m) × (m ++ b ≡ d))
      ⊎ ((y : A) × (m : List A) × (c ≡ a ++ y ∷ m) × (b ≡ y ∷ m ++ d))
cut_whole a b c d e = elim (cut_cases a b c d e) [
  | inl found ↦ inl found
  | inr ([], p, q) ↦ inl ([], sym (append-nil c ∙ p ∙ append-nil a), q)
  | inr (y ∷ m, p, q) ↦ inr (y, m, p, q)
]
