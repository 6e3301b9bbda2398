-- ===== src/Prelude/Bytes.antt =====
-- Rust's `to_be_bytes` and `from_be_bytes`, at any width in bytes.
use mathlib.Core.Option
use mathlib.Core.List.{foldl, foldl-append}
use native.Mathlib.Nat.{pow-suc}
use slopmud.Prelude.{
  ℕ, zero, suc, ◌+◌, ◌*◌, ◌/◌, ◌%◌, ◌^◌, ◌<◌, ◌≡◌, refl, List, [], ◌∷◌, ◌++◌, arith, length,
  length-append, All, All-append, Option, none, some, ◌==◌, ◌≢◌, if◌then◌else◌,
}

abbrev pub IsByte : ℕ → Type 0
IsByte b = b < 256

unfoldable pub to_be_bytes : ℕ → ℕ → List ℕ
to_be_bytes zero w = []
to_be_bytes (suc n) w = to_be_bytes n (w / 256) ++ w % 256 ∷ []

abbrev push_byte : ℕ → ℕ → ℕ
push_byte acc b = acc * 256 + b

unfoldable pub from_be_bytes : List ℕ → ℕ
from_be_bytes = foldl push_byte 0

pub length-to_be_bytes : (n w : ℕ) → length (to_be_bytes n w) ≡ n
unfolding to_be_bytes
length-to_be_bytes zero w = refl
length-to_be_bytes (suc n) w =
    omega (
      arith,
      length-append (to_be_bytes n (w / 256)) (w % 256 ∷ []),
      length-to_be_bytes n (w / 256),
    )

pub to_be_bytes-IsByte : (n w : ℕ) → All IsByte (to_be_bytes n w)
unfolding to_be_bytes
to_be_bytes-IsByte zero w = tt
to_be_bytes-IsByte (suc n) w =
    All-append IsByte (to_be_bytes n (w / 256)) (w % 256 ∷ []) (to_be_bytes-IsByte n (w / 256))
      (omega arith)

from_be_bytes-append :
    (xs : List ℕ) (b : ℕ) → from_be_bytes (xs ++ b ∷ []) ≡ from_be_bytes xs * 256 + b
unfolding from_be_bytes
from_be_bytes-append xs b = rw foldl-append

from_be_bytes-nil : from_be_bytes [] ≡ 0
unfolding from_be_bytes
from_be_bytes-nil = refl

-- A number that fits is read back.
pub from_be_bytes-to_be_bytes : (n w : ℕ) → w < 256 ^ n → from_be_bytes (to_be_bytes n w) ≡ w
unfolding to_be_bytes
from_be_bytes-to_be_bytes zero w h = omega (arith, from_be_bytes-nil)
from_be_bytes-to_be_bytes (suc n) w h = omega (
  arith,
  from_be_bytes-append (to_be_bytes n (w / 256)) (w % 256),
  from_be_bytes-to_be_bytes n (w / 256) (omega (arith, pow-suc 256 n)),
)

-- The first index of a byte, which is what `memchr` is documented to return.
abbrev pub position : ℕ → List ℕ → Option ℕ
position c [] = none
position c (x ∷ xs) = if x == c then some 0 else Option.map suc (position c xs)

abbrev pub IsMemchr : (ℕ → List ℕ → Option ℕ) → Type 0
IsMemchr memchr = (c : ℕ) (xs : List ℕ) → memchr c xs ≡ position c xs

-- No byte of the list is `c`.
abbrev pub Free : ℕ → List ℕ → Type 0
Free c = All (λ x. x ≢ c)

pub position-none : (c : ℕ) (xs : List ℕ) → Free c xs → position c xs ≡ none
position-none c [] h = refl
position-none c (x ∷ xs) h = ground (arith, h.0, position-none c xs h.1)

pub position-some :
    (c : ℕ) (xs ys : List ℕ) → Free c xs → position c (xs ++ c ∷ ys) ≡ some (length xs)
position-some c [] ys h = ground arith
position-some c (x ∷ xs) ys h = ground (arith, h.0, position-some c xs ys h.1)
