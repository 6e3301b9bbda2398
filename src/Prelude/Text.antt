-- ===== src/Prelude/Text.antt =====
-- Rust's `str` as the list of its characters (code points), with the methods that the program calls.
-- Lower-casing and digit tests are the ASCII ones; `trim` goes by Unicode's White_Space.
use Prim.Native.Char.{code}
use Prim.Native.String.{String}
use slopmud.Prelude.{
  ℕ, ◌+◌, ◌≡◌, refl, ap, ap₂, ◌∙◌, Bool, true, false, ◌&&◌, ◌||◌, Option, none, some, List, [], ◌∷◌,
  map, arith, leb, ◌==◌, if◌then◌else◌, Bool-cases, nat_eq, list_eq, length, drop, is_empty, All,
}

abbrev pub Text : Type 0
Text = List ℕ

-- The characters of a literal.
abbrev pub text : String → Text
text String.[] = []
text (String.◌∷◌ c s) = code c ∷ text s

unfoldable pub is_whitespace : ℕ → Bool
is_whitespace c =
    (leb 0x09 c && leb c 0x0d)
    || (c == 0x20)
    || (c == 0x85)
    || (c == 0xa0)
    || (c == 0x1680)
    || (leb 0x2000 c && leb c 0x200a)
    || (c == 0x2028)
    || (c == 0x2029)
    || (c == 0x202f)
    || (c == 0x205f)
    || (c == 0x3000)

unfoldable pub is_ascii_digit : ℕ → Bool
is_ascii_digit c = leb b'0' c && leb c b'9'

unfoldable pub lower : ℕ → ℕ
lower c = if leb b'A' c && leb c b'Z' then c + 32 else c

unfoldable pub to_ascii_lowercase : Text → Text
unfolding lower
to_ascii_lowercase = map lower

-- `trim_start_matches` and `trim_end_matches` by a test.
unfoldable pub trim_start_matches : (ℕ → Bool) → Text → Text
trim_start_matches p [] = []
trim_start_matches p (c ∷ s) = if p c then trim_start_matches p s else c ∷ s

unfoldable pub trim_end_matches : (ℕ → Bool) → Text → Text
trim_end_matches p [] = []
trim_end_matches p (c ∷ s) =
    let rest = trim_end_matches p s in if is_empty rest && p c then [] else c ∷ rest

unfoldable pub trim : Text → Text
unfolding trim_start_matches trim_end_matches is_whitespace
trim s = trim_end_matches is_whitespace (trim_start_matches is_whitespace s)

unfoldable pub starts_with : Text → Text → Bool
starts_with s [] = true
starts_with [] (c ∷ p) = false
starts_with (x ∷ s) (c ∷ p) = (x == c) && starts_with s p

unfoldable pub contains : Text → Text → Bool
unfolding starts_with
contains [] p = starts_with [] p
contains (x ∷ s) p = starts_with (x ∷ s) p || contains s p

-- The key under which names are stored: `s.trim().to_ascii_lowercase()`.
unfoldable pub name_key : Text → Text
unfolding trim to_ascii_lowercase
name_key s = to_ascii_lowercase (trim s)

lower-is_whitespace : (c : ℕ) → is_whitespace (lower c) ≡ is_whitespace c
unfolding is_whitespace lower
lower-is_whitespace c = ground arith

lower_idem : (c : ℕ) → lower (lower c) ≡ lower c
unfolding lower
lower_idem c = ground arith

to_ascii_lowercase_idem :
    (s : Text) → to_ascii_lowercase (to_ascii_lowercase s) ≡ to_ascii_lowercase s
unfolding to_ascii_lowercase
to_ascii_lowercase_idem [] = refl
to_ascii_lowercase_idem (c ∷ s) = ap₂ ◌∷◌ (lower_idem c) (to_ascii_lowercase_idem s)

-- Nothing to trim.
pub trim_start_matches-none :
    (p : ℕ → Bool) (s : Text) → All (λ c. p c ≡ false) s → trim_start_matches p s ≡ s
unfolding trim_start_matches
trim_start_matches-none p [] h = refl
trim_start_matches-none p (c ∷ s) h = ground (arith, h.0)

pub trim_end_matches-none :
    (p : ℕ → Bool) (s : Text) → All (λ c. p c ≡ false) s → trim_end_matches p s ≡ s
unfolding trim_end_matches
trim_end_matches-none p [] h = refl
trim_end_matches-none p (c ∷ s) h = ground (arith, h.0, trim_end_matches-none p s h.1)

pub trim-none : (s : Text) → All (λ c. is_whitespace c ≡ false) s → trim s ≡ s
unfolding trim
trim-none s h =
    ap (trim_end_matches is_whitespace) (trim_start_matches-none is_whitespace s h)
    ∙ trim_end_matches-none is_whitespace s h

-- `split_once` at a character: what stands before its first occurrence, and after it.
unfoldable pub split_once : ℕ → Text → Option (Text × Text)
split_once d [] = none
split_once d (c ∷ s) =
    let rest = split_once d s in
    if c == d then some ([], s) else elim rest [ none ↦ none | some p ↦ some (c ∷ p.0, p.1) ]

trim_start-trim_end :
    (p : ℕ → Bool) (s : Text)
    → trim_start_matches p (trim_end_matches p (trim_start_matches p s))
      ≡ trim_end_matches p (trim_start_matches p s)
unfolding trim_start_matches trim_end_matches
trim_start-trim_end p [] = refl
trim_start-trim_end p (c ∷ s) = ground (arith, trim_start-trim_end p s, Bool-cases (p c))

trim_end_idem :
    (p : ℕ → Bool) (s : Text) → trim_end_matches p (trim_end_matches p s) ≡ trim_end_matches p s
unfolding trim_end_matches
trim_end_idem p [] = refl
trim_end_idem p (c ∷ s) =
    ground
      (arith, trim_end_idem p s, Bool-cases (p c), Bool-cases (is_empty (trim_end_matches p s)))

trim_idem : (s : Text) → trim (trim s) ≡ trim s
unfolding trim
trim_idem s =
    ap (trim_end_matches is_whitespace) (trim_start-trim_end is_whitespace s)
    ∙ trim_end_idem is_whitespace (trim_start_matches is_whitespace s)

trim_start-to_ascii_lowercase :
    (s : Text)
    → trim_start_matches is_whitespace (to_ascii_lowercase s)
      ≡ to_ascii_lowercase (trim_start_matches is_whitespace s)
unfolding trim_start_matches to_ascii_lowercase
trim_start-to_ascii_lowercase [] = refl
trim_start-to_ascii_lowercase (c ∷ s) =
    ground
      (arith, lower-is_whitespace c, trim_start-to_ascii_lowercase s, Bool-cases (is_whitespace c))

is_empty-to_ascii_lowercase : (s : Text) → is_empty (to_ascii_lowercase s) ≡ is_empty s
unfolding to_ascii_lowercase
is_empty-to_ascii_lowercase [] = refl
is_empty-to_ascii_lowercase (c ∷ s) = refl

trim_end-to_ascii_lowercase :
    (s : Text)
    → trim_end_matches is_whitespace (to_ascii_lowercase s)
      ≡ to_ascii_lowercase (trim_end_matches is_whitespace s)
unfolding trim_end_matches to_ascii_lowercase
trim_end-to_ascii_lowercase [] = refl
trim_end-to_ascii_lowercase (c ∷ s) = ground (
  arith,
  lower-is_whitespace c,
  trim_end-to_ascii_lowercase s,
  is_empty-to_ascii_lowercase (trim_end_matches is_whitespace s),
  Bool-cases (is_whitespace c),
  Bool-cases (is_empty (trim_end_matches is_whitespace s)),
)

-- A key is its own key.
pub name_key_idem : (s : Text) → name_key (name_key s) ≡ name_key s
unfolding name_key trim
name_key_idem s =
    ap to_ascii_lowercase (
      ap (trim_end_matches is_whitespace) (trim_start-to_ascii_lowercase (trim s))
      ∙ trim_end-to_ascii_lowercase (trim_start_matches is_whitespace (trim s))
      ∙ ap to_ascii_lowercase (trim_idem s))
    ∙ to_ascii_lowercase_idem (trim s)

unfoldable pub strip_prefix : Text → Text → Option Text
unfolding starts_with
strip_prefix s p = if starts_with s p then some (drop (length p) s) else none
