-- ===== src/Prelude/Bits.antt =====
-- Shifts, `|` of disjoint fields and `&` with a mask, as arithmetic, at every width. The native
-- operations stand for a recursion over binary digits, from which the laws are proved.
use Prim.Native.Nat.{bit_and, bit_or, digits, bit_and-bitwise, bit_or-bitwise}
use native.Mathlib.Nat.{
  pow-suc, one-le-pow, div-add-mod, mod-lt, mod-eq_of_lt, mul-add-mod_self_left, div-div-eq-div-mul,
}
use slopmud.Prelude.{
  ℕ, zero, suc, ◌+◌, ◌-◌, ◌*◌, ◌/◌, ◌%◌, ◌^◌, ◌≤◌, ◌<◌, min, max, ◌≡◌, refl, ap, ap₂, ◌∙◌, arith,
  nat_eq, list_eq,
}

-- The count of digits to go does not matter once it is enough.
enough :
    (z : ℕ → ℕ) (f : ℕ → ℕ → ℕ) (n m a b : ℕ) → a ≤ n → a ≤ m → digits z f n a b ≡ digits z f m a b
enough z f zero zero a b p q = refl
enough z f zero (suc m) zero b p q = refl
enough z f zero (suc m) (suc a) b p q = absurd (omega arith)
enough z f (suc n) zero zero b p q = refl
enough z f (suc n) zero (suc a) b p q = absurd (omega arith)
enough z f (suc n) (suc m) zero b p q = refl
enough z f (suc n) (suc m) (suc a) b p q =
    omega (arith, enough z f n m (suc a / 2) (b / 2) (omega arith) (omega arith))

-- Both operations by the last digit and the digits before it.
bit_and-halves : (a b : ℕ) → bit_and a b ≡ bit_and (a / 2) (b / 2) * 2 + min (a % 2) (b % 2)
bit_and-halves zero b = omega (arith, bit_and-bitwise 0 b, bit_and-bitwise 0 (b / 2))
bit_and-halves (suc a) b = omega (
  arith,
  bit_and-bitwise (suc a) b,
  bit_and-bitwise (suc a / 2) (b / 2),
  enough (λ y. 0) min a (suc a / 2) (suc a / 2) (b / 2) (omega arith) (omega arith),
)

bit_or-halves : (a b : ℕ) → bit_or a b ≡ bit_or (a / 2) (b / 2) * 2 + max (a % 2) (b % 2)
bit_or-halves zero b = omega (arith, bit_or-bitwise 0 b, bit_or-bitwise 0 (b / 2))
bit_or-halves (suc a) b = omega (
  arith,
  bit_or-bitwise (suc a) b,
  bit_or-bitwise (suc a / 2) (b / 2),
  enough (λ y. y) max a (suc a / 2) (suc a / 2) (b / 2) (omega arith) (omega arith),
)

or_zero : (n a : ℕ) → a ≤ n → bit_or a 0 ≡ a
or_zero n zero h = refl
or_zero zero (suc a) h = absurd (omega arith)
or_zero (suc n) (suc a) h =
    omega (arith, bit_or-halves (suc a) 0, or_zero n (suc a / 2) (omega arith))

and_zero : (n a : ℕ) → a ≤ n → bit_and a 0 ≡ 0
and_zero n zero h = refl
and_zero zero (suc a) h = absurd (omega arith)
and_zero (suc n) (suc a) h =
    omega (arith, bit_and-halves (suc a) 0, and_zero n (suc a / 2) (omega arith))

double : (q k : ℕ) → q * 2 ^ suc k ≡ q * 2 ^ k * 2
double q k = omega (arith, ap (λ (t : ℕ). q * t) (pow-suc 2 k))

-- `(q << k) | r`, where `r` has `k` bits.
pub bit_or-shifted : (k q r : ℕ) → r < 2 ^ k → bit_or (q * 2 ^ k) r ≡ q * 2 ^ k + r
bit_or-shifted zero q r h = ground (arith, or_zero q q)
bit_or-shifted (suc k) q r h =
    ground
      (arith, double q k, pow-suc 2 k, bit_or-halves (q * 2 ^ suc k) r, bit_or-shifted k q (r / 2))

mod_double : (m a : ℕ) → 0 < m → a % (m * 2) ≡ a / 2 % m * 2 + a % 2
mod_double m a h =
    let r : ℕ = a / 2 % m * 2 + a % 2 in
    let whole : a ≡ m * 2 * (a / 2 / m) + r = omega (arith, div-add-mod (a / 2) m) in
    let small : r < m * 2 = omega (arith, mod-lt (a / 2) h) in
    ap (λ t. t % (m * 2)) whole ∙ mul-add-mod_self_left (m * 2) (a / 2 / m) r ∙ mod-eq_of_lt small

-- `a & (2 ^ k - 1)`.
pub bit_and-ones : (k a : ℕ) → bit_and a (2 ^ k - 1) ≡ a % 2 ^ k
bit_and-ones zero a = omega (arith, and_zero a a)
bit_and-ones (suc k) a = omega (
  arith,
  pow-suc 2 k,
  one-le-pow k 2,
  bit_and-halves a (2 ^ suc k - 1),
  ap (bit_and (a / 2)) (halved k),
  bit_and-ones k (a / 2),
  mod_double (2 ^ k) a (one-le-pow k 2 (omega arith)),
  ap (λ (t : ℕ). a % t) (pow-suc 2 k),
)
  where
    halved : (k : ℕ) → (2 ^ suc k - 1) / 2 ≡ 2 ^ k - 1
    halved k = omega (arith, pow-suc 2 k, one-le-pow k 2)

-- `a & (m << k)`.
pub bit_and-shifted : (k a m : ℕ) → bit_and a (m * 2 ^ k) ≡ bit_and (a / 2 ^ k) m * 2 ^ k
bit_and-shifted zero a m = omega (arith, same)
  where
    same : bit_and a (m * 1) ≡ bit_and (a / 1) m
    same = ap₂ bit_and (omega arith) (omega arith)
bit_and-shifted (suc k) a m = omega (
  arith,
  bit_and-halves a (m * 2 ^ suc k),
  double m k,
  ap (bit_and (a / 2)) halved,
  bit_and-shifted k (a / 2) m,
  ap (λ (t : ℕ). bit_and t m * 2 ^ k) quotient,
  double (bit_and (a / 2 ^ suc k) m) k,
)
  where
    halved : m * 2 ^ suc k / 2 ≡ m * 2 ^ k
    halved = omega (arith, double m k)

    quotient : a / 2 / 2 ^ k ≡ a / 2 ^ suc k
    quotient = div-div-eq-div-mul a 2 (2 ^ k) ∙ ap (λ t. a / t) (omega (arith, pow-suc 2 k))
