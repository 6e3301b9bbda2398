-- ===== src/Sbc/Prefix/Containment.antt =====
-- A prefix contains the addresses whose leading bits are its own, and containment of prefixes is
-- containment of their addresses.
use Prim.Native.Nat.{bit_and}
use native.Mathlib.Nat.{
  one-le-pow, pow-suc, mul_assoc, div-div-eq-div-mul, div-lt_iff_lt-mul, mod-eq_of_lt,
  eq_of_mul-eq-mul_right,
}
use slopmud.Prelude.Below.{below, below-use}
use slopmud.Prelude.{
  ℕ, zero, suc, ◌+◌, ◌-◌, ◌*◌, ◌/◌, ◌^◌, ◌≤◌, ◌<◌, ◌≡◌, refl, sym, ap, ap₂, ◌∙◌, Bool, true, false,
  arith, ◌==◌, ==_iff, nat_eq, list_eq,
}
use slopmud.Prelude.Bits.{bit_and-shifted, bit_and-ones}
use slopmud.Sbc.Prefix.{
  IpAddr, v4, v6, IpPrefix, mask, max_len, matches, contains_ip, contains_prefix,
}

pow_add : (n k : ℕ) → 2 ^ (n + k) ≡ 2 ^ n * 2 ^ k
pow_add n zero = ap (λ (t : ℕ). 2 ^ t) {y = n} (omega arith) ∙ omega arith
pow_add n (suc k) =
    ap (λ (t : ℕ). 2 ^ t) {y = suc (n + k)} (omega arith)
    ∙ pow-suc 2 (n + k)
    ∙ ap (λ (t : ℕ). t * 2) (pow_add n k)
    ∙ mul_assoc (2 ^ n) (2 ^ k) 2
    ∙ ap (λ (t : ℕ). 2 ^ n * t) (sym (pow-suc 2 k))

quotient_add : (a k d : ℕ) → a / 2 ^ (k + d) ≡ a / 2 ^ k / 2 ^ d
quotient_add a k d = ap (λ t. a / t) (pow_add k d) ∙ sym (div-div-eq-div-mul a (2 ^ k) (2 ^ d))

-- A mask is ones in front of zeros, at either width.
is_ones : ℕ → ℕ → Bool
unfolding mask
is_ones w n = mask w n == (2 ^ n - 1) * 2 ^ (w - n)

mask_ones :
    (w n : ℕ) → below (suc w) (is_ones w) ≡ true → n ≤ w → mask w n ≡ (2 ^ n - 1) * 2 ^ (w - n)
unfolding is_ones
mask_ones w n h small =
    (==_iff (mask w n) ((2 ^ n - 1) * 2 ^ (w - n))).0
      (below-use (suc w) (is_ones w) n h (omega arith))

mask_32 : (n : ℕ) → n ≤ 32 → mask 32 n ≡ (2 ^ n - 1) * 2 ^ (32 - n)
unfolding is_ones
mask_32 n = mask_ones 32 n refl

mask_128 : (n : ℕ) → n ≤ 128 → mask 128 n ≡ (2 ^ n - 1) * 2 ^ (128 - n)
unfolding is_ones
mask_128 n = mask_ones 128 n refl

-- A mask keeps the leading bits.
bit_and-mask :
    (w n a : ℕ)
    → mask w n ≡ (2 ^ n - 1) * 2 ^ (w - n)
    → n ≤ w
    → a < 2 ^ w
    → bit_and a (mask w n) ≡ a / 2 ^ (w - n) * 2 ^ (w - n)
bit_and-mask w n a ones h small =
    let k : ℕ = w - n in
    let split : 2 ^ w ≡ 2 ^ n * 2 ^ k =
      ap (λ (t : ℕ). 2 ^ t) {y = n + k} (omega arith) ∙ pow_add n k in
    let high : a / 2 ^ k < 2 ^ n =
      (div-lt_iff_lt-mul (one-le-pow k 2 (omega arith))).1 (omega (arith, split, small)) in
    ap (bit_and a) ones
    ∙ bit_and-shifted k a (2 ^ n - 1)
    ∙ ap (λ (t : ℕ). t * 2 ^ k) (bit_and-ones n (a / 2 ^ k) ∙ mod-eq_of_lt high)

abbrev pub IsAddr : IpAddr → Type 0
IsAddr (v4 a) = a < 2 ^ 32
IsAddr (v6 a) = a < 2 ^ 128

-- What `new` makes of an address.
abbrev pub IsPrefix : IpPrefix → Type 0
IsPrefix p = IsAddr p.addr × (p.prefix_len ≤ max_len p.addr)

-- The reference: addresses of one family whose first `n` bits are the same.
abbrev pub agrees : IpAddr → ℕ → IpAddr → Bool
agrees (v4 a) n (v4 b) = a / 2 ^ (32 - n) == b / 2 ^ (32 - n)
agrees (v6 a) n (v6 b) = a / 2 ^ (128 - n) == b / 2 ^ (128 - n)
agrees (v4 a) n (v6 b) = false
agrees (v6 a) n (v4 b) = false

scale : (x y t : ℕ) → 0 < t → ((x * t) == (y * t)) ≡ (x == y)
scale x y t h = ground (arith, eq_of_mul-eq-mul_right t h x y, scaled)
  where
    scaled : x ≡ y → x * t ≡ y * t
    scaled e = ap (λ z. z * t) e

matches-agrees :
    (a : IpAddr) (n : ℕ) (b : IpAddr)
    → IsAddr a
    → n ≤ max_len a
    → IsAddr b
    → matches a n b ≡ agrees a n b
unfolding matches
matches-agrees (v4 a) n (v4 b) ha hn hb =
    ap₂ ◌==◌ (bit_and-mask 32 n a (mask_32 n hn) hn ha) (bit_and-mask 32 n b (mask_32 n hn) hn hb)
    ∙ scale (a / 2 ^ (32 - n)) (b / 2 ^ (32 - n)) (2 ^ (32 - n))
        (one-le-pow (32 - n) 2 (omega arith))
matches-agrees (v6 a) n (v6 b) ha hn hb =
    ap₂ ◌==◌ (bit_and-mask 128 n a (mask_128 n hn) hn ha)
      (bit_and-mask 128 n b (mask_128 n hn) hn hb)
    ∙ scale (a / 2 ^ (128 - n)) (b / 2 ^ (128 - n)) (2 ^ (128 - n))
        (one-le-pow (128 - n) 2 (omega arith))
matches-agrees (v4 a) n (v6 b) ha hn hb = refl
matches-agrees (v6 a) n (v4 b) ha hn hb = refl

-- For a prefix length and addresses that their families allow: a prefix contains just the addresses
-- of its family that agree with its address in the first `prefix_len` bits.
pub contains_ip-agrees :
    (p : IpPrefix) (ip : IpAddr)
    → IsPrefix p
    → IsAddr ip
    → contains_ip p ip ≡ agrees p.addr p.prefix_len ip
unfolding contains_ip
contains_ip-agrees p ip h hip = matches-agrees p.addr p.prefix_len ip h.0 h.1 hip

lead :
    (w n m a b c : ℕ)
    → n ≤ m
    → m ≤ w
    → a / 2 ^ (w - n) ≡ b / 2 ^ (w - n)
    → b / 2 ^ (w - m) ≡ c / 2 ^ (w - m)
    → a / 2 ^ (w - n) ≡ c / 2 ^ (w - n)
lead w n m a b c nm mw first second =
    let split : w - n ≡ w - m + (m - n) = omega arith in
    first
    ∙ ap (λ (k : ℕ). b / 2 ^ k) split
    ∙ quotient_add b (w - m) (m - n)
    ∙ ap (λ (t : ℕ). t / 2 ^ (m - n)) second
    ∙ sym (quotient_add c (w - m) (m - n))
    ∙ ap (λ (k : ℕ). c / 2 ^ k) (sym split)

agrees_trans :
    (a : IpAddr) (n : ℕ) (b : IpAddr) (m : ℕ) (c : IpAddr)
    → n ≤ m
    → m ≤ max_len b
    → agrees a n b ≡ true
    → agrees b m c ≡ true
    → agrees a n c ≡ true
agrees_trans (v4 a) n (v4 b) m (v4 c) nm mw first second = ground (arith, lead 32 n m a b c)
agrees_trans (v6 a) n (v6 b) m (v6 c) nm mw first second = ground (arith, lead 128 n m a b c)
agrees_trans (v4 a) n (v4 b) m (v6 c) nm mw first second = second
agrees_trans (v6 a) n (v6 b) m (v4 c) nm mw first second = second
agrees_trans (v4 a) n (v6 b) m c nm mw first second = absurd (ground (arith, first))
agrees_trans (v6 a) n (v4 b) m c nm mw first second = absurd (ground (arith, first))

contained :
    (p q : IpPrefix)
    → contains_prefix p q ≡ true
    → (p.prefix_len ≤ q.prefix_len) × (contains_ip p q.addr ≡ true)
unfolding contains_prefix
contained p q whole = ground (arith, whole)

-- For prefix lengths and addresses that their families allow: a prefix that `contains_prefix` another
-- contains every address of the other.
pub contains_prefix-contains_ip :
    (p q : IpPrefix) (ip : IpAddr)
    → IsPrefix p
    → IsPrefix q
    → IsAddr ip
    → contains_prefix p q ≡ true
    → contains_ip q ip ≡ true
    → contains_ip p ip ≡ true
unfolding contains_prefix
contains_prefix-contains_ip p q ip hp hq hip whole here =
    let (le, first) = contained p q whole in
    contains_ip-agrees p ip hp hip
    ∙ agrees_trans p.addr p.prefix_len q.addr q.prefix_len ip le hq.1
        (sym (contains_ip-agrees p q.addr hp hq.0) ∙ first)
        (sym (contains_ip-agrees q ip hq hip) ∙ here)
