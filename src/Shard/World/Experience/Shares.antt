-- ===== src/Shard/World/Experience/Shares.antt =====
-- A party's experience is shared out whole.
use slopmud.Prelude.{
  ℕ, ◌+◌, ◌*◌, ◌/◌, ◌%◌, ◌≤◌, ◌≡◌, refl, ap, List, [], ◌∷◌, map, arith, nat_eq, list_eq, length,
  All,
}
use native.Mathlib.Nat.{div-add-mod}
use slopmud.Shard.World.Experience.{shares}

abbrev pub total : List (ℕ × ℕ) → ℕ
total [] = 0
total (p ∷ ps) = p.1 + total ps

total-map :
    (share : ℕ) (mids : List ℕ) → total (map (λ mid. (mid, share)) mids) ≡ length mids * share
total-map share [] = omega arith
total-map share (m ∷ mids) = omega (arith, total-map share mids)

first_of_each :
    (share : ℕ) (mids : List ℕ) → map (λ (p : ℕ × ℕ). p.0) (map (λ mid. (mid, share)) mids) ≡ mids
first_of_each share [] = refl
first_of_each share (m ∷ mids) = ap (λ r. m ∷ r) (first_of_each share mids)

equal_share :
    (share : ℕ) (mids : List ℕ) → All (λ (p : ℕ × ℕ). share ≤ p.1) (map (λ mid. (mid, share)) mids)
equal_share share [] = tt
equal_share share (m ∷ mids) = (omega arith, equal_share share mids)

-- The shares of a party that is not empty go to its members, in order; they add up to the experience, and
-- nobody gets less than an equal part, rounded down.
pub total-shares :
    (xp first : ℕ) (rest : List ℕ)
    → (total (shares xp (first ∷ rest)) ≡ xp)
      × (map (λ (p : ℕ × ℕ). p.0) (shares xp (first ∷ rest)) ≡ first ∷ rest)
      × All (λ (p : ℕ × ℕ). xp / length (first ∷ rest) ≤ p.1) (shares xp (first ∷ rest))
unfolding shares
total-shares xp first rest =
    let n : ℕ = length (first ∷ rest) in
    let q : ℕ = xp / n in
    let others : total (map (λ mid. (mid, q)) rest) ≡ length rest * q = total-map q rest in
    let whole : n * q + xp % n ≡ xp = div-add-mod xp n in
    let split : n * q ≡ q + length rest * q = omega arith in
    (
      omega (arith, others, whole, split),
      ap (λ r. first ∷ r) (first_of_each q rest),
      (omega arith, equal_share q rest),
    )
