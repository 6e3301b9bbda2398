-- ===== src/Prelude/Below.antt =====
-- A test on every number below a literal bound, settled by evaluation.
use slopmud.Prelude.{
  ℕ, zero, suc, ◌<◌, ◌≡◌, ap, ◌∙◌, inl, inr, Bool, true, ◌&&◌, arith, ◌==◌, ==_iff, Bool-cases,
  nat_eq, list_eq,
}

abbrev pub below : ℕ → (ℕ → Bool) → Bool
below zero p = true
below (suc n) p = p n && below n p

pub below-use : (n : ℕ) (p : ℕ → Bool) (d : ℕ) → below n p ≡ true → d < n → p d ≡ true
below-use zero p d h small = absurd (omega arith)
below-use (suc n) p d h small = elim (Bool-cases (d == n)) [
  | inl e ↦ ap p ((==_iff d n).0 e) ∙ ground (arith, h)
  | inr e ↦ below-use n p d (ground (arith, h)) (ground arith)
]
