-- ===== src/Prelude/Map.antt =====
-- A `HashMap` as an association list over keys with equality. No operation depends on its order.
use slopmud.Prelude.{
  ◌≡◌, ap, true, Option, none, some, List, [], ◌∷◌, map, arith, if◌then◌else◌, Eq, ◌=?◌, =?_iff,
  nat_eq, list_eq,
}

module _ {κ ℓ} {K : Type κ} {V : Type ℓ} ⦃e : Eq K⦄ where
  abbrev pub get : K → List (K × V) → Option V
  get k [] = none
  get k (p ∷ m) = if k =? p.0 then some p.1 else get k m

  abbrev pub remove : K → List (K × V) → List (K × V)
  remove k [] = []
  remove k (p ∷ m) = let rest = remove k m in if k =? p.0 then rest else p ∷ rest

  abbrev pub insert : K → V → List (K × V) → List (K × V)
  insert k v m = (k, v) ∷ remove k m

  abbrev pub values : List (K × V) → List V
  values m = map (λ p. p.1) m

  get-equal : (k j : K) (m : List (K × V)) → (k =? j) ≡ true → get k m ≡ get j m
  get-equal k j m h = ap (λ i. get i m) ((=?_iff k j).0 h)

  pub get-remove :
      (k j : K) (m : List (K × V)) → get k (remove j m) ≡ (if k =? j then none else get k m)
  get-remove k j [] = ground arith
  get-remove k j (p ∷ m) =
      ground (arith, get-remove k j m, =?_iff k j, =?_iff j p.0, =?_iff k p.0, ap (λ i. i =? p.0))

  pub get-insert :
      (k j : K) (v : V) (m : List (K × V))
      → get k (insert j v m) ≡ (if k =? j then some v else get k m)
  get-insert k j v m = ground (arith, get-remove k j m)
