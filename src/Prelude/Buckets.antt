-- ===== src/Prelude/Buckets.antt =====
-- A `HashSet` as a list that is asked for its members only, and a `HashMap` of sets that keeps no
-- empty one: an element is taken out with `get_mut`, `remove` and the removal of a set left empty,
-- and put in with `entry(..).or_default().insert(..)`.
use slopmud.Prelude.{
  ◌≡◌, refl, ap, Bool, true, false, ◌&&◌, none, some, List, [], ◌∷◌, arith, if◌then◌else◌,
  Bool-cases, Option-cases, Eq, ◌=?◌, =?_iff, nat_eq, list_eq, is_empty,
}
use slopmud.Prelude.Map.{get, insert, remove, get-insert, get-remove}

module _ {ℓ} {A : Type ℓ} ⦃e : Eq A⦄ where
  abbrev pub mem : A → List A → Bool
  mem a [] = false
  mem a (x ∷ s) = if a =? x then true else mem a s

  abbrev pub set_insert : A → List A → List A
  set_insert a s = if mem a s then s else a ∷ s

  abbrev pub set_remove : A → List A → List A
  set_remove a [] = []
  set_remove a (x ∷ s) = let rest = set_remove a s in if a =? x then rest else x ∷ rest

  pub mem-set_insert :
      (a b : A) (s : List A) → mem a (set_insert b s) ≡ (if a =? b then true else mem a s)
  mem-set_insert a b s = ground (arith, =?_iff a b, Bool-cases (mem b s), ap (λ i. mem i s))

  pub mem-set_remove :
      (a b : A) (s : List A) → mem a (set_remove b s) ≡ (if a =? b then false else mem a s)
  mem-set_remove a b [] = ground arith
  mem-set_remove a b (x ∷ s) =
      ground (arith, mem-set_remove a b s, =?_iff a b, =?_iff b x, =?_iff a x, ap (λ i. i =? x))

  pub not_empty : (a : A) (s : List A) → mem a s ≡ true → is_empty s ≡ false
  not_empty a [] h = absurd (ground arith)
  not_empty a (x ∷ s) h = refl

  pub empty_mem : (a : A) (s : List A) → is_empty s ≡ true → mem a s ≡ false
  empty_mem a [] h = refl
  empty_mem a (x ∷ s) h = absurd (ground arith)

module _ {κ ℓ} {K : Type κ} {A : Type ℓ} ⦃k : Eq K⦄ ⦃e : Eq A⦄ where
  abbrev pub members_of : K → List (K × List A) → List A
  members_of b m = elim (get b m) [ none ↦ [] | some s ↦ s ]

  unfoldable pub take_out : K → A → List (K × List A) → List (K × List A)
  take_out b a m = elim (get b m) [
    | none ↦ m
    | some s ↦
        let rest : List A = set_remove a s in if is_empty rest then remove b m else insert b rest m
  ]

  unfoldable pub put_in : K → A → List (K × List A) → List (K × List A)
  put_in b a m = insert b (set_insert a (members_of b m)) m

  abbrev pub in_bucket : K → A → List (K × List A) → Bool
  in_bucket b a m = mem a (members_of b m)

  abbrev pub has_empty : K → List (K × List A) → Bool
  has_empty b m = elim (get b m) [ none ↦ false | some s ↦ is_empty s ]

  pub in_bucket-take_out :
      (c : K) (d : A) (b : K) (a : A) (m : List (K × List A))
      → in_bucket c d (take_out b a m) ≡ (if (c =? b) && (d =? a) then false else in_bucket c d m)
  unfolding take_out
  in_bucket-take_out c d b a m = ground (
    arith,
    Option-cases (get b m),
    =?_iff c b,
    Bool-cases (d =? a),
    get-remove c b m,
    Bool-cases (is_empty (set_remove a (members_of b m))),
    mem-set_remove d a (members_of b m),
    get-insert c b (set_remove a (members_of b m)) m,
    empty_mem d (set_remove a (members_of b m)),
    ap (λ i. get i m),
  )

  -- No operation leaves a set empty.
  pub has_empty-take_out :
      (c : K) (b : K) (a : A) (m : List (K × List A))
      → has_empty c m ≡ false
      → has_empty c (take_out b a m) ≡ false
  unfolding take_out
  has_empty-take_out c b a m h = ground (
    arith,
    Option-cases (get b m),
    =?_iff c b,
    get-remove c b m,
    Bool-cases (is_empty (set_remove a (members_of b m))),
    get-insert c b (set_remove a (members_of b m)) m,
  )

  pub has_empty-put_in :
      (c : K) (b : K) (a : A) (m : List (K × List A))
      → has_empty c m ≡ false
      → has_empty c (put_in b a m) ≡ false
  unfolding put_in
  has_empty-put_in c b a m h = ground (
    arith,
    get-insert c b (set_insert a (members_of b m)) m,
    =?_iff c b,
    not_empty a (members_of b m),
    Bool-cases (mem a (members_of b m)),
  )

  pub in_bucket-put_in :
      (c : K) (d : A) (b : K) (a : A) (m : List (K × List A))
      → in_bucket c d (put_in b a m) ≡ (if (c =? b) && (d =? a) then true else in_bucket c d m)
  unfolding put_in
  in_bucket-put_in c d b a m = ground (
    arith,
    get-insert c b (set_insert a (members_of b m)) m,
    =?_iff c b,
    Bool-cases (d =? a),
    mem-set_insert d a (members_of b m),
    ap (λ i. get i m),
  )
