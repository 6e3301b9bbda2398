-- ===== src/Shard/World/Inventory/Counts.antt =====
-- Items are neither lost nor made.
use slopmud.Prelude.{
  ℕ, zero, suc, ◌+◌, ◌-◌, ◌^◌, min, ◌≡◌, ap, true, arith, leb, if◌then◌else◌, Option-cases, ◌=?◌,
  =?_iff, nat_eq, list_eq, map_or,
}
use slopmud.Prelude.Text.{Text}
use slopmud.Prelude.Map.{get, get-insert, get-remove}
use slopmud.Shard.World.{add_u32}
use slopmud.Shard.World.Inventory.{Inv, add_item, set_count, take_one_item, take_n_items}

-- How many of an item are carried.
abbrev pub count : Text → Inv → ℕ
count item inv = map_or 0 (λ v. v) (get item inv)

count-set_count :
    (j item : Text) (n : ℕ) (inv : Inv)
    → count j (set_count inv item n) ≡ (if j =? item then n else count j inv)
unfolding set_count
count-set_count j item zero inv = ground (arith, get-remove j item inv)
count-set_count j item (suc n) inv = ground (arith, get-insert j item (suc n) inv)

pub count-add_item :
    (j item : Text) (n : ℕ) (inv : Inv)
    → count j (add_item inv item n)
      ≡ (if j =? item then min (count j inv + n) (2 ^ 32 - 1) else count j inv)
unfolding add_item add_u32
count-add_item j item n inv = ground (
  arith,
  get-insert j item (min (map_or 0 (λ v. v) (get item inv) + n) (2 ^ 32 - 1)) inv,
  =?_iff j item,
  ap (λ i. count i inv),
)

-- Taking up to n of an item takes as many as there are; what is taken and what is left of each item make
-- up what was there. Taking one is taking up to one, and succeeds if there was one.
pub take_n_items-count :
    (j item : Text) (n : ℕ) (inv : Inv)
    → ((take_n_items inv item n).0 ≡ min (count item inv) n)
      × (count j (take_n_items inv item n).1 ≡ (if j =? item then count j inv - n else count j inv))
      × (count j (take_one_item inv item).1 ≡ count j (take_n_items inv item 1).1)
      × ((take_one_item inv item).0 ≡ leb 1 (count item inv))
unfolding take_n_items take_one_item
take_n_items-count j item n inv =
    let have : ℕ = count item inv in
    let same : ((j =? item) ≡ true) → count j inv ≡ have =
      λ e. ap (λ i. count i inv) ((=?_iff j item).0 e) in
    let found = Option-cases (get item inv) in
    let gone = get-remove j item inv in
    (
      ground (arith, found),
      ground (arith, found, same, count-set_count j item (have - min have n) inv),
      ground (
        arith,
        found,
        same,
        count-set_count j item (have - min have 1) inv,
        count-set_count j item (have - 1) inv,
        gone,
      ),
      ground (arith, found),
    )
