-- ===== src/Shard/World/Inventory.antt =====
-- apps/shard_01/src/main.rs: what a character carries: inv_add, inv_take_one, inv_take_n and the starter
-- kit. Each works on the character's own map where there is such a character.
pub mod Counts
use slopmud.Prelude.{
  ℕ, zero, suc, ◌+◌, ◌-◌, ◌*◌, ◌/◌, ◌%◌, ◌^◌, ◌≤◌, ◌<◌, min, max, ◌≡◌, refl, sym, ap, ap₂, ◌∙◌,
  subst, ◌≢◌, ◌↔◌, ◌⊎◌, inl, inr, Bool, true, false, not, ◌&&◌, ◌||◌, Option, none, some, List, [],
  ◌∷◌, ◌++◌, map, append-nil, append_assoc, arith, ltb, leb, ◌==◌, if◌then◌else◌, ==_iff,
  Bool-cases, Option-cases, Eq, ◌=?◌, =?_iff, =?_refl, nat_eq, list_eq, list_beq, list_beq_iff,
  length, get_elem?, take, drop, is_empty, any, all, concat, All, length-append, take-append-drop,
  length-take, length-drop, take_front, drop_front, take_all, take_front_of, drop_front_of,
  take-append_left, take_past, drop_past, get_elem?-front, get_elem?-append_left, All-append,
  All-left, reverse, reverse-append, reverse-reverse, filter, length-reverse, drop-append,
  drop-drop, drop_all, reverse-take, take_one, take_over, take_least, All-right, List-cases, map_or,
  map_or_intro, if_intro,
}
use slopmud.Prelude.Text.{Text, text}
use slopmud.Prelude.Map.{get, insert, remove}
use slopmud.Shard.Creature.{Size, small, medium, large}
use slopmud.Shard.World.{World, Character, with_char, add_u32}

abbrev pub Inv : Type 0
Inv = List (Text × ℕ)

unfoldable pub add_item : Inv → Text → ℕ → Inv
unfolding add_u32
add_item inv item n = insert item (add_u32 (map_or 0 (λ v. v) (get item inv)) n) inv

-- The count that is left is stored, or the item is removed when it is 0.
unfoldable pub set_count : Inv → Text → ℕ → Inv
set_count inv item zero = remove item inv
set_count inv item (suc n) = insert item (suc n) inv

unfoldable pub take_one_item : Inv → Text → Bool × Inv
unfolding set_count
take_one_item inv item =
    map_or (false, inv)
      (λ v. if v == 0 then (false, remove item inv) else (true, set_count inv item (v - 1)))
      (get item inv)

unfoldable pub take_n_items : Inv → Text → ℕ → ℕ × Inv
unfolding set_count
take_n_items inv item n =
    map_or (0, inv) (λ v. (min v n, set_count inv item (v - min v n))) (get item inv)

-- The operations of World.
unfoldable pub set_inv : World → ℕ → Inv → World
unfolding with_char
set_inv w cid inv = record w { chars = with_char cid (λ c. record c { inv = inv }) w.chars }

unfoldable pub inv_add : World → ℕ → Text → ℕ → World
unfolding set_inv add_item
inv_add w cid item n =
    map_or w (λ (c : Character). set_inv w cid (add_item c.inv item n)) (get cid w.chars)

unfoldable pub inv_take_one : World → ℕ → Text → Bool × World
unfolding set_inv take_one_item
inv_take_one w cid item =
    map_or (false, w)
      (λ (c : Character). let r = take_one_item c.inv item in (r.0, set_inv w cid r.1))
      (get cid w.chars)

unfoldable pub inv_take_n : World → ℕ → Text → ℕ → ℕ × World
unfolding set_inv take_n_items
inv_take_n w cid item n =
    map_or (0, w) (λ (c : Character). let r = take_n_items c.inv item n in (r.0, set_inv w cid r.1))
      (get cid w.chars)

unfoldable pub starter_kit_for_size : Size → Inv
starter_kit_for_size small =
    (text "practice sword (small)", 1)
    ∷ (text "wooden buckler (small)", 1)
    ∷ (text "training tunic (small)", 1)
    ∷ (text "training boots (small)", 1)
    ∷ (text "field bandage", 3)
    ∷ []
starter_kit_for_size medium =
    (text "practice sword (medium)", 1)
    ∷ (text "wooden buckler (medium)", 1)
    ∷ (text "training tunic (medium)", 1)
    ∷ (text "training boots (medium)", 1)
    ∷ (text "field bandage", 3)
    ∷ []
starter_kit_for_size large =
    (text "practice sword (medium)", 1)
    ∷ (text "wooden buckler (medium)", 1)
    ∷ (text "training tunic (medium)", 1)
    ∷ (text "training boots (medium)", 1)
    ∷ (text "field bandage", 3)
    ∷ []
