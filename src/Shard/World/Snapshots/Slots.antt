-- ===== src/Shard/World/Snapshots/Slots.antt =====
-- The map of equipment that is stored gives the equipment back.
use slopmud.Prelude.{
  ◌≡◌, refl, sym, ap, ◌∙◌, Bool, true, false, Option, none, some, List, [], ◌∷◌, arith,
  if◌then◌else◌, Bool-cases, Option-cases, =?_iff, nat_eq, list_eq, any, map_or,
}
use slopmud.Prelude.Text.{
  Text, name_key, trim, trim_start_matches, trim_end_matches, is_whitespace, to_ascii_lowercase,
  lower,
}
use slopmud.Prelude.Map.{get, insert, remove}
use slopmud.Shard.Equipment.{
  EquipSlot, all_slots, wield, shield, head, body, legs, feet, hands, arms, slot_as_str, slot_parse,
  slot_arms, same_slot, Equipment, set_slot,
}
use slopmud.Shard.World.Snapshots.{equip_to_map, equip_of_map}

slot_arm_of : (s : EquipSlot) → get (slot_as_str s) slot_arms ≡ some s
unfolding slot_as_str
slot_arm_of wield = refl
slot_arm_of shield = refl
slot_arm_of head = refl
slot_arm_of body = refl
slot_arm_of legs = refl
slot_arm_of feet = refl
slot_arm_of hands = refl
slot_arm_of arms = refl

slot_key : (s : EquipSlot) → name_key (slot_as_str s) ≡ slot_as_str s
unfolding slot_as_str name_key trim trim_start_matches trim_end_matches is_whitespace
    to_ascii_lowercase lower
slot_key wield = refl
slot_key shield = refl
slot_key head = refl
slot_key body = refl
slot_key legs = refl
slot_key feet = refl
slot_key hands = refl
slot_key arms = refl

slot_parse-slot_as_str : (s : EquipSlot) → slot_parse (slot_as_str s) ≡ some s
unfolding slot_parse
slot_parse-slot_as_str s = ap (λ k. get k slot_arms) (slot_key s) ∙ slot_arm_of s

same_slot_eq : (s t : EquipSlot) → same_slot s t ≡ true → s ≡ t
unfolding same_slot
same_slot_eq s t h = some_injective (
    sym (slot_arm_of s)
    ∙ ap (λ k. get k slot_arms) ((=?_iff (slot_as_str s) (slot_as_str t)).0 h)
    ∙ slot_arm_of t)
  where
    some_injective : {x y : EquipSlot} → some x ≡ some y → x ≡ y
    some_injective {x} {y} e = cc

-- The key names the slot.
abbrev names_slot : EquipSlot → Text → Bool
names_slot s k = map_or false (same_slot s) (slot_parse k)

slots-cons :
    (s : EquipSlot) (k item : Text) (m : List (Text × Text))
    → (equip_of_map ((k, item) ∷ m)).slots s
      ≡ (if names_slot s k then some item else (equip_of_map m).slots s)
unfolding equip_of_map set_slot
slots-cons s k item m = ground (arith, Option-cases (slot_parse k))

slots-remove :
    (s : EquipSlot) (k : Text) (m : List (Text × Text))
    → names_slot s k ≡ false
    → (equip_of_map (remove k m)).slots s ≡ (equip_of_map m).slots s
slots-remove s k [] h = refl
slots-remove s k ((j, item) ∷ m) h = ground (
  arith,
  h,
  slots-remove s k m h,
  =?_iff k j,
  slots-cons s j item m,
  slots-cons s j item (remove k m),
  ap (names_slot s),
)

named : (s t : EquipSlot) → names_slot s (slot_as_str t) ≡ same_slot s t
named s t = ap (map_or false (same_slot s)) (slot_parse-slot_as_str t)

slots-kept :
    (e : Equipment) (s : EquipSlot) (ss : List EquipSlot)
    → (equip_of_map (equip_to_map e ss)).slots s
      ≡ (if any (same_slot s) ss then e.slots s else none)
unfolding equip_to_map equip_of_map
slots-kept e s [] = refl
slots-kept e s (t ∷ ss) = ground (
  arith,
  slots-kept e s ss,
  named s t,
  same_slot_eq s t,
  ap e.slots,
  Bool-cases (any (same_slot s) ss),
  Bool-cases (same_slot s t),
  stored (e.slots t),
)
  where
    rest : List (Text × Text)
    rest = equip_to_map e ss

    stored :
        (o : Option Text)
        → (equip_of_map (map_or rest (λ item. insert (slot_as_str t) item rest) o)).slots s
          ≡ map_or
              ((equip_of_map rest).slots s)
              (λ item. if same_slot s t then some item else (equip_of_map rest).slots s)
              o
    stored none = refl
    stored (some item) = ground (
      arith,
      slots-cons s (slot_as_str t) item (remove (slot_as_str t) rest),
      named s t,
      slots-remove s (slot_as_str t) rest,
      Bool-cases (same_slot s t),
    )

every_slot : (s : EquipSlot) → any (same_slot s) all_slots ≡ true
unfolding same_slot slot_as_str
every_slot wield = refl
every_slot shield = refl
every_slot head = refl
every_slot body = refl
every_slot legs = refl
every_slot feet = refl
every_slot hands = refl
every_slot arms = refl

pub equip_of_map-equip_to_map : (e : Equipment) → equip_of_map (equip_to_map e all_slots) ≡ e
equip_of_map-equip_to_map e = λ i. record { slots = λ s. kept s i }
  where
    kept : (s : EquipSlot) → (equip_of_map (equip_to_map e all_slots)).slots s ≡ e.slots s
    kept s = ground (arith, slots-kept e s all_slots, every_slot s)
