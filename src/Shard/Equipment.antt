-- ===== src/Shard/Equipment.antt =====
-- apps/shard_01/src/items.rs: EquipSlot; apps/shard_01/src/main.rs: Equipment. The map of slots is a
-- function of the slot.
use slopmud.Prelude.{Bool, Option, none, some, List, [], ◌∷◌, if◌then◌else◌, ◌=?◌, nat_eq, list_eq}
use slopmud.Prelude.Text.{Text, text, name_key}
use slopmud.Prelude.Map.{get}

pub data EquipSlot : Type 0 where
  wield : EquipSlot
  shield : EquipSlot
  head : EquipSlot
  body : EquipSlot
  legs : EquipSlot
  feet : EquipSlot
  hands : EquipSlot
  arms : EquipSlot

abbrev pub all_slots : List EquipSlot
all_slots = wield ∷ shield ∷ head ∷ body ∷ arms ∷ hands ∷ legs ∷ feet ∷ []

unfoldable pub slot_as_str : EquipSlot → Text
slot_as_str wield = text "wield"
slot_as_str shield = text "shield"
slot_as_str head = text "head"
slot_as_str body = text "body"
slot_as_str legs = text "legs"
slot_as_str feet = text "feet"
slot_as_str hands = text "hands"
slot_as_str arms = text "arms"

-- The arms of `EquipSlot::parse`.
abbrev pub slot_arms : List (Text × EquipSlot)
slot_arms =
    (text "wield", wield)
    ∷ (text "weapon", wield)
    ∷ (text "mainhand", wield)
    ∷ (text "main-hand", wield)
    ∷ (text "shield", shield)
    ∷ (text "offhand", shield)
    ∷ (text "off-hand", shield)
    ∷ (text "head", head)
    ∷ (text "helm", head)
    ∷ (text "helmet", head)
    ∷ (text "body", body)
    ∷ (text "torso", body)
    ∷ (text "chest", body)
    ∷ (text "armor", body)
    ∷ (text "armour", body)
    ∷ (text "legs", legs)
    ∷ (text "pants", legs)
    ∷ (text "trousers", legs)
    ∷ (text "feet", feet)
    ∷ (text "boots", feet)
    ∷ (text "shoes", feet)
    ∷ (text "hands", hands)
    ∷ (text "hand", hands)
    ∷ (text "gloves", hands)
    ∷ (text "gauntlets", hands)
    ∷ (text "arms", arms)
    ∷ (text "sleeves", arms)
    ∷ []

unfoldable pub slot_parse : Text → Option EquipSlot
slot_parse s = get (name_key s) slot_arms

-- Slots are equal if their names are.
unfoldable pub same_slot : EquipSlot → EquipSlot → Bool
unfolding slot_as_str
same_slot a b = slot_as_str a =? slot_as_str b

pub record Equipment : Type 0 where
  pub slots : EquipSlot → Option Text

abbrev pub no_equipment : Equipment
no_equipment = record { slots = λ s. none }

unfoldable pub set_slot : Equipment → EquipSlot → Text → Equipment
unfolding same_slot
set_slot e slot item = record { slots = λ s. if same_slot s slot then some item else e.slots s }

unfoldable pub clear_slot : Equipment → EquipSlot → Equipment
unfolding same_slot
clear_slot e slot = record { slots = λ s. if same_slot s slot then none else e.slots s }
