-- ===== src/Shard/World/Deeds/Coming.antt =====
-- Characters that come into the world keep it sound.
use slopmud.Prelude.{
  ℕ, ◌-◌, ◌^◌, ◌<◌, refl, Bool, ◌||◌, Option, List, [], ◌∷◌, ◌=?◌, nat_eq, list_eq, is_empty,
  map_or, map_or_intro, if_intro,
}
use slopmud.Prelude.Text.{Text, text, name_key}
use slopmud.Prelude.Map.{get, insert}
use slopmud.Prelude.Int.{pos}
use slopmud.Shard.Authority.{Capability}
use slopmud.Shard.Creature.{Race, size, Sex, PronounKey, Class}
use slopmud.Shard.World.{World, Character, boss_telegraph}
use slopmud.Shard.World.Births.{
  settle, mob, spawn_mob, with_hp, spawn_stenchworm, spawn_boss, spawn_known, spawn_named_mob,
  take_control, newborn, give_all, spawn_character,
}
use slopmud.Shard.World.Deeds.Moving.{schedule_in_ms-IsSound}
use slopmud.Shard.World.Inventory.{Inv, add_item, set_inv, inv_add, starter_kit_for_size}
use slopmud.Shard.World.Life.{IsSound, with_char-IsSound, settle-IsSound}
use slopmud.Shard.World.Parties.Members.{HasParties}
use slopmud.Shard.World.Places.{IsPlaced}
use slopmud.Shard.World.Snapshots.{restored, restore_character, spawn_or_restore_character}

-- A new character, and the world with it, which is sound.
abbrev pub Born : ℕ × World → Type 0
Born r = IsSound r.1

module _ (w : World) (small : w.next_char_id < 2 ^ 64 - 1) (h : IsSound w) where
  pub spawn_mob-Born : (room_id name : Text) → Born (spawn_mob w room_id name)
  unfolding spawn_mob
  spawn_mob-Born room_id name = settle-IsSound w (mob w room_id name) small h

  with_hp-Born : (n : ℕ) (room_id name : Text) → Born (with_hp n (spawn_mob w room_id name))
  unfolding with_hp
  with_hp-Born n room_id name =
      let r = spawn_mob w room_id name in
      with_char-IsSound r.1 r.0 (λ c. record c { hp = pos n; max_hp = pos n }) (λ c. refl)
        (spawn_mob-Born room_id name)

  spawn_boss-Born : (r : ℕ × World) → Born r → Born (spawn_boss r)
  unfolding spawn_boss IsSound IsPlaced HasParties
  spawn_boss-Born r k =
      schedule_in_ms-IsSound
        (record r.1 { bosses = insert r.0 (record { casting_until_ms = 0; seq = 1 }) r.1.bosses })
        800 (boss_telegraph r.0) k

  spawn_known-Born : (room_id t : Text) → Born (spawn_known w room_id t)
  unfolding spawn_known spawn_stenchworm
  spawn_known-Born room_id t =
      if_intro Born (t =? text "stenchworm") _ _ (λ b. with_hp-Born 9 room_id (text "stenchworm"))
        (λ b.
          if_intro Born ((t =? text "dummy") || (t =? text "training_dummy")) _ _
            (λ c. with_hp-Born 120 room_id (text "dummy"))
            (λ c.
              if_intro Born (t =? text "rat") _ _ (λ d. with_hp-Born 5 room_id (text "rat"))
                (λ d.
                  if_intro Born (t =? text "spitter") _ _
                    (λ e. with_hp-Born 7 room_id (text "spitter"))
                    (λ e.
                      if_intro Born (t =? text "grease_king") _ _
                        (λ f.
                          spawn_boss-Born (with_hp 60 (spawn_mob w room_id (text "grease_king")))
                            (with_hp-Born 60 room_id (text "grease_king")))
                        (λ f. with_hp-Born 10 room_id t)))))

  pub spawn_named_mob-IsSound :
      (room_id token : Text) → IsSound (map_or w (λ r. r.1) (spawn_named_mob w room_id token))
  unfolding spawn_named_mob
  spawn_named_mob-IsSound room_id token =
      if_intro (λ (o : Option (ℕ × World)). IsSound (map_or w (λ r. r.1) o))
        (is_empty (name_key token)) _ _ (λ b. h) (λ b. spawn_known-Born room_id (name_key token))

take_control-IsSound :
    (w : World) (session cid : ℕ) → IsSound w → IsSound (take_control w session cid)
unfolding take_control IsSound IsPlaced HasParties
take_control-IsSound w session cid h = h

inv_add-IsSound :
    (w : World) (cid : ℕ) (item : Text) (n : ℕ) → IsSound w → IsSound (inv_add w cid item n)
unfolding inv_add set_inv
inv_add-IsSound w cid item n h =
    map_or_intro IsSound w (λ (c : Character). set_inv w cid (add_item c.inv item n))
      (get cid w.chars) h
      (λ c e. with_char-IsSound w cid (λ d. record d { inv = add_item c.inv item n }) (λ d. refl) h)

give_all-IsSound : (w : World) (cid : ℕ) (kit : Inv) → IsSound w → IsSound (give_all w cid kit)
unfolding give_all
give_all-IsSound w cid [] h = h
give_all-IsSound w cid ((item, n) ∷ kit) h =
    give_all-IsSound (inv_add w cid item n) cid kit (inv_add-IsSound w cid item n h)

pub spawn_or_restore_character-IsSound :
    (w : World) (session : ℕ) (name principal : Text) (capabilities : List Capability)
    (is_bot : Bool) (race : Race) (class : Class) (sex : Sex) (pronouns : PronounKey)
    → w.next_char_id < 2 ^ 64 - 1
    → IsSound w
    → IsSound
        (spawn_or_restore_character w session name principal capabilities is_bot race class sex
          pronouns).1
unfolding spawn_or_restore_character spawn_character restore_character
spawn_or_restore_character-IsSound w session name principal capabilities is_bot race class sex
      pronouns small h =
    map_or_intro Born
      (spawn_character w session name principal capabilities is_bot race class sex pronouns)
      (λ s. restore_character w session s principal capabilities) (get principal w.players)
      (give_all-IsSound (take_control born session cid) cid (starter_kit_for_size (size race))
        (take_control-IsSound born session cid (settle-IsSound w fresh small h)))
      (λ s e.
        take_control-IsSound (settle w (restored w session s principal capabilities)) session cid
          (settle-IsSound w (restored w session s principal capabilities) small h))
  where
    cid : ℕ
    cid = w.next_char_id

    fresh : ℕ → Character
    fresh = newborn w session name principal capabilities is_bot race class sex pronouns

    born : World
    born = settle w fresh
