-- ===== src/Shard/Rooms.antt =====
-- apps/shard_01/src/rooms.rs: the rooms of the world file and the rooms made while the shard runs.
-- The areas and the rendering of rooms are left out.
use slopmud.Prelude.{
  ℕ, Bool, true, false, ◌&&◌, ◌||◌, Option, none, some, List, [], ◌∷◌, ◌++◌, map, ltb, ◌==◌,
  if◌then◌else◌, ◌=?◌, nat_eq, list_eq, length, is_empty, all, filter,
}
use slopmud.Prelude.Text.{Text, text, trim, to_ascii_lowercase, starts_with}
use slopmud.Prelude.Map.{get, insert, remove}

pub record ExitDef : Type 0 where
  pub dir : Text
  pub to : Text
  pub sealed : Bool
  pub gate : Option Text

pub record RoomDef : Type 0 where
  pub name : Text
  pub area_name : Text
  pub description : Text
  pub exits : List ExitDef

pub record Rooms : Type 0 where
  pub rooms : List (Text × RoomDef)
  pub dyn_rooms : List (Text × RoomDef)
  pub start_room : Text

-- `dyn_rooms.get(..).or_else(|| rooms.get(..))`.
unfoldable pub room_def : Rooms → Text → Option RoomDef
room_def rs room_id = elim (get room_id rs.dyn_rooms) [
  | some def ↦ some def
  | none ↦ get room_id rs.rooms
]

abbrev pub contains_key {ℓ} : {V : Type ℓ} → Text → List (Text × V) → Bool
contains_key k m = elim (get k m) [ none ↦ false | some v ↦ true ]

unfoldable pub has_room : Rooms → Text → Bool
has_room rs room_id = contains_key room_id rs.dyn_rooms || contains_key room_id rs.rooms

unfoldable pub remove_all {ℓ} : {V : Type ℓ} → List Text → List (Text × V) → List (Text × V)
remove_all [] m = m
remove_all (k ∷ ks) m = remove_all ks (remove k m)

abbrev pub keys {ℓ} : {V : Type ℓ} → List (Text × V) → List Text
keys m = map (λ p. p.0) m

abbrev ends_with_dot : Text → Bool
ends_with_dot [] = false
ends_with_dot (c ∷ []) = c == b'.'
ends_with_dot (c ∷ d ∷ s) = ends_with_dot (d ∷ s)

unfoldable pub clear_dyn_rooms_with_prefix : Rooms → Text → ℕ × Rooms
unfolding starts_with remove_all
clear_dyn_rooms_with_prefix rs prefix =
    let p : Text = if ends_with_dot prefix then prefix else prefix ++ text "." in
    let gone : List Text = filter (λ k. starts_with k p) (keys rs.dyn_rooms) in
    (length gone, record rs { dyn_rooms = remove_all gone rs.dyn_rooms })

unfoldable pub insert_room : Rooms → Text → RoomDef → Rooms
insert_room rs room_id def = record rs { dyn_rooms = insert room_id def rs.dyn_rooms }

-- The arms of `normalize_dir_token`.
abbrev pub dir_arms : List (Text × Text)
dir_arms =
    (text "north", text "north")
    ∷ (text "n", text "north")
    ∷ (text "south", text "south")
    ∷ (text "s", text "south")
    ∷ (text "east", text "east")
    ∷ (text "e", text "east")
    ∷ (text "west", text "west")
    ∷ (text "w", text "west")
    ∷ (text "up", text "up")
    ∷ (text "u", text "up")
    ∷ (text "down", text "down")
    ∷ (text "d", text "down")
    ∷ []

unfoldable pub normalize_dir_token : Text → Option Text
normalize_dir_token line = get (to_ascii_lowercase line) dir_arms

-- `iter().find(..)`.
abbrev pub find_first {ℓ} : {A : Type ℓ} → (A → Bool) → List A → Option A
find_first p [] = none
find_first p (x ∷ xs) = if p x then some x else find_first p xs

abbrev pub eq_ignore_ascii_case : Text → Text → Bool
eq_ignore_ascii_case a b = to_ascii_lowercase a =? to_ascii_lowercase b

-- A single letter names the one exit that it begins.
unfoldable pub only_exit : Text → List ExitDef → Option ExitDef
only_exit t_lc exits = elim (filter (λ ex. starts_with (to_ascii_lowercase ex.dir) t_lc) exits) [
  | [] ↦ none
  | ex ∷ more ↦ if is_empty more then some ex else none
]

unfoldable pub exit_by_name : List ExitDef → Text → Option ExitDef
unfolding normalize_dir_token only_exit
exit_by_name exits t = elim (find_first (λ (e : ExitDef). eq_ignore_ascii_case e.dir t) exits) [
  | some ex ↦ some ex
  | none ↦ elim (normalize_dir_token t) [
    | some canon ↦ find_first (λ (e : ExitDef). eq_ignore_ascii_case e.dir canon) exits
    | none ↦
        let t_lc = to_ascii_lowercase t in
        if (length t_lc == 1) && all (λ c. ltb c 128) t_lc then only_exit t_lc exits else none
  ]
]

unfoldable pub find_exit : Rooms → Text → Text → Option ExitDef
unfolding room_def exit_by_name
find_exit rs room_id token = elim (room_def rs room_id) [
  | none ↦ none
  | some room ↦ let t = trim token in if is_empty t then none else exit_by_name room.exits t
]

unfoldable pub exits_raw : Rooms → Text → List ExitDef
unfolding room_def
exits_raw rs room_id = elim (room_def rs room_id) [ none ↦ [] | some room ↦ room.exits ]
