-- ===== src/Shard/World/Combat/Start.antt =====
-- What a turn in a fight does to the number of idle characters.
use slopmud.Prelude.{
  ℕ, ◌+◌, ◌≤◌, ◌<◌, ◌≡◌, refl, Bool, true, false, not, Option, none, some, List, [], ◌∷◌, arith,
  if◌then◌else◌, Bool-cases, =?_refl, nat_eq, list_eq, map_or, if_intro,
}
use slopmud.Prelude.Map.{get, insert, remove, get-insert}
use slopmud.Shard.World.{World, Character, with_char}
use slopmud.Shard.World.Events.{schedule_at_ms}
use slopmud.Shard.World.Combat.{attacking, turn_to, retaliates, engage}

abbrev pub is_idle : Character → Bool
is_idle c = not c.combat.autoattack

-- The characters that do not attack.
abbrev pub idle : List (ℕ × Character) → ℕ
idle [] = 0
idle (p ∷ chars) = (if is_idle p.1 then 1 else 0) + idle chars

abbrev pub attacks : ℕ → World → Bool
attacks cid w = map_or false (λ (c : Character). c.combat.autoattack) (get cid w.chars)

-- Nobody stops attacking.
abbrev pub Grows : World → World → Type 0
Grows w v = (idle v.chars ≤ idle w.chars) × ((c : ℕ) → attacks c w ≡ true → attacks c v ≡ true)

pub Grows-trans : (u v w : World) → Grows u v → Grows v w → Grows u w
Grows-trans u v w p q = (omega (arith, p.0, q.0), λ c h. q.1 c (p.1 c h))

idle-remove : (cid : ℕ) (chars : List (ℕ × Character)) → idle (remove cid chars) ≤ idle chars
idle-remove cid [] = omega arith
idle-remove cid (p ∷ chars) = ground (arith, idle-remove cid chars, Bool-cases (is_idle p.1))

-- An idle character that is removed is one idle character less.
pub fewer_when_removed :
    (cid : ℕ) (c : Character) (chars : List (ℕ × Character))
    → get cid chars ≡ some c
    → is_idle c ≡ true
    → idle (remove cid chars) < idle chars
fewer_when_removed cid c [] e h = absurd (ground (arith, e))
fewer_when_removed cid c (p ∷ chars) e h =
    ground
      (arith, e, h, idle-remove cid chars, fewer_when_removed cid c chars, Bool-cases (is_idle p.1))

turn_to-Grows : (w : World) (cid target : ℕ) → Grows w (turn_to w cid target)
unfolding turn_to schedule_at_ms with_char attacking
turn_to-Grows w cid target = at (get cid w.chars) refl
  where
    changed : Option Character → List (ℕ × Character)
    changed o = elim o [
      | none ↦ w.chars
      | some c ↦ insert cid (attacking w.now_ms target c) w.chars
    ]

    at :
        (o : Option Character)
        → get cid w.chars ≡ o
        → (idle (changed o) ≤ idle w.chars)
          × ((d : ℕ)
              → attacks d w ≡ true
              → map_or false (λ (c : Character). c.combat.autoattack) (get d (changed o)) ≡ true)
    at none e = (omega arith, λ d h. h)
    at (some c) e = (
      omega (arith, idle-remove cid w.chars),
      λ d h. ground (arith, h, get-insert d cid (attacking w.now_ms target c) w.chars),
    )

-- Who turns to a target attacks, and was idle or not.
turn_to-attacks :
    (w : World) (cid target : ℕ) (c : Character)
    → get cid w.chars ≡ some c
    → (attacks cid (turn_to w cid target) ≡ true)
      × (is_idle c ≡ true → idle (turn_to w cid target).chars < idle w.chars)
unfolding turn_to schedule_at_ms with_char attacking
turn_to-attacks w cid target c e = (
  ground (arith, e, get-insert cid cid (attacking w.now_ms target c) w.chars, =?_refl cid),
  λ h. ground (arith, e, fewer_when_removed cid c w.chars e h),
)

pub engage-Grows :
    (w : World) (a t : ℕ) (c : Character)
    → get a w.chars ≡ some c
    → Grows w (engage w a t)
      × (attacks a (engage w a t) ≡ true)
      × (is_idle c ≡ true → idle (engage w a t).chars < idle w.chars)
unfolding engage
engage-Grows w a t c e =
    let turned = turn_to w a t in
    let first = turn_to-Grows w a t in
    let now = turn_to-attacks w a t c e in
    let back = turn_to-Grows turned t a in
    if_intro
      (λ v. Grows w v × (attacks a v ≡ true) × (is_idle c ≡ true → idle v.chars < idle w.chars))
      (retaliates turned a t) (turn_to turned t a) turned
      (λ b. (
        Grows-trans w turned (turn_to turned t a) first back,
        back.1 a now.0,
        λ h. omega (arith, back.0, now.1 h),
      ))
      (λ b. (first, now.0, now.1))
