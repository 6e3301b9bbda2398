-- ===== src/Shard/World/Combat/Ending.antt =====
-- A fight that starts draws in each member at most once, so starting it ends.
use slopmud.Prelude.{
  ℕ, zero, suc, ◌≤◌, ◌<◌, ◌≡◌, refl, ap, ◌∙◌, Bool, true, false, not, ◌&&◌, Option, none, some,
  List, [], ◌∷◌, arith, ◌==◌, ◌=?◌, nat_eq, list_eq, map_or, map_or_intro, if_intro,
}
use slopmud.Prelude.Text.{Text}
use slopmud.Prelude.Map.{get}
use slopmud.Shard.World.{World, Character, Party, is_some}
use slopmud.Shard.World.Combat.{engage, assists, assist_loop, party_assist_attackers, start_combat}
use slopmud.Shard.World.Combat.Start.{
  is_idle, idle, attacks, Grows, Grows-trans, fewer_when_removed, engage-Grows,
}

-- A run that reaches its end, in a world where nobody stopped attacking.
abbrev pub Ends : World → Option World → Type 0
Ends w o = (v : World) × (o ≡ some v) × Grows w v

itself : (w : World) → Ends w (some w)
itself w = (w, refl, (omega arith, λ c h. h))

Ends-then :
    (w : World) (o : Option World) (f : World → Option World)
    → Ends w o
    → ((v : World) → Grows w v → Ends v (f v))
    → Ends w (map_or none f o)
Ends-then w o f e next =
    let v : World = e.0 in
    let after = next v e.2 in
    (after.0, ap (map_or none f) e.1 ∙ after.1, Grows-trans w v after.0 e.2 after.2)

-- A member that joins in is a character, and idle.
joins :
    (w : World) (a mid : ℕ) (room : Text)
    → assists w a room mid ≡ true
    → (m : Character) × (get mid w.chars ≡ some m) × (is_idle m ≡ true)
joins w a mid room b = at (get mid w.chars) refl b
  where
    test : Character → Bool
    test m = is_some m.controller && m.autoassist && (m.room_id =? room) && not m.combat.autoattack

    at :
        (o : Option Character)
        → get mid w.chars ≡ o
        → not (mid == a) && map_or false test o ≡ true
        → (m : Character) × (get mid w.chars ≡ some m) × (is_idle m ≡ true)
    at none e k = absurd (ground (arith, k))
    at (some m) e k = (m, e, ground (arith, k))

-- What a call does for an idle member, when so many characters are idle.
abbrev EndsFor : ℕ → (World → ℕ → Option World) → Type 0
EndsFor n call =
    (v : World) (mid : ℕ) (m : Character)
    → idle v.chars ≤ n
    → get mid v.chars ≡ some m
    → is_idle m ≡ true
    → Ends v (call v mid)

assist_loop-Ends :
    (call : World → ℕ → Option World) (n a : ℕ) (room : Text)
    → EndsFor n call
    → (mids : List ℕ) (w : World) → idle w.chars ≤ n
    → Ends w (assist_loop call a room mids w)
unfolding assist_loop
assist_loop-Ends call n a room ends [] w h = itself w
assist_loop-Ends call n a room ends (mid ∷ mids) w h =
    let rest = assist_loop-Ends call n a room ends mids in
    if_intro (Ends w) (assists w a room mid)
      (map_or none (assist_loop call a room mids) (call w mid)) (assist_loop call a room mids w)
      (λ b.
        let j = joins w a mid room b in
        Ends-then w (call w mid) (assist_loop call a room mids) (ends w mid j.0 h j.1 j.2)
          (λ v g. rest v (omega (arith, g.0, h))))
      (λ b. rest w h)

party_assist_attackers-Ends :
    (call : World → ℕ → Option World) (n a : ℕ) (w : World)
    → EndsFor n call
    → idle w.chars ≤ n
    → Ends w (party_assist_attackers call w a)
unfolding party_assist_attackers
party_assist_attackers-Ends call n a w ends h =
    map_or_intro (Ends w) (some w) here (get a w.chars) (itself w) (λ att e.
      map_or_intro (Ends w) (some w) (in_party att) (get a w.party_of) (itself w) (λ pid k.
        map_or_intro (Ends w) (some w) (of_members att) (get pid w.parties) (itself w)
          (λ p l. assist_loop-Ends call n a att.room_id ends p.members w h)))
  where
    of_members : Character → Party → Option World
    of_members att p = assist_loop call a att.room_id p.members w

    in_party : Character → ℕ → Option World
    in_party att pid = map_or (some w) (of_members att) (get pid w.parties)

    here : Character → Option World
    here att = map_or (some w) (in_party att) (get a w.party_of)

-- The first blow, and then all that join.
started :
    (n : ℕ) (w : World) (a t : ℕ) (c : Character)
    → EndsFor n (λ v mid. start_combat n v mid t)
    → get a w.chars ≡ some c
    → idle (engage w a t).chars ≤ n
    → (v : World) × (start_combat (suc n) w a t ≡ some v) × Grows w v × (attacks a v ≡ true)
unfolding start_combat
started n w a t c ends e h =
    let call : World → ℕ → Option World = λ v mid. start_combat n v mid t in
    let first = engage-Grows w a t c e in
    let r = party_assist_attackers-Ends call n a (engage w a t) ends h in
    (
      r.0,
      ap (map_or (some w) (λ b. party_assist_attackers call (engage w a t) a)) e ∙ r.1,
      Grows-trans w (engage w a t) r.0 first.0 r.2,
      r.2.1 a first.1,
    )

fights : (n t : ℕ) → EndsFor n (λ v mid. start_combat n v mid t)
fights zero t v mid m h e free = absurd (omega (arith, h, fewer_when_removed mid m v.chars e free))
fights (suc n) t v mid m h e free =
    let fewer = (engage-Grows v mid t m e).2 free in
    let r = started n v mid t m (fights n t) e (omega (arith, fewer, h)) in (r.0, r.1, r.2)

nobody : (n : ℕ) (w : World) (a t : ℕ) → get a w.chars ≡ none → start_combat (suc n) w a t ≡ some w
unfolding start_combat
nobody n w a t e =
    ap
      (map_or (some w)
        (λ b. party_assist_attackers (λ v mid. start_combat n v mid t) (engage w a t) a))
      e

-- With more fuel than there are characters that do not attack, starting a fight ends: there are no more
-- such characters than before, whoever attacked still does, and the attacker attacks, if there is one.
pub start_combat-attacks :
    (fuel : ℕ) (w : World) (attacker_id target_id : ℕ)
    → idle w.chars < fuel
    → (v : World) × (start_combat fuel w attacker_id target_id ≡ some v)
      × Grows w v
      × (is_some (get attacker_id w.chars) ≡ true → attacks attacker_id v ≡ true)
start_combat-attacks zero w a t h = absurd (omega (arith, h))
start_combat-attacks (suc n) w a t h = at (get a w.chars) refl
  where
    at :
        (o : Option Character)
        → get a w.chars ≡ o
        → (v : World) × (start_combat (suc n) w a t ≡ some v)
          × Grows w v
          × (is_some (get a w.chars) ≡ true → attacks a v ≡ true)
    at none e = (w, nobody n w a t e, (omega arith, λ c k. k), λ k. absurd (ground (arith, e, k)))
    at (some c) e =
        let first = (engage-Grows w a t c e).0 in
        let r = started n w a t c (fights n t) e (omega (arith, first.0, h)) in
        (r.0, r.1, r.2, λ k. r.3)
