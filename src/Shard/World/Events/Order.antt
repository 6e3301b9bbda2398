-- ===== src/Shard/World/Events/Order.antt =====
-- In what order events are handled.
use slopmud.Prelude.{
  ℕ, ◌≤◌, ◌<◌, ◌≡◌, refl, true, false, Option, none, some, List, [], ◌∷◌, arith, ltb, nat_eq,
  list_eq, All, if_intro,
}
use mathlib.Core.List.Perm
use mathlib.Core.List.{Perm}
use slopmud.Shard.World.{World, ScheduledEvent}
use slopmud.Shard.World.Events.{precedes, least_of, pop_from}

-- The second event does not come before the first.
unfoldable pub InOrder : ScheduledEvent → ScheduledEvent → Type 0
InOrder a b = precedes b a ≡ false

itself : (e : ScheduledEvent) → InOrder e e
unfolding InOrder precedes
itself e = ground arith

unfoldable pub IsLeast : List ScheduledEvent → ScheduledEvent × List ScheduledEvent → Type 0
IsLeast es r = Perm (r.0 ∷ r.1) es × All (InOrder r.0) r.1 × All (InOrder r.0) es

All-InOrder :
    (e m : ScheduledEvent) (xs : List ScheduledEvent)
    → InOrder e m
    → All (InOrder m) xs
    → All (InOrder e) xs
unfolding InOrder precedes
All-InOrder e m [] h k = tt
All-InOrder e m (x ∷ xs) h k = (ground (arith, h, k.0), All-InOrder e m xs h k.1)

asym : (a b : ScheduledEvent) → precedes a b ≡ true → InOrder a b
unfolding InOrder precedes
asym a b h = ground (arith, h)

least_of-IsLeast :
    (e : ScheduledEvent) (es : List ScheduledEvent) → IsLeast (e ∷ es) (least_of e es)
unfolding IsLeast least_of InOrder
least_of-IsLeast e [] = (Perm.rfl, tt, (itself e, tt))
least_of-IsLeast e (f ∷ fs) =
    let best = least_of f fs in
    let rest = least_of-IsLeast f fs in
    if_intro (IsLeast (e ∷ f ∷ fs)) (precedes best.0 e) (best.0, e ∷ best.1) (e, best.0 ∷ best.1)
      (λ b. (
        Perm.trans (Perm.swap e best.0 best.1) (Perm.cons e rest.0),
        (asym best.0 e b, rest.1),
        (asym best.0 e b, rest.2),
      ))
      (λ b. (
        Perm.cons e rest.0,
        (b, All-InOrder e best.0 best.1 b rest.1),
        (itself e, All-InOrder e best.0 (f ∷ fs) b rest.2),
      ))

abbrev pub Later : ℕ → ScheduledEvent → Type 0
Later now e = now < e.due_ms

-- What popping says of the queue: the event is due, none of the others comes before it, and they are the
-- rest; or nothing is due.
abbrev pub Popped : World → List ScheduledEvent → Option (ScheduledEvent × World) → Type 0
Popped w es none = All (Later w.now_ms) es
Popped w es (some (ev, rest)) =
    (ev.due_ms ≤ w.now_ms)
    × IsLeast es (ev, rest.events)
    × (rest.now_ms ≡ w.now_ms)
    × (rest.event_seq ≡ w.event_seq)

due_after :
    (now : ℕ) (m : ScheduledEvent) (xs : List ScheduledEvent)
    → now < m.due_ms
    → All (InOrder m) xs
    → All (Later now) xs
unfolding InOrder precedes
due_after now m [] h k = tt
due_after now m (x ∷ xs) h k = (ground (arith, h, k.0), due_after now m xs h k.1)

pub pop_from-Popped : (w : World) (es : List ScheduledEvent) → Popped w es (pop_from w es)
unfolding pop_from IsLeast
pop_from-Popped w [] = tt
pop_from-Popped w (e ∷ es) =
    let best = least_of e es in
    let least = least_of-IsLeast e es in
    if_intro (Popped w (e ∷ es)) (ltb w.now_ms best.0.due_ms) none
      (some (best.0, record w { events = best.1 }))
      (λ b. due_after w.now_ms best.0 (e ∷ es) (ground (arith, b)) least.2)
      (λ b. (ground (arith, b), least, refl, refl))

least_of-All :
    (Q : ScheduledEvent → Type 0) (e : ScheduledEvent) (es : List ScheduledEvent)
    → All Q (e ∷ es)
    → All Q ((least_of e es).0 ∷ (least_of e es).1)
unfolding least_of
least_of-All Q e [] h = h
least_of-All Q e (f ∷ fs) h =
    let best = least_of f fs in
    let rest = least_of-All Q f fs h.1 in
    if_intro (λ (r : ScheduledEvent × List ScheduledEvent). All Q (r.0 ∷ r.1)) (precedes best.0 e)
      (best.0, e ∷ best.1) (e, best.0 ∷ best.1) (λ b. (rest.0, (h.0, rest.1))) (λ b. (h.0, rest))

-- What holds of all events holds of those that are popped and left.
abbrev pub Holds : (ScheduledEvent → Type 0) → Option (ScheduledEvent × World) → Type 0
Holds Q none = Unit
Holds Q (some (ev, rest)) = Q ev × All Q rest.events

pub pop_from-Holds :
    (Q : ScheduledEvent → Type 0) (w : World) (es : List ScheduledEvent)
    → All Q es
    → Holds Q (pop_from w es)
unfolding pop_from
pop_from-Holds Q w [] h = tt
pop_from-Holds Q w (e ∷ es) h =
    let best = least_of e es in
    if_intro (Holds Q) (ltb w.now_ms best.0.due_ms) none
      (some (best.0, record w { events = best.1 })) (λ b. tt) (λ b. least_of-All Q e es h)

unfoldable pub IsSorted : List ScheduledEvent → Type 0
IsSorted [] = Unit
IsSorted (e ∷ es) = All (InOrder e) es × IsSorted es
