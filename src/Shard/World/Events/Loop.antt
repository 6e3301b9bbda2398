-- ===== src/Shard/World/Events/Loop.antt =====
-- The loop over due events, whose handlers schedule more of them.
use slopmud.Prelude.{
  ℕ, zero, suc, ◌+◌, ◌-◌, ◌^◌, ◌≤◌, ◌<◌, min, ◌≡◌, refl, sym, ap, ◌∙◌, subst, ◌⊎◌, inl, inr, Option,
  none, some, List, [], ◌∷◌, ◌++◌, append_assoc, arith, nat_eq, list_eq, length, All, map_or,
}
use mathlib.Core.List.Perm
use mathlib.Core.List.{Perm, perm_middle}
use slopmud.Shard.World.{World, ScheduledEvent, EventKind, add_u64}
use slopmud.Shard.World.Events.{schedule_at_ms, precedes, pop_from, pop_due_event, drain}
use slopmud.Shard.World.Events.Order.{
  InOrder, IsLeast, IsSorted, Later, Popped, Holds, pop_from-Popped, pop_from-Holds,
}

-- What a handler does to the clock and the queue: it keeps them, and schedules events that are due now or
-- later; the rest of the world may change.
pub data Schedules : World → World → Type 0 where
  begins : (w : World) → Schedules w w
  changes :
      (w v u : World)
      → Schedules w v
      → u.now_ms ≡ v.now_ms
      → u.events ≡ v.events
      → u.event_seq ≡ v.event_seq
      → Schedules w u
  adds :
      (w v : World) (due_ms : ℕ) (kind : EventKind)
      → Schedules w v
      → v.now_ms ≤ due_ms
      → Schedules w (schedule_at_ms v due_ms kind)

-- The events of the queue have numbers that were given out.
unfoldable pub IsNumbered : World → Type 0
IsNumbered w = All (λ (e : ScheduledEvent). e.seq ≤ w.event_seq) w.events × (w.event_seq < 2 ^ 64)

-- An event of before now that neither the queue nor what is scheduled next comes before.
Passed : ScheduledEvent → World → Type 0
Passed m w = All (InOrder m) w.events × (m.due_ms ≤ w.now_ms) × (m.seq ≤ w.event_seq)

Schedules-now : (w v : World) → Schedules w v → v.now_ms ≡ w.now_ms
unfolding schedule_at_ms
Schedules-now _ _ (begins w) = refl
Schedules-now _ _ (changes w v u k now events seq) = now ∙ Schedules-now w v k
Schedules-now _ _ (adds w v due_ms kind k later) = Schedules-now w v k

still_given :
    (a b : ℕ) (es : List ScheduledEvent)
    → a ≤ b
    → All (λ (e : ScheduledEvent). e.seq ≤ a) es
    → All (λ (e : ScheduledEvent). e.seq ≤ b) es
still_given a b [] h k = tt
still_given a b (e ∷ es) h k = (omega (arith, h, k.0), still_given a b es h k.1)

Schedules-IsNumbered : (w v : World) → Schedules w v → IsNumbered w → IsNumbered v
unfolding IsNumbered schedule_at_ms add_u64
Schedules-IsNumbered _ _ (begins w) h = h
Schedules-IsNumbered _ _ (changes w v u k now events seq) h =
    let kept = Schedules-IsNumbered w v k h in
    (
      subst (λ es. All (λ (e : ScheduledEvent). e.seq ≤ u.event_seq) es) (sym events)
          (subst (λ n. All (λ (e : ScheduledEvent). e.seq ≤ n) v.events) (sym seq) kept.0),
      omega (arith, seq, kept.1),
    )
Schedules-IsNumbered _ _ (adds w v due_ms kind k later) h =
    let kept = Schedules-IsNumbered w v k h in
    let raised : v.event_seq ≤ min (v.event_seq + 1) (2 ^ 64 - 1) = omega (arith, kept.1) in
    (
      (raised, still_given v.event_seq (min (v.event_seq + 1) (2 ^ 64 - 1)) v.events raised kept.0),
      omega arith,
    )

numbered_below : (w : World) → IsNumbered w → w.event_seq < 2 ^ 64
unfolding IsNumbered
numbered_below w h = h.1

Schedules-Passed :
    (m : ScheduledEvent) (w v : World) → Schedules w v → IsNumbered w → Passed m w → Passed m v
unfolding InOrder precedes schedule_at_ms add_u64 Passed
Schedules-Passed m _ _ (begins w) n h = h
Schedules-Passed m _ _ (changes w v u k now events seq) n h =
    let kept = Schedules-Passed m w v k n h in
    (
      subst (λ es. All (InOrder m) es) (sym events) kept.0,
      omega (arith, now, kept.1),
      omega (arith, seq, kept.2),
    )
Schedules-Passed m _ _ (adds w v due_ms kind k later) n h =
    let kept = Schedules-Passed m w v k n h in
    let numbered : v.event_seq < 2 ^ 64 = numbered_below v (Schedules-IsNumbered w v k n) in
    ((ground (arith, kept.1, kept.2, later), kept.0), kept.1, omega (arith, kept.2, numbered))

-- The events that a handler adds.
Schedules-added :
    (w v : World) → Schedules w v → (added : List ScheduledEvent) × (v.events ≡ added ++ w.events)
unfolding schedule_at_ms
Schedules-added _ _ (begins w) = ([], refl)
Schedules-added _ _ (changes w v u k now events seq) =
    let rest = Schedules-added w v k in (rest.0, events ∙ rest.1)
Schedules-added _ _ (adds w v due_ms kind k later) =
    let rest = Schedules-added w v k in
    let new : ScheduledEvent = record { due_ms = due_ms; seq = v.event_seq; kind = kind } in
    (new ∷ rest.0, ap (λ es. new ∷ es) rest.1)

-- What a run of the loop handles and leaves, with fuel for n events.
pub Drained : ℕ → World → List ScheduledEvent × World → Type 0
Drained n w r =
    IsSorted r.0
    × All (λ (e : ScheduledEvent). e.due_ms ≤ w.now_ms) r.0
    × ((added : List ScheduledEvent) × Perm (r.0 ++ r.1.events) (added ++ w.events))
    × ((length r.0 ≡ n) ⊎ All (Later w.now_ms) r.1.events)

seqs_given : (w : World) → IsNumbered w → All (λ (e : ScheduledEvent). e.seq ≤ w.event_seq) w.events
unfolding IsNumbered
seqs_given w h = h.0

none_before : (m : ScheduledEvent) (w : World) → Passed m w → All (InOrder m) w.events
unfolding Passed
none_before m w h = h.0

popped_on :
    (m : ScheduledEvent) (w rest : World)
    → Passed m w
    → All (InOrder m) rest.events
    → rest.now_ms ≡ w.now_ms
    → rest.event_seq ≡ w.event_seq
    → Passed m rest
unfolding Passed
popped_on m w rest h ins now seq = (ins, omega (arith, h.1, now), omega (arith, h.2, seq))

-- What is added, before an event is put back in its place among the rest.
put_back :
    (ev : ScheduledEvent) (more added rest whole : List ScheduledEvent)
    (events all : List ScheduledEvent)
    → events ≡ added ++ rest
    → Perm (ev ∷ rest) whole
    → Perm all (more ++ events)
    → Perm (ev ∷ all) ((more ++ added) ++ whole)
put_back ev more added rest whole events all e p q =
    Perm.trans (Perm.cons ev (subst (λ es. Perm all (more ++ es)) e q)) (
      subst (λ es. Perm (ev ∷ es) ((more ++ added) ++ whole)) (append_assoc more added rest)
        (Perm.trans (Perm.symm (perm_middle (more ++ added) rest))
          (Perm.append_left (more ++ added) p)))

-- A run of the loop, relationally: the event that is due first is taken out and handled, and so on.
pub data Ran (handle_event : World → ScheduledEvent → World)
    : World → List ScheduledEvent → World → Type 0 where
  stops : (w : World) → Ran handle_event w [] w
  handles :
      (w rest v : World) (ev : ScheduledEvent) (evs : List ScheduledEvent)
      → pop_due_event w ≡ some (ev, rest)
      → Ran handle_event (handle_event rest ev) evs v
      → Ran handle_event w (ev ∷ evs) v

module _ (handle_event : World → ScheduledEvent → World)
    (handle_event-Schedules : (w : World) (ev : ScheduledEvent)
      → Schedules w (handle_event w ev)) where
  after_pop :
      (w rest : World) (ev : ScheduledEvent)
      → IsNumbered w
      → Popped w w.events (some (ev, rest))
      → All (λ (e : ScheduledEvent). e.seq ≤ w.event_seq) (ev ∷ rest.events)
      → IsNumbered rest × Passed ev rest
  unfolding IsNumbered Passed IsLeast
  after_pop w rest ev h k seqs = (
    (
      subst (λ n. All (λ (e : ScheduledEvent). e.seq ≤ n) rest.events) (sym k.3) seqs.1,
      omega (arith, k.3, h.1),
    ),
    (k.1.1, omega (arith, k.0, k.2), omega (arith, seqs.0, k.3)),
  )

  drain-Passed :
      (m : ScheduledEvent) (n : ℕ) (w : World)
      → IsNumbered w
      → Passed m w
      → All (InOrder m) (drain handle_event n w).0
  unfolding drain pop_due_event
  drain-Passed m zero w num h = tt
  drain-Passed m (suc n) w num h =
      go (drain-Passed m n) (pop_from w w.events) (pop_from-Popped w w.events)
        (pop_from-Holds (InOrder m) w w.events (none_before m w h))
        (pop_from-Holds (λ e. e.seq ≤ w.event_seq) w w.events (seqs_given w num))
    where
      later : ScheduledEvent × World → List ScheduledEvent × World
      later r = (
        r.0 ∷ (drain handle_event n (handle_event r.1 r.0)).0,
        (drain handle_event n (handle_event r.1 r.0)).1,
      )

      go :
          ((v : World) → IsNumbered v → Passed m v → All (InOrder m) (drain handle_event n v).0)
          → (o : Option (ScheduledEvent × World)) → Popped w w.events o
          → Holds (InOrder m) o
          → Holds (λ e. e.seq ≤ w.event_seq) o
          → All (InOrder m) (map_or ([], w) later o).0
      go each none k ins seqs = tt
      go each (some (ev, rest)) k ins seqs =
          let popped = after_pop w rest ev num k seqs in
          let scheduled = handle_event-Schedules rest ev in
          (
            ins.0,
            each (handle_event rest ev)
                (Schedules-IsNumbered rest (handle_event rest ev) scheduled popped.0)
                (Schedules-Passed m rest (handle_event rest ev) scheduled popped.0
                  (popped_on m w rest h ins.1 k.2 k.3)),
          )

  drain_all : (n : ℕ) (w : World) → IsNumbered w → Drained n w (drain handle_event n w)
  unfolding Drained drain pop_due_event IsSorted IsLeast
  drain_all zero w num = (tt, tt, ([], Perm.rfl), inl refl)
  drain_all (suc n) w num =
      go (drain_all n) (pop_from w w.events) (pop_from-Popped w w.events)
        (pop_from-Holds (λ e. e.seq ≤ w.event_seq) w w.events (seqs_given w num))
    where
      later : ScheduledEvent × World → List ScheduledEvent × World
      later r = (
        r.0 ∷ (drain handle_event n (handle_event r.1 r.0)).0,
        (drain handle_event n (handle_event r.1 r.0)).1,
      )

      go :
          ((v : World) → IsNumbered v → Drained n v (drain handle_event n v))
          → (o : Option (ScheduledEvent × World)) → Popped w w.events o
          → Holds (λ e. e.seq ≤ w.event_seq) o
          → Drained (suc n) w (map_or ([], w) later o)
      go each none k seqs = (tt, tt, ([], Perm.rfl), inr k)
      go each (some (ev, rest)) k seqs =
          let popped = after_pop w rest ev num k seqs in
          let scheduled = handle_event-Schedules rest ev in
          let next : World = handle_event rest ev in
          let numbered = Schedules-IsNumbered rest next scheduled popped.0 in
          let done = each next numbered in
          let now : next.now_ms ≡ w.now_ms = Schedules-now rest next scheduled ∙ k.2 in
          let added = Schedules-added rest next scheduled in
          (
            (
              drain-Passed ev n next numbered
                  (Schedules-Passed ev rest next scheduled popped.0 popped.1),
              done.0,
            ),
            (
              k.0,
              subst (λ t. All (λ (e : ScheduledEvent). e.due_ms ≤ t) (drain handle_event n next).0)
                  now done.1,
            ),
            (
              done.2.0 ++ added.0,
              put_back ev done.2.0 added.0 rest.events w.events next.events
                  ((drain handle_event n next).0 ++ (drain handle_event n next).1.events) added.1
                  k.1.0 done.2.1,
            ),
            elim done.3 [
              | inl e ↦ inl (ap suc e)
              | inr e ↦ inr (subst (λ t. All (Later t) (drain handle_event n next).1.events) now e)
            ],
          )

  drain-Ran :
      (n : ℕ) (w : World) → Ran handle_event w (drain handle_event n w).0 (drain handle_event n w).1
  unfolding drain
  drain-Ran zero w = stops w
  drain-Ran (suc n) w = go (drain-Ran n) (pop_due_event w) refl
    where
      later : ScheduledEvent × World → List ScheduledEvent × World
      later r = (
        r.0 ∷ (drain handle_event n (handle_event r.1 r.0)).0,
        (drain handle_event n (handle_event r.1 r.0)).1,
      )

      go :
          ((v : World) → Ran handle_event v (drain handle_event n v).0 (drain handle_event n v).1)
          → (o : Option (ScheduledEvent × World)) → pop_due_event w ≡ o
          → Ran handle_event w (map_or ([], w) later o).0 (map_or ([], w) later o).1
      go each none e = stops w
      go each (some (ev, rest)) e =
          handles w rest (drain handle_event n (handle_event rest ev)).1 ev
            (drain handle_event n (handle_event rest ev)).0 e (each (handle_event rest ev))

  -- The loop of process_due_events, with handlers that keep the clock and what is queued, schedule events
  -- for now or later, and change the rest of the world as they like: it takes out the first event that
  -- is due and handles it, and so on; what it handles is due, and none is handled after one that it
  -- comes before; it ends with no event due, or with the fuel used up; and it loses no event: those
  -- handled and those left are those of the queue with others added. No event of the queue has a
  -- number above the counter, which has 64 bits.
  pub drain-Drained :
      (n : ℕ) (w : World)
      → IsNumbered w
      → Ran handle_event w (drain handle_event n w).0 (drain handle_event n w).1
        × Drained n w (drain handle_event n w)
  drain-Drained n w num = (drain-Ran n w, drain_all n w num)
