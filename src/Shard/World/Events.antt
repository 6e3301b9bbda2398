-- ===== src/Shard/World/Events.antt =====
-- apps/shard_01/src/main.rs: the clock and the event queue. A `BinaryHeap` of `Reverse` gives its least
-- element; it is a list from which the least is taken. The loop of process_due_events takes
-- handle_event as a parameter; of the handlers themselves, some are in the other modules of World.
pub mod Order
pub mod Loop
use slopmud.Prelude.{
  ℕ, zero, suc, ◌+◌, ◌-◌, ◌*◌, ◌/◌, ◌%◌, ◌^◌, ◌≤◌, ◌<◌, min, max, ◌≡◌, refl, sym, ap, ap₂, ◌∙◌,
  subst, ◌≢◌, ◌↔◌, ◌⊎◌, inl, inr, Bool, true, false, not, ◌&&◌, ◌||◌, Option, none, some, List, [],
  ◌∷◌, ◌++◌, map, append-nil, append_assoc, arith, ltb, leb, ◌==◌, if◌then◌else◌, ==_iff,
  Bool-cases, Option-cases, Eq, ◌=?◌, =?_iff, =?_refl, nat_eq, list_eq, list_beq, list_beq_iff,
  length, get_elem?, take, drop, is_empty, any, all, concat, All, length-append, take-append-drop,
  length-take, length-drop, take_front, drop_front, take_all, take_front_of, drop_front_of,
  take-append_left, take_past, drop_past, get_elem?-front, get_elem?-append_left, All-append,
  All-left, reverse, reverse-append, reverse-reverse, filter, length-reverse, drop-append,
  drop-drop, drop_all, reverse-take, take_one, take_over, take_least, All-right, List-cases, map_or,
  map_or_intro, if_intro,
}
use slopmud.Shard.World.{World, ScheduledEvent, EventKind, add_u64}

unfoldable pub apply_tick : World → ℕ → World
unfolding add_u64
apply_tick w dt_ms = record w { now_ms = add_u64 w.now_ms dt_ms }

unfoldable pub schedule_at_ms : World → ℕ → EventKind → World
unfolding add_u64
schedule_at_ms w due_ms kind = record w {
  event_seq = add_u64 w.event_seq 1;
  events = record { due_ms = due_ms; seq = w.event_seq; kind = kind } ∷ w.events;
}

unfoldable pub schedule_in_ms : World → ℕ → EventKind → World
unfolding schedule_at_ms add_u64
schedule_in_ms w delay_ms kind = schedule_at_ms w (add_u64 w.now_ms delay_ms) kind

-- `Ord` of ScheduledEvent: by time, then by number.
unfoldable pub precedes : ScheduledEvent → ScheduledEvent → Bool
precedes a b = if a.due_ms == b.due_ms then ltb a.seq b.seq else ltb a.due_ms b.due_ms

unfoldable pub least_of :
    ScheduledEvent → List ScheduledEvent → ScheduledEvent × List ScheduledEvent
unfolding precedes
least_of e [] = (e, [])
least_of e (f ∷ fs) =
    let best = least_of f fs in
    if precedes best.0 e then (best.0, e ∷ best.1) else (e, best.0 ∷ best.1)

unfoldable pub pop_from : World → List ScheduledEvent → Option (ScheduledEvent × World)
unfolding least_of
pop_from w [] = none
pop_from w (e ∷ es) =
    let best = least_of e es in
    if ltb w.now_ms best.0.due_ms then none else some (best.0, record w { events = best.1 })

unfoldable pub pop_due_event : World → Option (ScheduledEvent × World)
unfolding pop_from
pop_due_event w = pop_from w w.events

-- The loop of process_due_events, on fuel, with the events that it handles.
unfoldable pub drain : (World → ScheduledEvent → World) → ℕ → World → List ScheduledEvent × World
unfolding pop_due_event
drain handle_event zero w = ([], w)
drain handle_event (suc n) w =
    map_or ([], w)
      (λ (r : ScheduledEvent × World).
        let later = drain handle_event n (handle_event r.1 r.0) in (r.0 ∷ later.0, later.1))
      (pop_due_event w)
