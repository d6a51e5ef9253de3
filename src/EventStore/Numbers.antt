-- ===== src/EventStore/Numbers.antt =====
-- The numbers and the causes of the events that an emitter stores.
use phonewave.Prelude.{
  ℕ, ◌+◌, ◌≤◌, ◌≡◌, refl, Bool, true, false, Option, none, some, List, [], ◌∷◌, arith, Text, ◌==◌,
  eq_iff, Bool-cases, if◌then◌else◌, Dict, inl, inr,
}
use phonewave.EventStore.Events.{Event, DeliveryAggregate, new_event, next_event, parse_event}
use phonewave.EventStore.Counter.{SeqCounter, alloc_seq_nr, initialize_at}
use phonewave.EventStore.Files.{Codec, AppendWorld, all_parsed, append_events}
use phonewave.EventStore.Emitting.{Emitter, Emission, enriched, emit, emit_event}

-- What happens to an emitter and to the counter that it shares: a call of one of its Emit methods,
-- an allocation or an initialisation by another process, or the files change.
pub data Act : Type 0 where
  emits : Emission → Act
  others_allocate : Bool → Act
  others_initialize : Bool → ℕ → Act
  others_write : Dict Text → Act

abbrev stored_first : Option Event → List Event → List Event
stored_first none events = events
stored_first (some ev) events = ev ∷ events

-- The acts in their order: the emitter at the end, and the events that it stored.
unfoldable pub run_acts : Codec → List Act → Emitter → Emitter × List Event
run_acts codec [] e = (e, [])
run_acts codec (emits m ∷ acts) e =
    let (e', stored) = emit_event codec m e in
    let (e'', events) = run_acts codec acts e' in (e'', stored_first stored events)
run_acts codec (others_allocate okay ∷ acts) e =
    run_acts codec acts (record e { counter = (alloc_seq_nr okay e.counter).0 })
run_acts codec (others_initialize okay start ∷ acts) e =
    run_acts codec acts (record e { counter = initialize_at okay start e.counter })
run_acts codec (others_write files ∷ acts) e = run_acts codec acts (record e { files = files })

-- Each event is valid, names the one before it as its cause, and has a number from `low` on, the next
-- ones from its own number on.
abbrev pub Chained : Text → ℕ → List Event → Type 0
Chained prev low [] = Unit
Chained prev low (ev ∷ events) =
    ((parse_event ev ≡ true) × (ev.causation_id ≡ prev) × (low ≤ ev.seq_nr))
    × Chained ev.id (ev.seq_nr + 1) events

Chained-le :
    (prev : Text) (low high : ℕ) (events : List Event)
    → low ≤ high
    → Chained prev high events
    → Chained prev low events
Chained-le prev low high [] h c = tt
Chained-le prev low high (ev ∷ events) h ((valid, cause, number), rest) =
    ((valid, cause, omega (arith, h, number)), rest)

initialize_at-le :
    (okay : Bool) (start : ℕ) (c : SeqCounter) → c.next_seq ≤ (initialize_at okay start c).next_seq
unfolding initialize_at
initialize_at-le okay start c = ground arith

alloc_seq_nr-le : (okay : Bool) (c : SeqCounter) → c.next_seq ≤ (alloc_seq_nr okay c).0.next_seq
unfolding alloc_seq_nr
alloc_seq_nr-le okay c = ground arith

append-parsed :
    (codec : Codec) (w : AppendWorld) (ev : Event) (files : Dict Text)
    → (append_events codec w (ev ∷ []) files).1 ≡ true
    → parse_event ev ≡ true
unfolding append_events all_parsed
append-parsed codec w ev files h = ground arith

-- What one call of an Emit method does: a stored event carries on the chain.
abbrev Emitted : Emitter → Emitter × Option Event → Type 0
Emitted e (e', none) = (e'.prev_id ≡ e.prev_id) × (e.counter.next_seq ≤ e'.counter.next_seq)
Emitted e (e', some ev) =
    ((parse_event ev ≡ true) × (ev.causation_id ≡ e.prev_id) × (e.counter.next_seq ≤ ev.seq_nr))
    × (e'.prev_id ≡ ev.id)
    × (ev.seq_nr + 1 ≤ e'.counter.next_seq)

pub alloc_next :
    (okay : Bool) (c : SeqCounter) → okay ≡ true → (alloc_seq_nr okay c).0.next_seq ≡ c.next_seq + 1
unfolding alloc_seq_nr
alloc_next okay c y = rw y refl

pub alloc_refused :
    (okay : Bool) (c : SeqCounter) → okay ≡ false → (alloc_seq_nr okay c).0.next_seq ≡ c.next_seq
unfolding alloc_seq_nr
alloc_refused okay c n = rw n refl

caused : (prev : Text) (own : Text) → own ≡ [] → (if prev == [] then own else prev) ≡ prev
caused prev own e = ground (arith, eq_iff prev [], e)

emit-Emitted :
    (codec : Codec) (m : Emission) (ev : Event) (e : Emitter)
    → ev.causation_id ≡ []
    → Emitted e (emit codec m ev e)
unfolding emit alloc_seq_nr
emit-Emitted codec m ev e fresh = elim (Bool-cases m.allocated) [
  | inr n ↦ rw (n, emit) (refl, omega (arith, alloc_seq_nr-le m.allocated e.counter))
  | inl y ↦ elim (Bool-cases (append_events codec m.world (numbered ∷ []) e.files).1) [
    | inr n ↦
        rw (y, emit) (rw (n, emit) (refl, omega (arith, alloc_seq_nr-le m.allocated e.counter)))
    | inl okay ↦
        rw (y, emit)
          (rw (okay, emit)
            (
              (
                append-parsed codec m.world numbered e.files okay,
                caused e.prev_id ev.causation_id fresh,
                omega arith,
              ),
              refl,
              omega (arith, alloc_next m.allocated e.counter y),
            ))
  ]
]
  where
    numbered : Event
    numbered = record (enriched e ev) { seq_nr = e.counter.next_seq }

next_event-uncaused :
    (m : Emission) (a : DeliveryAggregate) (ev : Event)
    → (next_event m.id m.event_type m.payload m.now a).1 ≡ some ev
    → ev.causation_id ≡ []
unfolding next_event new_event
next_event-uncaused m a ev h = ground arith

emit_event-Emitted : (codec : Codec) (m : Emission) (e : Emitter) → Emitted e (emit_event codec m e)
unfolding emit_event
emit_event-Emitted codec m e = by_made (next_event m.id m.event_type m.payload m.now e.agg).1 refl
  where
    agg : DeliveryAggregate
    agg = (next_event m.id m.event_type m.payload m.now e.agg).0

    by_made :
        (made : Option Event)
        → (next_event m.id m.event_type m.payload m.now e.agg).1 ≡ made
        → Emitted e (emit_event codec m e)
    by_made none eq = rw (eq, emit_event) (refl, omega arith)
    by_made (some ev) eq =
        rw (eq, emit_event)
          (emit-Emitted codec m ev (record e { agg = agg }) (next_event-uncaused m e.agg ev eq))

stored-Chained :
    (e : Emitter) (r : Emitter × Option Event) (events : List Event)
    → Emitted e r
    → Chained r.0.prev_id r.0.counter.next_seq events
    → Chained e.prev_id e.counter.next_seq (stored_first r.1 events)
stored-Chained e (e', none) events (prev, le) c =
    Chained-le e.prev_id e.counter.next_seq e'.counter.next_seq events le (rw prev at c)
stored-Chained e (e', some ev) events (good, prev, le) c =
    (good, Chained-le ev.id (ev.seq_nr + 1) e'.counter.next_seq events le (rw prev at c))

-- Whatever happens to an emitter with a counter, and to the counter and the files that it shares, each
-- event that it stores is valid, names the event stored before it as its cause, the first one the
-- emitter's last event, and has a greater number than that; calls that fail leave no gap in the
-- chain of causes.
pub run_acts-Chained :
    (codec : Codec) (acts : List Act) (e : Emitter)
    → Chained e.prev_id e.counter.next_seq (run_acts codec acts e).1
unfolding run_acts
run_acts-Chained codec [] e = tt
run_acts-Chained codec (emits m ∷ acts) e =
    let r = emit_event codec m e in
    stored-Chained e r (run_acts codec acts r.0).1 (emit_event-Emitted codec m e)
      (run_acts-Chained codec acts r.0)
run_acts-Chained codec (others_allocate okay ∷ acts) e =
    let counter = (alloc_seq_nr okay e.counter).0 in
    Chained-le e.prev_id e.counter.next_seq counter.next_seq _ (alloc_seq_nr-le okay e.counter)
      (run_acts-Chained codec acts (record e { counter = counter }))
run_acts-Chained codec (others_initialize okay start ∷ acts) e =
    let counter = initialize_at okay start e.counter in
    Chained-le e.prev_id e.counter.next_seq counter.next_seq _
      (initialize_at-le okay start e.counter)
      (run_acts-Chained codec acts (record e { counter = counter }))
run_acts-Chained codec (others_write files ∷ acts) e =
    run_acts-Chained codec acts (record e { files = files })
