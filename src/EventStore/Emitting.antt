-- ===== src/EventStore/Emitting.antt =====
-- deliveryEventEmitter: an event of the aggregate gets its number and its cause, and is appended. The
-- dispatch that follows only logs its errors, and is left out.
use phonewave.Prelude.{ℕ, Bool, Option, none, some, [], ◌∷◌, Text, ◌==◌, if◌then◌else◌, Dict}
use phonewave.EventStore.Events.{Event, DeliveryAggregate, next_event}
use phonewave.EventStore.Counter.{SeqCounter, alloc_seq_nr}
use phonewave.EventStore.Files.{Codec, AppendWorld, append_events}

-- The emitter, with the counter and the files that it shares with other processes.
pub record Emitter : Type 0 where
  pub agg : DeliveryAggregate
  pub delivery_id : Text
  pub prev_id : Text
  pub counter : SeqCounter
  pub files : Dict Text

-- What one call needs: the new identifier, the type, the payload as JSON, the time, and which calls
-- succeed.
pub record Emission : Type 0 where
  pub id : Text
  pub event_type : Text
  pub payload : Option Text
  pub now : ℕ
  pub allocated : Bool
  pub world : AppendWorld

abbrev pub enriched : Emitter → Event → Event
enriched e ev = record ev {
  correlation_id = if e.delivery_id == [] then ev.correlation_id else e.delivery_id;
  causation_id = if e.prev_id == [] then ev.causation_id else e.prev_id;
}

-- emit with an allocator and a store: the event that was stored, none where there is an error.
unfoldable pub emit : Codec → Emission → Event → Emitter → Emitter × Option Event
emit codec m ev e =
    let (counter, seq) = alloc_seq_nr m.allocated e.counter in
    elim seq [
      | none ↦ (record e { counter = counter }, none)
      | some n ↦
          let numbered : Event = record (enriched e ev) { seq_nr = n } in
          let (files, okay) = append_events codec m.world (numbered ∷ []) e.files in
          if okay
          then (record e { counter = counter; files = files; prev_id = numbered.id }, some numbered)
          else (record e { counter = counter; files = files }, none)
    ]

-- EmitDelivery, EmitFailure, EmitRetry and EmitScan, which differ in the type and the payload.
unfoldable pub emit_event : Codec → Emission → Emitter → Emitter × Option Event
unfolding emit
emit_event codec m e =
    let (agg, made) = next_event m.id m.event_type m.payload m.now e.agg in
    elim made [
      | none ↦ (record e { agg = agg }, none)
      | some ev ↦ emit codec m ev (record e { agg = agg })
    ]
