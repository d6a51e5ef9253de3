-- ===== src/EventStore/Events.antt =====
-- The events and the aggregate that makes them. A time is a number, 0 for the zero time; a payload is
-- its JSON text. json.Marshal of a payload and uuid.NewString are arguments.
use phonewave.Prelude.{
  ℕ, ◌+◌, ◌%◌, Bool, not, ◌&&◌, Option, none, some, List, [], ◌∷◌, Text, codes, ◌==◌, contains,
  nat_eq, ltb,
}
use phonewave.Prelude.Words.{word}

abbrev pub delivery_completed : Text
delivery_completed = codes "delivery.completed"

abbrev pub delivery_failed : Text
delivery_failed = codes "delivery.failed"

abbrev pub error_retried : Text
error_retried = codes "error.retried"

abbrev pub scan_completed : Text
scan_completed = codes "scan.completed"

abbrev pub system_cutover : Text
system_cutover = codes "system.cutover"

abbrev pub valid_event_types : List Text
valid_event_types =
    delivery_completed ∷ delivery_failed ∷ error_retried ∷ scan_completed ∷ system_cutover ∷ []

unfoldable pub valid_event_type : Text → Bool
valid_event_type t = contains valid_event_types t

abbrev pub current_event_schema_version : ℕ
current_event_schema_version = 1

pub record Event : Type 0 where
  pub schema_version : ℕ
  pub id : Text
  pub event_type : Text
  pub timestamp : ℕ
  pub payload : Text
  pub session_id : Text
  pub correlation_id : Text
  pub causation_id : Text
  pub aggregate_id : Text
  pub aggregate_type : Text
  pub seq_nr : ℕ

-- NewEvent, of a payload that can be marshalled
unfoldable pub new_event : Text → Text → Text → ℕ → Event
new_event id event_type payload timestamp = record {
  schema_version = current_event_schema_version;
  id = id;
  event_type = event_type;
  timestamp = timestamp;
  payload = payload;
  session_id = [];
  correlation_id = [];
  causation_id = [];
  aggregate_id = [];
  aggregate_type = [];
  seq_nr = 0;
}

-- ParseEvent: does it accept the event?
unfoldable pub parse_event : Event → Bool
unfolding valid_event_type
parse_event e =
    not (ltb current_event_schema_version e.schema_version)
    && (not (e.id == [])
        && (not (e.event_type == [])
            && (valid_event_type e.event_type
                && (not (nat_eq e.timestamp 0) && not (e.payload == [])))))

pub record DeliveryAggregate : Type 0 where
  pub session : Text
  pub seq : ℕ

unfoldable pub new_delivery_aggregate : Text → DeliveryAggregate
new_delivery_aggregate session = record { session = session; seq = 0 }

abbrev pub aggregate_type_delivery : Text
aggregate_type_delivery = codes "delivery"

-- nextEvent: the number is taken even where the payload cannot be marshalled, which is none.
unfoldable pub next_event :
    Text → Text → Option Text → ℕ → DeliveryAggregate → DeliveryAggregate × Option Event
unfolding new_event
next_event id event_type payload now a =
    let a' = record a { seq = (a.seq + 1) % word } in
    elim payload [
      | none ↦ (a', none)
      | some raw ↦ (
        a',
        some (record (new_event id event_type raw now) {
          aggregate_id = a.session;
          aggregate_type = aggregate_type_delivery;
          seq_nr = a'.seq;
        }),
      )
    ]
