-- ===== src/Tests/Recording.antt =====
-- An event emitted, appended and loaded, and a cutover.
use phonewave.Prelude.{
  ◌≡◌, refl, inl, inr, true, false, none, some, List, [], ◌∷◌, Text, codes, ◌==◌, In, lookup,
  insert, contains, has_rune,
}
use phonewave.EventStore.{
  Event, Codec, AppendWorld, LoadWorld, LoadResult, Emitter, Emission, CutoverState, CutoverWorld,
  new_event, parse_event, valid_event_type, delivery_completed, all_parsed, append_events,
  append_days, append_day, group_by_date, write_events, load_events, emit_event, next_event, emit,
  alloc_seq_nr, drop_return,
}
use phonewave.EventStore.Numbers.{Act, emits, others_allocate, run_acts, Chained, run_acts-Chained}
use phonewave.EventStore.Lines.{IsEncoded}
use phonewave.EventStore.Appending.{AllEnded}
use phonewave.EventStore.Ordering.{IsAscending}
use phonewave.EventStore.Loading.{append_events-load_events}

abbrev event : Event
event = record {
  schema_version = 1;
  id = codes "u1";
  event_type = delivery_completed;
  timestamp = 5;
  payload = codes "{}";
  session_id = [];
  correlation_id = codes "s";
  causation_id = [];
  aggregate_id = codes "s";
  aggregate_type = codes "delivery";
  seq_nr = 1;
}

-- A codec that knows one event.
abbrev codec : Codec
codec = record {
  marshal = λ e. some (codes "line");
  unmarshal = λ line. some event;
  date = λ t. codes "2026-01-01";
}

abbrev good : AppendWorld
good = record {
  made = true;
  opens = λ name. true;
  cut = λ e. none;
  synced = λ name. true;
  closed = λ name. true;
}

abbrev reads : LoadWorld
reads = record { listed = true; opens = λ name. true; scans = λ name. true }

line_returns : drop_return (codes "line") ≡ codes "line"
unfolding drop_return
line_returns = refl

line_alone : has_rune 10 (codes "line") ≡ false
unfolding has_rune
line_alone = refl

line_reads : (e : Event) → e ≡ event → IsEncoded codec e
line_reads e same = record {
  one_line = λ line m. cc (line_alone, m);
  not_empty = λ line m. cc m;
  no_return = λ line m. cc (line_returns, m);
  read_back = λ line m. cc same;
}

event-IsEncoded : (e : Event) → In e (event ∷ []) → IsEncoded codec e
event-IsEncoded e (inl same) = line_reads e same
event-IsEncoded e (inr bad) = absurd bad

nothing-AllEnded : AllEnded []
unfolding lookup
nothing-AllEnded name = inl refl

appended :
    append_events codec good (event ∷ []) []
    ≡ ((codes "2026-01-01.jsonl", codes "line\n") ∷ [], true)
unfolding append_events all_parsed parse_event valid_event_type contains ◌==◌ group_by_date
    append_days append_day write_events lookup insert
appended = refl

append_events-load_events_example :
    (now : List Event) × (result : LoadResult) × (load_events codec reads 0
        (append_events codec good (event ∷ []) []).0
      ≡ some (now, result))
    × IsAscending (λ e. e.timestamp) now
    × ((earlier : LoadWorld) (before : List Event) (result' : LoadResult)
        → load_events codec earlier 0 [] ≡ some (before, result')
        → (e : Event) → In e before
        → In e now)
    × ((append_events codec good (event ∷ []) []).1 ≡ true
        → AllEnded (append_events codec good (event ∷ []) []).0
          × ((e : Event) → In e (event ∷ []) → In e now))
append_events-load_events_example =
    append_events-load_events codec good (event ∷ []) [] reads event-IsEncoded nothing-AllEnded
      (refl, λ name. refl)

abbrev emitter : Emitter
emitter = record {
  agg = record { session = codes "s"; seq = 0 };
  delivery_id = codes "s";
  prev_id = [];
  counter = record { next_seq = 1 };
  files = [];
}

abbrev completed : Text → Emission
completed id = record {
  id = id;
  event_type = delivery_completed;
  payload = some (codes "{}");
  now = 5;
  allocated = true;
  world = good;
}

abbrev acts : List Act
acts = emits (completed (codes "u1")) ∷ others_allocate true ∷ emits (completed (codes "u2")) ∷ []

abbrev second : Event
second = record event { id = codes "u2"; causation_id = codes "u1"; seq_nr = 3 }

acts-stored : (run_acts codec acts emitter).1 ≡ event ∷ second ∷ []
unfolding run_acts emit_event next_event new_event emit alloc_seq_nr append_events all_parsed
    parse_event valid_event_type contains ◌==◌ group_by_date append_days append_day write_events
    lookup insert
acts-stored = refl

run_acts-Chained_example : Chained [] 1 (run_acts codec acts emitter).1
run_acts-Chained_example = run_acts-Chained codec acts emitter

abbrev legacy : CutoverState
legacy = record {
  files = (codes "2026-01-01.jsonl", codes "line\n") ∷ [];
  snapshots = [];
  counter = record { next_seq = 1 };
}

abbrev cutover : CutoverWorld
cutover = record {
  counted = true;
  load = reads;
  saved = true;
  allocated = true;
  append = good;
  id = codes "u3";
  now = 6;
  payload = λ n. some (codes "{}");
}
