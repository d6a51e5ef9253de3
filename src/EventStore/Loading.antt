-- ===== src/EventStore/Loading.antt =====
-- What is appended is loaded again.
use mathlib.Core.Bool.{false≢true}
use mathlib.Core.Path.{subst}
use phonewave.Prelude.{
  ◌≡◌, ◌↔◌, ◌⊎◌, inl, inr, Bool, true, Option, some, List, [], Text, Bool-cases, In, Dict,
}
use phonewave.EventStore.Events.{Event}
use phonewave.EventStore.Files.{
  Codec, AppendWorld, LoadWorld, LoadResult, load_events, group_by_date, append_days, append_events,
  all_parsed,
}
use phonewave.EventStore.Lines.{IsEncoded}
use phonewave.EventStore.Appending.{Stored, AllEnded, append_days-keeps, append_days-adds}
use phonewave.EventStore.Ordering.{IsAscending}
use phonewave.EventStore.Reading.{
  LoadedAs, LoadsAll, load_events-LoadedAs, load_events_total, returned,
}
use phonewave.EventStore.Grouping.{Grouped, group_by_date-Grouped, Grouped-group_by_date}

-- What Append makes of a directory.
record Appended (codec : Codec) (events : List Event) (files after : Dict Text) (okay : Bool)
    : Type 0 where
  keeps : (e : Event) → Stored codec files e → Stored codec after e
  adds : okay ≡ true → AllEnded after × ((e : Event) → In e events → Stored codec after e)

append_days-Appended :
    (codec : Codec) (w : AppendWorld) (events : List Event) (files : Dict Text)
    → ((e : Event) → In e events → IsEncoded codec e)
    → AllEnded files
    → let r = append_days codec w (group_by_date codec.date events []) files in
      Appended codec events files r.0 r.1
append_days-Appended codec w events files law ended = record {
  keeps = λ e stored. append_days-keeps codec w days files e law' ended stored;
  adds = λ okay.
      let (ended', added) = append_days-adds codec w days files law' ended okay in
      (
        ended',
        λ e at.
            let (day, es, at', m) = group_by_date-Grouped codec.date events [] e (inl at) in
            added day es e at' m,
      );
}
  where
    days : Dict (List Event)
    days = group_by_date codec.date events []

    given : (x : Event) → In x events ⊎ Grouped [] x → In x events
    given x (inl at) = at
    given x (inr (d, es, bad, m)) = absurd bad

    law' :
        (day : Text) (es : List Event) (x : Event) → In (day, es) days → In x es → IsEncoded codec x
    law' day es x at m =
        law x (given x (Grouped-group_by_date codec.date events [] x (day, es, at, m)))

append_events-Appended :
    (codec : Codec) (w : AppendWorld) (events : List Event) (files : Dict Text)
    → ((e : Event) → In e events → IsEncoded codec e)
    → AllEnded files
    → let r = append_events codec w events files in Appended codec events files r.0 r.1
unfolding append_events
append_events-Appended codec w events files law ended = elim (Bool-cases (all_parsed events)) [
  | inr bad ↦
      rw (bad, append_events) (record { keeps = λ e s. s; adds = λ okay. absurd (false≢true okay) })
  | inl good ↦ elim (Bool-cases w.made) [
    | inr n ↦
        rw (good, append_events)
          (rw (n, append_events)
            (record { keeps = λ e s. s; adds = λ okay. absurd (false≢true okay) }))
    | inl y ↦
        rw (good, append_events)
          (rw (y, append_events) (append_days-Appended codec w events files law ended))
  ]
]

-- Events are read back: where the directory's event files end their lines and each event given is one
-- that encoding/json reads back from a line of its own, every load after an Append that can read the
-- directory gives the events by ascending times, has every event that any load before had, whatever
-- failed in the Append, and, if the Append returned no error, has all the events given, and the
-- files end their lines again.
pub append_events-load_events :
    (codec : Codec) (w : AppendWorld) (events : List Event) (files : Dict Text) (r : LoadWorld)
    → ((e : Event) → In e events → IsEncoded codec e)
    → AllEnded files
    → LoadsAll r
    → (now : List Event) × (result : LoadResult) × (load_events codec r 0
          (append_events codec w events files).0
        ≡ some (now, result))
      × IsAscending (λ e. e.timestamp) now
      × ((earlier : LoadWorld) (before : List Event) (result' : LoadResult)
          → load_events codec earlier 0 files ≡ some (before, result')
          → (e : Event) → In e before
          → In e now)
      × ((append_events codec w events files).1 ≡ true
          → AllEnded (append_events codec w events files).0
            × ((e : Event) → In e events → In e now))
append_events-load_events codec w events files r law ended all =
    let after = (append_events codec w events files).0 in
    let ((now, result), eq) =
      returned (load_events codec r 0 after) (load_events_total codec r after all) in
    let (ascending, iff) =
      loaded codec after now result (load_events codec r 0 after) eq
        (load_events-LoadedAs codec r after) in
    let spec = append_events-Appended codec w events files law ended in
    (
      now,
      result,
      eq,
      ascending,
      λ earlier before result' eq' e at. (iff e).1 (
          spec.keeps e (
            ((loaded codec files before result' (load_events codec earlier 0 files) eq'
                  (load_events-LoadedAs codec earlier files)).1
                e).0
              at)),
      λ okay. let (ended', added) = spec.adds okay in (ended', λ e at. (iff e).1 (added e at)),
    )
  where
    loaded :
        (c : Codec) (fs : Dict Text) (es : List Event) (res : LoadResult)
        (o : Option (List Event × LoadResult))
        → o ≡ some (es, res)
        → LoadedAs c fs o
        → IsAscending (λ e. e.timestamp) es × ((e : Event) → In e es ↔ Stored c fs e)
    loaded c fs es res o eq h = subst (LoadedAs c fs) eq h
