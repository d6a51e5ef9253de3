-- ===== src/EventStore/Appending.antt =====
-- What Append does to the events of a directory.
use mathlib.Core.Bool.{false≢true}
use mathlib.Core.Path.{subst}
use phonewave.Prelude.{
  ◌≡◌, refl, sym, ap, inl, inr, true, false, ◌&&◌, List, [], ◌∷◌, ◌++◌, arith, Text, ◌==◌, eq_refl,
  eq_cases, Bool-cases, if◌then◌else◌, In, Dict, lookup, insert, get_or, lookup-insert,
}
use phonewave.EventStore.Events.{Event}
use phonewave.EventStore.Files.{
  Codec, AppendWorld, jsonl, has_suffix, write_events, append_day, append_days,
}
use phonewave.EventStore.Lines.{
  events_of, IsEnded, IsEncoded, write_events-keeps, write_events-adds,
}

abbrev content_of : Text → Dict Text → Text
content_of name files = get_or [] (lookup name files)

-- The event is in one of the event files.
abbrev pub Stored : Codec → Dict Text → Event → Type 0
Stored codec files e =
    (name : Text) × (has_suffix name jsonl ≡ true)
    × In e (events_of codec (get_or [] (lookup name files)))

-- Every file is ended.
abbrev pub AllEnded : Dict Text → Type 0
AllEnded files = (name : Text) → IsEnded (get_or [] (lookup name files))

suffix-append : (day suffix : Text) → has_suffix (day ++ suffix) suffix ≡ true
unfolding has_suffix
suffix-append [] [] = refl
suffix-append [] (c ∷ cs) = rw (eq_refl (c ∷ cs)) refl
suffix-append (d ∷ ds) suffix = ground (arith, suffix-append ds suffix)

content-insert :
    (name asked content : Text) (files : Dict Text)
    → content_of asked (insert name content files)
      ≡ (if name == asked then content else content_of asked files)
content-insert name asked content files = rw (lookup-insert name asked content files) (ground arith)

content_same :
    (name content : Text) (files : Dict Text)
    → content_of name (insert name content files) ≡ content
content_same name content files =
    rw (content-insert name name content files) (rw (eq_refl name) refl)

content_other :
    (name asked content : Text) (files : Dict Text)
    → (name == asked) ≡ false
    → content_of asked (insert name content files) ≡ content_of asked files
content_other name asked content files n = rw (content-insert name asked content files) (rw n refl)

-- What holds of every content holds after a file gets a content of which it holds.
contents-insert :
    (P : Text → Text → Type 0) (name content : Text) (files : Dict Text)
    → P name content
    → ((asked : Text) → P asked (content_of asked files))
    → (asked : Text) → P asked (content_of asked (insert name content files))
contents-insert P name content files here others asked = elim (eq_cases name asked) [
  | inl same ↦
      subst (λ n. P n (content_of n (insert name content files))) same
        (subst (P name) (sym (content_same name content files)) here)
  | inr differ ↦
      subst (P asked) (sym (content_other name asked content files differ)) (others asked)
]

-- The events of a file that grows stay stored.
Stored-insert :
    (codec : Codec) (name content : Text) (files : Dict Text) (e : Event)
    → (In e (events_of codec (content_of name files)) → In e (events_of codec content))
    → Stored codec files e
    → Stored codec (insert name content files) e
Stored-insert codec name content files e grows (asked, suffix, at) = (
  asked,
  suffix,
  contents-insert (λ n c. In e (events_of codec (content_of n files)) → In e (events_of codec c))
      name content files grows (λ n m. m) asked at,
)

append_day-keeps :
    (codec : Codec) (w : AppendWorld) (day : Text) (events : List Event) (files : Dict Text)
    (e : Event)
    → AllEnded files
    → Stored codec files e
    → Stored codec (append_day codec w day events files).0 e
unfolding append_day
append_day-keeps codec w day events files e ended stored =
    elim (Bool-cases (w.opens (day ++ jsonl))) [
      | inr n ↦ rw (n, append_day) stored
      | inl y ↦
          rw (y, append_day)
            (Stored-insert codec (day ++ jsonl)
              (write_events codec w events (content_of (day ++ jsonl) files)).0 files e
              (write_events-keeps codec w events (content_of (day ++ jsonl) files) e
                (ended (day ++ jsonl)))
              stored)
    ]

-- A day whose calls all succeed.
append_day-adds :
    (codec : Codec) (w : AppendWorld) (day : Text) (events : List Event) (files : Dict Text)
    → ((e : Event) → In e events → IsEncoded codec e)
    → AllEnded files
    → (append_day codec w day events files).1 ≡ true
    → AllEnded (append_day codec w day events files).0
      × ((e : Event) → In e events → Stored codec (append_day codec w day events files).0 e)
unfolding append_day
append_day-adds codec w day events files law ended okay =
    elim (Bool-cases (w.opens (day ++ jsonl))) [
      | inr n ↦ absurd (false≢true (rw (n, append_day) at okay))
      | inl y ↦ rw (y, append_day) (opened (written (rw (y, append_day) at okay)))
    ]
  where
    name : Text
    name = day ++ jsonl

    after : Text
    after = (write_events codec w events (content_of name files)).0

    written :
        ((write_events codec w events (content_of name files)).1
            && (w.synced name && w.closed name))
          ≡ true
        → (write_events codec w events (content_of name files)).1 ≡ true
    written h = ground (arith, h)

    opened :
        (write_events codec w events (content_of name files)).1 ≡ true
        → AllEnded (insert name after files)
          × ((e : Event) → In e events → Stored codec (insert name after files) e)
    opened all =
        let (ended', added) =
          write_events-adds codec w events (content_of name files) law (ended name) all in
        (
          contents-insert (λ n c. IsEnded c) name after files ended' ended,
          λ e at. (
            name,
            suffix-append day jsonl,
            subst (λ c. In e (events_of codec c)) (sym (content_same name after files))
                (added e at),
          ),
        )

pub append_days-keeps :
    (codec : Codec) (w : AppendWorld) (days : Dict (List Event)) (files : Dict Text) (e : Event)
    → ((day : Text) (events : List Event) (x : Event)
        → In (day, events) days
        → In x events
        → IsEncoded codec x)
    → AllEnded files
    → Stored codec files e
    → Stored codec (append_days codec w days files).0 e
unfolding append_days
append_days-keeps codec w [] files e law ended stored = stored
append_days-keeps codec w ((day, events) ∷ days) files e law ended stored = by_day (
    append_days-keeps codec w days (append_day codec w day events files).0 e
      (λ d es x at m. law d es x (inr at) m))
  where
    stored' : Stored codec (append_day codec w day events files).0 e
    stored' = append_day-keeps codec w day events files e ended stored

    by_day :
        (AllEnded (append_day codec w day events files).0
          → Stored codec (append_day codec w day events files).0 e
          → Stored codec (append_days codec w days (append_day codec w day events files).0).0 e)
        → Stored codec (append_days codec w ((day, events) ∷ days) files).0 e
    by_day later = elim (Bool-cases (append_day codec w day events files).1) [
      | inr n ↦ rw (n, append_days) stored'
      | inl y ↦
          let (ended', added) =
            append_day-adds codec w day events files (λ x m. law day events x (inl refl) m) ended
              y in
          rw (y, append_days) (later ended' stored')
    ]

pub append_days-adds :
    (codec : Codec) (w : AppendWorld) (days : Dict (List Event)) (files : Dict Text)
    → ((day : Text) (events : List Event) (x : Event)
        → In (day, events) days
        → In x events
        → IsEncoded codec x)
    → AllEnded files
    → (append_days codec w days files).1 ≡ true
    → AllEnded (append_days codec w days files).0
      × ((day : Text) (events : List Event) (x : Event)
          → In (day, events) days
          → In x events
          → Stored codec (append_days codec w days files).0 x)
unfolding append_days
append_days-adds codec w [] files law ended okay = (ended, λ day events x at m. absurd at)
append_days-adds codec w ((day, events) ∷ days) files law ended okay = by_day (
    append_days-adds codec w days (append_day codec w day events files).0
      (λ d es x at m. law d es x (inr at) m))
  where
    files' : Dict Text
    files' = (append_day codec w day events files).0

    spread :
        AllEnded files'
        → ((x : Event) → In x events → Stored codec files' x)
        → ((d : Text) (es : List Event) (x : Event)
            → In (d, es) days
            → In x es
            → Stored codec (append_days codec w days files').0 x)
        → (d : Text) (es : List Event) (x : Event) → In (d, es) ((day, events) ∷ days)
        → In x es
        → Stored codec (append_days codec w days files').0 x
    spread ended' added rest d es x (inr at) m = rest d es x at m
    spread ended' added rest d es x (inl e) m =
        append_days-keeps codec w days files' x (λ d' es' x' at m'. law d' es' x' (inr at) m')
          ended' (added x (subst (λ l. In x l) (ap (λ y. y.1) e) m))

    by_day :
        (AllEnded files'
          → (append_days codec w days files').1 ≡ true
          → AllEnded (append_days codec w days files').0
            × ((d : Text) (es : List Event) (x : Event)
                → In (d, es) days
                → In x es
                → Stored codec (append_days codec w days files').0 x))
        → AllEnded (append_days codec w ((day, events) ∷ days) files).0
          × ((d : Text) (es : List Event) (x : Event)
              → In (d, es) ((day, events) ∷ days)
              → In x es
              → Stored codec (append_days codec w ((day, events) ∷ days) files).0 x)
    by_day later = elim (Bool-cases (append_day codec w day events files).1) [
      | inr n ↦ absurd (false≢true (rw (n, append_days) at okay))
      | inl y ↦
          let (ended', added) =
            append_day-adds codec w day events files (λ x m. law day events x (inl refl) m) ended
              y in
          let (ended'', rest) = later ended' (rw (y, append_days) at okay) in
          rw (y, append_days) (ended'', spread ended' added rest)
    ]
