-- ===== src/EventStore/Files.antt =====
-- FileEventStore: the files of a directory, by name, as bytes. encoding/json is a codec of lines, and the
-- date of a time is an argument; a world says which calls on the file system succeed.
use phonewave.Prelude.{
  ℕ, ◌+◌, Bool, true, false, not, ◌&&◌, ◌||◌, Option, none, some, List, [], ◌∷◌, ◌++◌, Text, codes,
  ◌==◌, nat_eq, leb, ltb, length, split_on, if◌then◌else◌, is_empty, Dict, lookup, insert, get_or,
  keys,
}
use phonewave.Router.{sort}
use phonewave.Delivery.{take_bytes}
use phonewave.EventStore.Events.{Event, parse_event}

pub record Codec : Type 0 where
  pub marshal : Event → Option Text
  pub unmarshal : Text → Option Event
  pub date : ℕ → Text

-- Which calls of Append succeed; `cut` gives the number of bytes that a failing write leaves.
pub record AppendWorld : Type 0 where
  pub made : Bool
  pub opens : Text → Bool
  pub cut : Event → Option ℕ
  pub synced : Text → Bool
  pub closed : Text → Bool

pub record LoadWorld : Type 0 where
  pub listed : Bool
  pub opens : Text → Bool
  pub scans : Text → Bool

abbrev pub newline : ℕ
newline = b'\n'

abbrev pub jsonl : Text
jsonl = codes ".jsonl"

unfoldable pub all_parsed : List Event → Bool
all_parsed [] = true
all_parsed (e ∷ es) = parse_event e && all_parsed es

-- byDate[date] = append(byDate[date], ev), for each event
unfoldable pub group_by_date : (ℕ → Text) → List Event → Dict (List Event) → Dict (List Event)
group_by_date date [] groups = groups
group_by_date date (e ∷ es) groups =
    let day = date e.timestamp in
    group_by_date date es (insert day (get_or [] (lookup day groups) ++ e ∷ []) groups)

-- The loop over the events of one file: its content, and whether all were written.
unfoldable pub write_events : Codec → AppendWorld → List Event → Text → Text × Bool
write_events codec w [] content = (content, true)
write_events codec w (e ∷ es) content = elim (codec.marshal e) [
  | none ↦ (content, false)
  | some line ↦ elim (w.cut e) [
    | some n ↦ (content ++ take_bytes n (line ++ newline ∷ []), false)
    | none ↦ write_events codec w es (content ++ (line ++ newline ∷ []))
  ]
]

-- One turn of the loop over the dates.
unfoldable pub append_day : Codec → AppendWorld → Text → List Event → Dict Text → Dict Text × Bool
unfolding write_events
append_day codec w day events files =
    let name = day ++ jsonl in
    if not (w.opens name)
    then (files, false)
    else let (content, written) = write_events codec w events (get_or [] (lookup name files)) in
      (insert name content files, written && (w.synced name && w.closed name))

unfoldable pub append_days : Codec → AppendWorld → Dict (List Event) → Dict Text → Dict Text × Bool
unfolding append_day
append_days codec w [] files = (files, true)
append_days codec w ((day, events) ∷ days) files =
    let (files', okay) = append_day codec w day events files in
    let rest = append_days codec w days files' in if okay then rest else (files', false)

-- Append, and whether it returns no error.
unfoldable pub append_events : Codec → AppendWorld → List Event → Dict Text → Dict Text × Bool
unfolding all_parsed group_by_date append_days
append_events codec w events files =
    if not (all_parsed events)
    then (files, false)
    else if not w.made
    then (files, false)
    else append_days codec w (group_by_date codec.date events []) files

-- bufio.ScanLines drops a carriage return at the end of a line.
unfoldable pub drop_return : Text → Text
drop_return [] = []
drop_return (c ∷ []) = if nat_eq c b'\r' then [] else c ∷ []
drop_return (c ∷ d ∷ ds) = c ∷ drop_return (d ∷ ds)

abbrev pub is_after : ℕ → Event → Bool
is_after after e = nat_eq after 0 || ltb after e.timestamp

-- What one line gives: an event, nothing, or a corrupt line.
unfoldable pub decode_lines : (Text → Option Event) → ℕ → List Text → List Event × ℕ
unfolding drop_return
decode_lines unmarshal after [] = ([], 0)
decode_lines unmarshal after (line ∷ lines) =
    let (events, corrupt) = decode_lines unmarshal after lines in
    if is_empty (drop_return line) then (events, corrupt) else elim (unmarshal (drop_return line)) [
      | none ↦ (events, corrupt + 1)
      | some e ↦ (if is_after after e then e ∷ events else events, corrupt)
    ]

-- strings.HasSuffix
unfoldable pub has_suffix : Text → Text → Bool
has_suffix [] suffix = is_empty suffix
has_suffix (c ∷ cs) suffix = if (c ∷ cs) == suffix then true else has_suffix cs suffix

unfoldable pub event_files : List Text → List Text
unfolding has_suffix
event_files [] = []
event_files (name ∷ names) =
    let rest = event_files names in if has_suffix name jsonl then name ∷ rest else rest

-- The loop over the files; none is an error.
unfoldable pub read_files : Codec → LoadWorld → ℕ → Dict Text → List Text → Option (List Event × ℕ)
unfolding decode_lines
read_files codec w after files [] = some ([], 0)
read_files codec w after files (name ∷ names) =
    let (events, corrupt) =
      decode_lines codec.unmarshal after (split_on newline (get_or [] (lookup name files))) in
    let rest = read_files codec w after files names in
    if w.opens name && w.scans name
    then elim rest [ none ↦ none | some (more, bad) ↦ some (events ++ more, corrupt + bad) ]
    else none

-- sort.SliceStable by a number
unfoldable pub insert_by : (Event → ℕ) → Event → List Event → List Event
insert_by key e [] = e ∷ []
insert_by key e (x ∷ xs) =
    let rest = insert_by key e xs in if leb (key e) (key x) then e ∷ x ∷ xs else x ∷ rest

unfoldable pub sort_by : (Event → ℕ) → List Event → List Event
unfolding insert_by
sort_by key [] = []
sort_by key (e ∷ es) = insert_by key e (sort_by key es)

pub record LoadResult : Type 0 where
  pub file_count : ℕ
  pub corrupt_line_count : ℕ

-- loadEvents, of a directory that exists; `after` is 0 for the zero time.
unfoldable pub load_events : Codec → LoadWorld → ℕ → Dict Text → Option (List Event × LoadResult)
unfolding event_files read_files sort_by
load_events codec w after files =
    let names = sort (event_files (keys files)) in
    if not w.listed then none else elim (read_files codec w after files names) [
      | none ↦ none
      | some (events, corrupt) ↦ some (
        sort_by (λ e. e.timestamp) events,
        record { file_count = length names; corrupt_line_count = corrupt },
      )
    ]

unfoldable pub numbered_after : ℕ → List Event → List Event
numbered_after n [] = []
numbered_after n (e ∷ es) =
    let rest = numbered_after n es in if ltb 0 e.seq_nr && ltb n e.seq_nr then e ∷ rest else rest

-- LoadAfterSeqNr
unfoldable pub load_after_seq_nr : Codec → LoadWorld → ℕ → Dict Text → Option (List Event)
unfolding numbered_after
load_after_seq_nr codec w n files = elim (load_events codec w 0 files) [
  | none ↦ none
  | some (events, result) ↦ some (sort_by (λ e. e.seq_nr) (numbered_after n events))
]

unfoldable pub highest : List Event → ℕ
highest [] = 0
highest (e ∷ es) = let rest = highest es in if ltb rest e.seq_nr then e.seq_nr else rest

-- FileEventStore.LatestSeqNr
unfoldable pub latest_seq_nr : Codec → LoadWorld → Dict Text → Option ℕ
unfolding highest
latest_seq_nr codec w files = elim (load_events codec w 0 files) [
  | none ↦ none
  | some (events, result) ↦ some (highest events)
]
