-- ===== src/EventStore/Cutover.antt =====
-- RunCutover, with the snapshot store. A snapshot is the pair of a number and a state, kept under the
-- type of its aggregate; `saved` says whether its temporary file is written and renamed.
use phonewave.Prelude.{
  ℕ, zero, suc, Bool, true, false, Option, none, some, [], ◌∷◌, Text, codes, length, if◌then◌else◌,
  Dict, lookup, insert,
}
use phonewave.EventStore.Events.{Event, new_event, system_cutover}
use phonewave.EventStore.Counter.{SeqCounter, alloc_seq_nr, latest_allocated}
use phonewave.EventStore.Files.{Codec, AppendWorld, LoadWorld, append_events, load_events}

abbrev pub Snapshots : Type 0
Snapshots = Dict (ℕ × Text)

-- FileSnapshotStore.Save, and whether it returns no error
unfoldable pub save_snapshot : Bool → Text → ℕ → Text → Snapshots → Snapshots × Bool
save_snapshot saved aggregate_type seq state snapshots =
    if saved then (insert aggregate_type (seq, state) snapshots, true) else (snapshots, false)

-- FileSnapshotStore.Load of a file that can be read and parsed; (0, nil) where there is none
unfoldable pub load_snapshot : Text → Snapshots → ℕ × Option Text
load_snapshot aggregate_type snapshots = elim (lookup aggregate_type snapshots) [
  | none ↦ (0, none)
  | some (seq, state) ↦ (seq, some state)
]

pub record CutoverState : Type 0 where
  pub files : Dict Text
  pub snapshots : Snapshots
  pub counter : SeqCounter

pub record CutoverResult : Type 0 where
  pub already_done : Bool
  pub event_count : ℕ
  pub cutover_seq_nr : ℕ

-- Which steps succeed, the identifier and the time of the event, and its payload.
pub record CutoverWorld : Type 0 where
  pub counted : Bool
  pub load : LoadWorld
  pub saved : Bool
  pub allocated : Bool
  pub append : AppendWorld
  pub id : Text
  pub now : ℕ
  pub payload : ℕ → Option Text

abbrev pub done_before : CutoverResult
done_before = record { already_done = true; event_count = 0; cutover_seq_nr = 0 }

-- The event is made, numbered and appended.
unfoldable pub emit_cutover :
    Codec → CutoverWorld → ℕ → CutoverState → CutoverState × Option CutoverResult
emit_cutover codec w count s = elim (w.payload count) [
  | none ↦ (s, none)
  | some raw ↦
      let (counter, seq) = alloc_seq_nr w.allocated s.counter in
      elim seq [
        | none ↦ (record s { counter = counter }, none)
        | some n ↦
            let ev : Event = record (new_event w.id system_cutover raw w.now) { seq_nr = n } in
            let (files, okay) = append_events codec w.append (ev ∷ []) s.files in
            (
              record s { counter = counter; files = files },
              if okay
                  then some
                      (record { already_done = false; event_count = count; cutover_seq_nr = n })
                  else none,
            )
      ]
]

-- The steps once there are events.
unfoldable pub perform_cutover :
    Codec → CutoverWorld → Text → ℕ → CutoverState → CutoverState × Option CutoverResult
unfolding save_snapshot emit_cutover
perform_cutover codec w aggregate_type count s =
    let (snapshots, okay) = save_snapshot w.saved aggregate_type 0 (codes "null") s.snapshots in
    if okay then emit_cutover codec w count (record s { snapshots = snapshots }) else (s, none)

-- RunCutover; none is an error.
unfoldable pub run_cutover :
    Codec → CutoverWorld → Text → CutoverState → CutoverState × Option CutoverResult
unfolding perform_cutover
run_cutover codec w aggregate_type s = elim (latest_allocated w.counted s.counter) [
  | none ↦ (s, none)
  | some (suc n) ↦ (s, some done_before)
  | some zero ↦ elim (load_events codec w.load 0 s.files) [
    | none ↦ (s, none)
    | some ([], result) ↦ (s, some done_before)
    | some (e ∷ es, result) ↦ perform_cutover codec w aggregate_type (length (e ∷ es)) s
  ]
]
