-- ===== src/EventStore/Migrating.antt =====
-- The cutover is done once.
use phonewave.Prelude.{◌+◌, ◌≡◌, ◌⊎◌, Option, none, some, Text, codes, lookup}
use phonewave.EventStore.Cutover.{CutoverState, CutoverResult, done_before}

-- Nothing is migrated: the counter stands, and there is an error, or nothing was to be done.
abbrev pub IsIdle : CutoverState → CutoverState × Option CutoverResult → Type 0
IsIdle s (s', result) =
    (s'.counter.next_seq ≡ s.counter.next_seq) × ((result ≡ none) ⊎ (result ≡ some done_before))

-- A number is taken, and the sentinel snapshot is there.
abbrev IsTaken : Text → CutoverState → CutoverState × Option CutoverResult → Type 0
IsTaken aggregate_type s (s', result) =
    (s'.counter.next_seq ≡ s.counter.next_seq + 1)
    × (lookup aggregate_type s'.snapshots ≡ some (0, codes "null"))
