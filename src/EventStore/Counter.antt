-- ===== src/EventStore/Counter.antt =====
-- SeqCounter: its one row. `okay` says that the statement succeeds; none is an error.
use phonewave.Prelude.{ℕ, ◌+◌, ◌-◌, Bool, Option, none, some, leb, if◌then◌else◌}

pub record SeqCounter : Type 0 where
  pub next_seq : ℕ

-- The row that NewSeqCounter makes sure of.
abbrev pub new_seq_counter : SeqCounter
new_seq_counter = record { next_seq = 1 }

unfoldable pub alloc_seq_nr : Bool → SeqCounter → SeqCounter × Option ℕ
alloc_seq_nr okay c =
    if okay then (record { next_seq = c.next_seq + 1 }, some c.next_seq) else (c, none)

unfoldable pub latest_allocated : Bool → SeqCounter → Option ℕ
latest_allocated okay c =
    if okay then some (if leb c.next_seq 1 then 0 else c.next_seq - 1) else none

unfoldable pub initialize_at : Bool → ℕ → SeqCounter → SeqCounter
initialize_at okay start c =
    if okay then (if leb c.next_seq (start + 1) then record { next_seq = start + 1 } else c) else c
