-- ===== src/Tests/Staging.antt =====
-- Two targets of one file, staged and flushed.
use phonewave.Prelude.{
  ◌≡◌, refl, ◌↔◌, inl, inr, Bool-cases, true, false, none, [], ◌∷◌, map, Text, codes, ◌==◌,
  if◌then◌else◌, In,
}
use phonewave.Store.{
  Row, Table, Tx, has_key, collect_unflushed, all_flushed_for, prune_flushed, purge_dead_letters,
  dead_letter_count, renamed, rename_failed, ItemOutcome, DeliveryFlushed, flush_deliveries,
}
use phonewave.Store.Keys.{UniqueKeys}
use phonewave.Store.Flushing.{flush_row, reported, files_after}
use phonewave.Store.Advance.{Advanced, Reported, flush_deliveries-map, flush_deliveries-Advanced}
use phonewave.Store.Draining.{AllDone, flushed_table, three_flushes}
use phonewave.Store.Cleaning.{all_flushed_for_iff, cleaning_pending}

abbrev path : Text
path = codes "/r/a/outbox/m.md"

abbrev near : Text
near = codes "/r/b/inbox/m.md"

abbrev far : Text
far = codes "/r/c/inbox/m.md"

abbrev done_tx : Tx
done_tx = record { conn = true; begin = true; exec = true; commit = true }

abbrev pending_row : Row
pending_row = record {
  dmail_path = path;
  target = near;
  content = codes "x";
  flushed = false;
  retry_count = 0;
}

abbrev tried_row : Row
tried_row = record {
  dmail_path = path;
  target = far;
  content = codes "x";
  flushed = false;
  retry_count = 2;
}

abbrev table : Table
table = pending_row ∷ tried_row ∷ []

table-UniqueKeys : UniqueKeys table
unfolding has_key ◌==◌
table-UniqueKeys = ((refl, tt), (tt, tt))

-- Only the inbox of the first row can be written.
abbrev world : Row → ItemOutcome
world r =
    if r.target == near
    then record { write = renamed; tx = done_tx }
    else record { write = rename_failed (codes "/r/c/inbox/.phonewave-tmp-1"); tx = done_tx }

world-AllDone : AllDone world
world-AllDone r = elim (Bool-cases (r.target == near)) [
  | inl e ↦ rw e (refl, refl, refl, refl)
  | inr n ↦ rw n (refl, refl, refl, refl)
]

flush_deliveries-map_example : flush_deliveries true world table [] ≡ (
  record {
    rows = map (flush_row world) table;
    files = files_after world (collect_unflushed table) [];
    flushed = reported world (collect_unflushed table);
  },
  none,
)
flush_deliveries-map_example =
    flush_deliveries-map world table [] table-UniqueKeys
      (world-AllDone pending_row, (world-AllDone tried_row, tt))

flush_deliveries-Advanced_example :
    Advanced world table (flush_deliveries true world table []).0.rows
    × ((d : DeliveryFlushed)
        → In d (flush_deliveries true world table []).0.flushed
        → Reported world (collect_unflushed table) d)
flush_deliveries-Advanced_example = flush_deliveries-Advanced true world table [] table-UniqueKeys

all_flushed_for_iff_example :
    (all_flushed_for path table ≡ true)
    ↔ ((r : Row) → In r table → r.dmail_path ≡ path → r.flushed ≡ true)
all_flushed_for_iff_example = all_flushed_for_iff path table

three_flushes_example :
    collect_unflushed
      (flushed_table world [] (flushed_table world [] (flushed_table world [] table)))
    ≡ []
three_flushes_example =
    three_flushes world world world [] [] [] table table-UniqueKeys world-AllDone world-AllDone
      world-AllDone

cleaning_pending_example :
    (collect_unflushed (prune_flushed done_tx true true table).0 ≡ collect_unflushed table)
    × (all_flushed_for path (prune_flushed done_tx true true table).0 ≡ all_flushed_for path table)
    × (collect_unflushed (purge_dead_letters true true table).0 ≡ collect_unflushed table)
    × (dead_letter_count (purge_dead_letters true true table).0 ≡ 0)
cleaning_pending_example = cleaning_pending done_tx true true true path table
