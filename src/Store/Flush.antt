-- ===== src/Store/Flush.antt =====
-- FlushDeliveries: select, write each file, update each row.
use phonewave.Prelude.{
  Bool, true, false, Option, none, some, List, [], ◌∷◌, ◌++◌, Text, if◌then◌else◌, Dict, insert,
}
use phonewave.Store.Defs.{
  Row, Table, StoreError, select_failed, Tx, mark_flushed, increment_retry_count, collect_unflushed,
}

-- How atomicWrite ends. It makes a temporary file, fills it, closes it and renames it to the
-- target; a failed rename names the temporary file that is left.
pub data WriteOutcome : Type 0 where
  create_failed write_failed close_failed renamed : WriteOutcome
  rename_failed : Text → WriteOutcome

-- The files of the inboxes after atomicWrite, and whether it returned nil.
unfoldable pub atomic_write : WriteOutcome → Text → Text → Dict Text → Dict Text × Bool
atomic_write renamed target content files = (insert target content files, true)
atomic_write (rename_failed temp) target content files = (insert temp content files, false)
atomic_write _ target content files = (files, false)

-- What happens to one item: how its write ends, and its transaction afterwards.
pub record ItemOutcome : Type 0 where
  pub write : WriteOutcome
  pub tx : Tx

pub record DeliveryFlushed : Type 0 where
  pub dmail_path : Text
  pub target : Text

pub record FlushState : Type 0 where
  pub rows : Table
  pub files : Dict Text
  pub flushed : List DeliveryFlushed

-- Phase 3 for one item, by whether its file was written: the state after it, and the error that
-- ends the loop.
unfoldable pub settle : Bool → Tx → Row → Dict Text → FlushState → FlushState × Option StoreError
settle true tx item files s =
    let (marked, error) = mark_flushed tx item.dmail_path item.target s.rows in
    let done : DeliveryFlushed = record { dmail_path = item.dmail_path; target = item.target } in
    (
      record s {
        rows = marked;
        files = files;
        flushed = elim error [ none ↦ s.flushed ++ done ∷ [] | some e ↦ s.flushed ];
      },
      error,
    )
settle false tx item files s =
    let (counted, error) = increment_retry_count tx item.dmail_path item.target s.rows in
    (record s { rows = counted; files = files }, error)

-- Phases 2 and 3 for one item.
unfoldable pub flush_item : ItemOutcome → Row → FlushState → FlushState × Option StoreError
flush_item outcome item s =
    let (files, written) = atomic_write outcome.write item.target item.content s.files in
    settle written outcome.tx item files s

unfoldable pub flush_items :
    (Row → ItemOutcome) → List Row → FlushState → FlushState × Option StoreError
flush_items world [] s = (s, none)
flush_items world (item ∷ items) s =
    let (s', error) = flush_item (world item) item s in
    let rest = flush_items world items s' in elim error [ none ↦ rest | some e ↦ (s', some e) ]

-- FlushDeliveries; `selected` says whether the SELECT succeeds.
unfoldable pub flush_deliveries :
    Bool → (Row → ItemOutcome) → Table → Dict Text → FlushState × Option StoreError
flush_deliveries selected world rows files =
    let start : FlushState = record { rows = rows; files = files; flushed = [] } in
    if selected
    then flush_items world (collect_unflushed rows) start
    else (start, some select_failed)
