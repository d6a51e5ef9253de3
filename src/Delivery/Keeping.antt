-- ===== src/Delivery/Keeping.antt =====
-- What a delivery does with the D-Mail's own file.
use phonewave.Prelude.{
  ◌≡◌, refl, ◌⊎◌, inl, inr, Bool, true, false, Option, none, some, List, [], ◌∷◌, arith, Text,
  Bool-cases, Option-cases, Dict, lookup, insert, lookup-insert,
}
use phonewave.Store.{
  Row, Table, StoreError, stage_delivery, ItemOutcome, FlushState, WriteOutcome, create_failed,
  write_failed, close_failed, renamed, rename_failed, atomic_write, settle, flush_item, flush_items,
  flush_deliveries, collect_unflushed,
}
use phonewave.FilePath.{base}
use phonewave.Delivery.Dmail.{Result, ok, failed, Failure}
use phonewave.Delivery.Defs.{
  Env, World, State, DeliveryResult, is_missing_file, os_remove, is_all_done, recording, conclude,
  deliver_remaining, deliver_planned, deliver_data, remaining_inboxes, delivery_plan, delivered_to,
  target_paths,
}

-- The file system has the file.
abbrev pub Present : Text → Dict Text → Type 0
Present path files = is_missing_file (lookup path files) ≡ false

Present-insert :
    (path target content : Text) (files : Dict Text)
    → Present path files
    → Present path (insert target content files)
Present-insert path target content files h =
    rw (lookup-insert target path content files) (ground arith)

Present-atomic_write :
    (o : WriteOutcome) (path target content : Text) (files : Dict Text)
    → Present path files
    → Present path (atomic_write o target content files).0
unfolding atomic_write
Present-atomic_write renamed path target content files h =
    Present-insert path target content files h
Present-atomic_write (rename_failed temp) path target content files h =
    Present-insert path temp content files h
Present-atomic_write create_failed path target content files h = h
Present-atomic_write write_failed path target content files h = h
Present-atomic_write close_failed path target content files h = h

settle-files :
    (w : Bool) (o : ItemOutcome) (item : Row) (files : Dict Text) (s : FlushState)
    → (settle w o.tx item files s).0.files ≡ files
unfolding settle
settle-files true o item files s = refl
settle-files false o item files s = refl

Present-flush_item :
    (o : ItemOutcome) (path : Text) (item : Row) (s : FlushState)
    → Present path s.files
    → Present path (flush_item o item s).0.files
unfolding flush_item
Present-flush_item o path item s h =
    rw
      (settle-files (atomic_write o.write item.target item.content s.files).1 o item
        (atomic_write o.write item.target item.content s.files).0 s)
      (Present-atomic_write o.write path item.target item.content s.files h)

Present-flush_items :
    (world : Row → ItemOutcome) (path : Text) (items : List Row) (s : FlushState)
    → Present path s.files
    → Present path (flush_items world items s).0.files
unfolding flush_items
Present-flush_items world path [] s h = h
Present-flush_items world path (item ∷ items) s h =
    let k = Present-flush_item (world item) path item s h in
    elim (Option-cases (flush_item (world item) item s).1) [
      | inl e ↦
          rw (e, flush_items)
            (Present-flush_items world path items (flush_item (world item) item s).0 k)
      | inr (x, e) ↦ rw (e, flush_items) k
    ]

-- A flush removes no file.
pub Present-flush :
    (selected : Bool) (world : Row → ItemOutcome) (path : Text) (rows : Table) (files : Dict Text)
    → Present path files
    → Present path (flush_deliveries selected world rows files).0.files
unfolding flush_deliveries
Present-flush false world path rows files h = h
Present-flush true world path rows files h =
    Present-flush_items world path (collect_unflushed rows)
      (record { rows = rows; files = files; flushed = [] }) h

-- A removal that fails leaves the file.
os_remove-failed :
    (removable : Bool) (path : Text) (files : Dict Text)
    → (os_remove removable path files).1 ≡ false
    → (os_remove removable path files).0 ≡ files
unfolding os_remove
os_remove-failed removable path files h = ground arith

-- Everything is flushed and recorded.
abbrev pub Settled : Bool → World → Text → Text → List Text → List Text → State → Type 0
Settled dedup w key path delivered inboxes s =
    (is_all_done w path s.rows ≡ true)
    × ((recording dedup w key true delivered inboxes s.log).1 ≡ true)

conclude-failed :
    (dedup : Bool) (w : World) (key path : Text) (result : DeliveryResult) (inboxes : List Text)
    (s : State) (e : Failure)
    → (conclude dedup w key path result inboxes s).1 ≡ failed e
    → (conclude dedup w key path result inboxes s).0.files ≡ s.files
unfolding conclude
conclude-failed dedup w key path result inboxes s e h =
    elim (Bool-cases (os_remove w.removable path s.files).1) [
      | inl r ↦ ground arith
      | inr n ↦ ground (arith, os_remove-failed w.removable path s.files n)
    ]

-- A conclusion keeps the files, or everything is settled.
pub conclude-cases :
    (dedup : Bool) (w : World) (key path : Text) (result : DeliveryResult) (inboxes : List Text)
    (s : State)
    → ((conclude dedup w key path result inboxes s).0.files ≡ s.files)
      ⊎ (Settled dedup w key path result.delivered_to inboxes s
          × ((conclude dedup w key path result inboxes s).0.log
              ≡ (recording dedup w key true result.delivered_to inboxes s.log).0))
unfolding conclude
conclude-cases dedup w key path result inboxes s = elim (Bool-cases (is_all_done w path s.rows)) [
  | inr n ↦ rw n (inl refl)
  | inl d ↦
      rw d (elim (Bool-cases (recording dedup w key true result.delivered_to inboxes s.log).1) [
        | inr n ↦ rw n (inl refl)
        | inl r ↦ rw r (inr ((refl, refl), refl))
      ])
]

-- The table after the staging, and the state after the flush.
abbrev pub staging : World → Text → Text → List Text → State → Table × Option StoreError
staging w path content inboxes s =
    stage_delivery w.stage w.stage_row path content (target_paths (base path) inboxes) s.rows

abbrev pub flushing : World → Text → Text → List Text → State → FlushState
flushing w path content inboxes s =
    (flush_deliveries w.selected w.item (staging w path content inboxes s).0 s.files).0

abbrev pub flushed_state : World → Text → Text → List Text → State → State
flushed_state w path content inboxes s = record s {
  rows = (flushing w path content inboxes s).rows;
  files = (flushing w path content inboxes s).files;
}

abbrev pub flushed_result : World → Text → Text → Text → List Text → State → DeliveryResult
flushed_result w path content kind inboxes s = record {
  source_path = path;
  kind = kind;
  delivered_to = delivered_to path (flushing w path content inboxes s).flushed;
}

-- The staging fails, or the delivery goes on to its conclusion.
pub remaining-cases :
    (dedup : Bool) (w : World) (key path content kind : Text) (inboxes : List Text) (s : State)
    → ((deliver_remaining dedup w key path content kind inboxes s).0.files ≡ s.files)
      ⊎ (deliver_remaining dedup w key path content kind inboxes s
          ≡ conclude dedup w key path
              (flushed_result w path content kind inboxes s)
              inboxes
              (flushed_state w path content inboxes s))
unfolding deliver_remaining
remaining-cases dedup w key path content kind inboxes s =
    elim (Option-cases (staging w path content inboxes s).1) [
      | inr (x, e) ↦ inl (rw (e, deliver_remaining) refl)
      | inl n ↦ inr (rw (n, deliver_remaining) refl)
    ]

remaining-failed :
    (dedup : Bool) (w : World) (key path content kind : Text) (inboxes : List Text) (s : State)
    (e : Failure)
    → Present path s.files
    → (deliver_remaining dedup w key path content kind inboxes s).1 ≡ failed e
    → Present path (deliver_remaining dedup w key path content kind inboxes s).0.files
remaining-failed dedup w key path content kind inboxes s e h f =
    elim (remaining-cases dedup w key path content kind inboxes s) [
      | inl same ↦ rw same h
      | inr eq ↦ rw eq (
          rw
            (conclude-failed dedup w key path (flushed_result w path content kind inboxes s) inboxes
              (flushed_state w path content inboxes s) e (rw eq at f))
            (Present-flush w.selected w.item path (staging w path content inboxes s).0 s.files h))
    ]

ok-failed : {r : DeliveryResult} (e : Failure) → ok r ≡ failed e → ⊥
ok-failed e h = cc

planned-failed :
    (dedup : Bool) (w : World) (key path content kind : Text) (inboxes : List Text) (s : State)
    (e : Failure)
    → Present path s.files
    → (deliver_planned dedup w key path content kind inboxes s).1 ≡ failed e
    → Present path (deliver_planned dedup w key path content kind inboxes s).0.files
unfolding deliver_planned
planned-failed false w key path content kind inboxes s e h f =
    remaining-failed false w key path content kind inboxes s e h f
planned-failed true w key path content kind inboxes s e h f =
    go (remaining_inboxes w.read key s.log inboxes) refl
  where
    go :
        (rest : Option (List Text))
        → remaining_inboxes w.read key s.log inboxes ≡ rest
        → Present path (deliver_planned true w key path content kind inboxes s).0.files
    go none eq = rw (eq, deliver_planned) h
    go (some []) eq = absurd (ok-failed e (rw (eq, deliver_planned) at f))
    go (some (inbox ∷ rest)) eq =
        rw (eq, deliver_planned)
          (remaining-failed true w key path content kind (inbox ∷ rest) s e h
            (rw (eq, deliver_planned) at f))

-- Where DeliverData returns an error, the D-Mail's file is still there, if it was there before.
pub deliver_data-failed :
    (env : Env) (dedup : Bool) (w : World) (path content : Text) (s : State) (e : Failure)
    → Present path s.files
    → (deliver_data env dedup w path content s).1 ≡ failed e
    → Present path (deliver_data env dedup w path content s).0.files
unfolding deliver_data
deliver_data-failed env dedup w path content s e h f = go (delivery_plan env path content) refl
  where
    go :
        (plan : Result (Text × List Text))
        → delivery_plan env path content ≡ plan
        → Present path (deliver_data env dedup w path content s).0.files
    go (failed x) eq = rw (eq, deliver_data) h
    go (ok (kind, inboxes)) eq =
        rw (eq, deliver_data)
          (planned-failed dedup w (env.idempotency_key content) path content kind inboxes s e h
            (rw (eq, deliver_data) at f))
