-- ===== src/Store/Flushing.antt =====
-- FlushDeliveries as one change of the whole table.
use phonewave.Prelude.{
  ◌≡◌, refl, sym, ap, ◌∙◌, inl, inr, Bool, true, false, Option, none, some, List, [], ◌∷◌, ◌++◌,
  arith, Text, Bool-cases, Option-cases, if◌then◌else◌, Dict, append-nil, append_assoc,
}
use phonewave.Store.Defs.{
  Row, Table, Tx, StoreError, update_rows, set_flushed, add_retry, mark_flushed,
  increment_retry_count, is_pending, transact,
}
use phonewave.Store.Flush.{
  WriteOutcome, renamed, atomic_write, ItemOutcome, DeliveryFlushed, FlushState, settle, flush_item,
  flush_items,
}
use phonewave.Store.Staging.{transact-none, transact-some}

-- atomicWrite returns nil.
abbrev pub is_written : WriteOutcome → Bool
is_written renamed = true
is_written _ = false

-- How an item's row changes, by whether its file was written.
abbrev pub change : Bool → Row → Row
change true r = set_flushed r
change false r = add_retry r

abbrev pub written : (Row → ItemOutcome) → Row → Bool
written world r = is_written (world r).write

-- A pending row that was written is flushed, one that was not has one more retry; a row that is not
-- pending stays as it is.
abbrev pub flush_row : (Row → ItemOutcome) → Row → Row
flush_row world r = if is_pending r then change (written world r) r else r

-- What is reported for a list of items.
unfoldable pub reported : (Row → ItemOutcome) → List Row → List DeliveryFlushed
reported world [] = []
reported world (r ∷ items) =
    let rest = reported world items in
    if written world r then record { dmail_path = r.dmail_path; target = r.target } ∷ rest else rest

-- The table after the items, one by one.
unfoldable pub rows_after : (Row → ItemOutcome) → List Row → Table → Table
rows_after world [] rows = rows
rows_after world (r ∷ items) rows =
    rows_after world items (update_rows (change (written world r)) r.dmail_path r.target rows)

-- The transaction of an item succeeds.
abbrev pub IsDone : Tx → Type 0
IsDone tx = (tx.conn ≡ true) × (tx.begin ≡ true) × (tx.exec ≡ true) × (tx.commit ≡ true)

abbrev pub one_report : Bool → Row → List DeliveryFlushed
one_report true item = record { dmail_path = item.dmail_path; target = item.target } ∷ []
one_report false item = []

atomic_write-written :
    (o : WriteOutcome) (target content : Text) (files : Dict Text)
    → (atomic_write o target content files).1 ≡ is_written o
unfolding atomic_write
atomic_write-written renamed target content files = refl
atomic_write-written _ target content files = refl

-- One item without an error of the database.
settle-none :
    (w : Bool) (tx : Tx) (item : Row) (files : Dict Text) (s : FlushState)
    → (settle w tx item files s).1 ≡ none
    → (settle w tx item files s).0 ≡ record {
      rows = update_rows (change w) item.dmail_path item.target s.rows;
      files = files;
      flushed = s.flushed ++ one_report w item;
    }
unfolding settle mark_flushed increment_retry_count
settle-none true tx item files s h = rw (h, transact-none _ _ _ h)
settle-none false tx item files s h = rw (append-nil, transact-none _ _ _ h)

-- One item with an error: the table and the report are as before.
settle-some :
    (w : Bool) (tx : Tx) (item : Row) (files : Dict Text) (s : FlushState) (e : StoreError)
    → (settle w tx item files s).1 ≡ some e
    → (settle w tx item files s).0 ≡ record s { files = files }
unfolding settle mark_flushed increment_retry_count
settle-some true tx item files s e h = rw (h, transact-some _ _ _ _ h)
settle-some false tx item files s e h = rw (transact-some _ _ _ _ h)

-- It has no error if its transaction succeeds.
settle-done :
    (w : Bool) (tx : Tx) (item : Row) (files : Dict Text) (s : FlushState)
    → IsDone tx
    → (settle w tx item files s).1 ≡ none
unfolding settle mark_flushed increment_retry_count transact
settle-done true tx item files s h = ground arith
settle-done false tx item files s h = ground arith

-- The files after the items, one by one.
unfoldable pub files_after : (Row → ItemOutcome) → List Row → Dict Text → Dict Text
files_after world [] files = files
files_after world (r ∷ items) files =
    files_after world items (atomic_write (world r).write r.target r.content files).0

pub one_report-reported :
    (world : Row → ItemOutcome) (r : Row) (items : List Row)
    → one_report (written world r) r ++ reported world items ≡ reported world (r ∷ items)
unfolding reported
one_report-reported world r items = elim (Bool-cases (written world r)) [
  | inl e ↦ rw e
  | inr n ↦ rw n
]

-- One item of the loop, without an error.
pub flush_item-none :
    (world : Row → ItemOutcome) (item : Row) (s : FlushState)
    → (flush_item (world item) item s).1 ≡ none
    → (flush_item (world item) item s).0 ≡ record {
      rows = update_rows (change (written world item)) item.dmail_path item.target s.rows;
      files = (atomic_write (world item).write item.target item.content s.files).0;
      flushed = s.flushed ++ one_report (written world item) item;
    }
unfolding flush_item
flush_item-none world item s h =
    let o = world item in
    let f = atomic_write o.write item.target item.content s.files in
    let w = atomic_write-written o.write item.target item.content s.files in
    rw (settle-none f.1 o.tx item f.0 s h) (rw w)

-- The table after some of the items, and their report.
pub record Progress (world : Row → ItemOutcome) (items : List Row) (s : FlushState)
    (end : FlushState × Option StoreError) : Type 0 where
  pub done : List Row
  pub rest : List Row
  pub items_split : items ≡ done ++ rest
  pub rows : end.0.rows ≡ rows_after world done s.rows
  pub flushed : end.0.flushed ≡ s.flushed ++ reported world done
  pub complete : end.1 ≡ none → rest ≡ []

flush_item-some :
    (world : Row → ItemOutcome) (item : Row) (s : FlushState) (e : StoreError)
    → (flush_item (world item) item s).1 ≡ some e
    → ((flush_item (world item) item s).0.rows ≡ s.rows)
      × ((flush_item (world item) item s).0.flushed ≡ s.flushed)
unfolding flush_item
flush_item-some world item s e h =
    let o = world item in
    let f = atomic_write o.write item.target item.content s.files in
    rw (settle-some f.1 o.tx item f.0 s e h) (refl, refl)

Progress-cons :
    (world : Row → ItemOutcome) (item : Row) (items : List Row) (s s' : FlushState)
    → (end : FlushState × Option StoreError)
    → s'.rows ≡ update_rows (change (written world item)) item.dmail_path item.target s.rows
    → s'.flushed ≡ s.flushed ++ one_report (written world item) item
    → Progress world items s' end
    → Progress world (item ∷ items) s end
Progress-cons world item items s s' end r f p = record {
  done = item ∷ p.done;
  rest = p.rest;
  items_split = ap (λ l. item ∷ l) p.items_split;
  rows = p.rows ∙ ap (rows_after world p.done) r ∙ sym (unfold rows_after in refl);
  flushed =
      p.flushed
      ∙ ap (λ l. l ++ reported world p.done) f
      ∙ append_assoc s.flushed (one_report (written world item) item) (reported world p.done)
      ∙ ap (λ l. s.flushed ++ l) (one_report-reported world item p.done);
  complete = p.complete;
}

pub flush_items-none :
    (world : Row → ItemOutcome) (item : Row) (items : List Row) (s : FlushState)
    → (flush_item (world item) item s).1 ≡ none
    → flush_items world (item ∷ items) s
      ≡ flush_items world items (flush_item (world item) item s).0
unfolding flush_items
flush_items-none world item items s h = ground (arith, h)

flush_items-some :
    (world : Row → ItemOutcome) (item : Row) (items : List Row) (s : FlushState) (e : StoreError)
    → (flush_item (world item) item s).1 ≡ some e
    → flush_items world (item ∷ items) s ≡ ((flush_item (world item) item s).0, some e)
unfolding flush_items
flush_items-some world item items s e h = ground (arith, h)

pub flush_items-Progress :
    (world : Row → ItemOutcome) (items : List Row) (s : FlushState)
    → Progress world items s (flush_items world items s)
unfolding flush_items
flush_items-Progress world [] s = record {
  done = [];
  rest = [];
  items_split = refl;
  rows = unfold rows_after in refl;
  flushed = unfold reported in sym (append-nil s.flushed);
  complete = λ _. refl;
}
flush_items-Progress world (item ∷ items) s =
    elim (Option-cases (flush_item (world item) item s).1) [
      | inl n ↦ rw (flush_items-none world item items s n) (
          Progress-cons world item items s (flush_item (world item) item s).0
            (flush_items world items (flush_item (world item) item s).0)
            (ap (λ x. x.rows) (flush_item-none world item s n))
            (ap (λ x. x.flushed) (flush_item-none world item s n))
            (flush_items-Progress world items (flush_item (world item) item s).0))
      | inr (e, h) ↦ rw (flush_items-some world item items s e h) (record {
        done = [];
        rest = item ∷ items;
        items_split = refl;
        rows = (flush_item-some world item s e h).0 ∙ sym (unfold rows_after in refl);
        flushed =
            (flush_item-some world item s e h).1 ∙ unfold reported in sym (append-nil s.flushed);
        complete = λ x. cc;
      })
    ]

pub flush_item-done :
    (world : Row → ItemOutcome) (item : Row) (s : FlushState)
    → IsDone (world item).tx
    → (flush_item (world item) item s).1 ≡ none
unfolding flush_item
flush_item-done world item s h =
    let o = world item in
    let f = atomic_write o.write item.target item.content s.files in
    settle-done f.1 o.tx item f.0 s h
