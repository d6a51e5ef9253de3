-- ===== src/Store/Advance.antt =====
-- A flush seen row by row.
use phonewave.Prelude.{
  ◌≡◌, refl, ap, ◌∙◌, ◌⊎◌, inl, inr, Bool, true, false, none, List, [], ◌∷◌, ◌++◌, map, Text,
  Bool-cases, All, Dict, append-nil, append_assoc, In, In-append_left,
}
use phonewave.Store.Defs.{Row, Table, has_key, update_rows, select, is_pending, collect_unflushed}
use phonewave.Store.Flush.{
  ItemOutcome, DeliveryFlushed, FlushState, flush_item, flush_items, flush_deliveries,
}
use phonewave.Store.Keys.{
  Fresh, UniqueKeys, has_key_self, has_key-sym, KeepsKey, has_key-change, All-select,
  update_rows-Fresh,
}
use phonewave.Store.Flushing.{
  change, written, flush_row, reported, rows_after, files_after, IsDone, flush_items-Progress,
  flush_item-none, flush_item-done, flush_items-none, one_report, one_report-reported,
}

pub change-KeepsKey : (w : Bool) → KeepsKey (change w)
change-KeepsKey true r = (refl, refl)
change-KeepsKey false r = (refl, refl)

-- No item has the row's key.
abbrev Apart : Row → List Row → Type 0
Apart r items = All (λ i. has_key i.dmail_path i.target r ≡ false) items

rows_after-cons :
    (world : Row → ItemOutcome) (items : List Row) (r : Row) (rows : Table)
    → Apart r items
    → rows_after world items (r ∷ rows) ≡ r ∷ rows_after world items rows
unfolding rows_after update_rows
rows_after-cons world [] r rows h = refl
rows_after-cons world (i ∷ items) r rows h = rw (h.0) (
    rows_after-cons world items r
      (update_rows (change (written world i)) i.dmail_path i.target rows) h.1)

Fresh-Apart : (r : Row) (items : List Row) → Fresh r.dmail_path r.target items → Apart r items
Fresh-Apart r [] h = tt
Fresh-Apart r (i ∷ items) h = (has_key-sym i r ∙ h.0, Fresh-Apart r items h.1)

Apart-change : (w : Bool) (r : Row) (items : List Row) → Apart r items → Apart (change w r) items
Apart-change w r [] h = tt
Apart-change w r (i ∷ items) h = (
  has_key-change (change w) (change-KeepsKey w) i.dmail_path i.target r ∙ h.0,
  Apart-change w r items h.1,
)

-- The head's own item, then the others.
rows_after-head :
    (world : Row → ItemOutcome) (items : List Row) (r : Row) (rows : Table)
    → Fresh r.dmail_path r.target rows
    → Apart r items
    → rows_after world (r ∷ items) (r ∷ rows)
      ≡ change (written world r) r ∷ rows_after world items rows
unfolding rows_after update_rows
rows_after-head world items r rows f h =
    rw (has_key_self r, update_rows-Fresh (change (written world r)) r.dmail_path r.target rows f)
      (rows_after-cons world items (change (written world r) r) rows
        (Apart-change (written world r) r items h))

select-Fresh :
    (r : Row) (rows : Table)
    → Fresh r.dmail_path r.target rows
    → Fresh r.dmail_path r.target (select is_pending rows)
select-Fresh r rows h = All-select (λ s. has_key r.dmail_path r.target s ≡ false) is_pending rows h

-- All pending rows, one by one, are the table mapped.
rows_after-map :
    (world : Row → ItemOutcome) (rows : Table)
    → UniqueKeys rows
    → rows_after world (select is_pending rows) rows ≡ map (flush_row world) rows
unfolding select
rows_after-map world [] h = unfold rows_after in refl
rows_after-map world (r ∷ rows) h = elim (Bool-cases (is_pending r)) [
  | inl e ↦ rw e (
      rows_after-head world (select is_pending rows) r rows h.0
        (Fresh-Apart r (select is_pending rows) (select-Fresh r rows h.0))
      ∙ ap (λ l. change (written world r) r ∷ l) (rows_after-map world rows h.1))
  | inr n ↦ rw n (
      rows_after-cons world (select is_pending rows) r rows
        (Fresh-Apart r (select is_pending rows) (select-Fresh r rows h.0))
      ∙ ap (λ l. r ∷ l) (rows_after-map world rows h.1))
]

-- Every row is as before, or it was pending and is as after a flush.
abbrev pub Advanced : (Row → ItemOutcome) → Table → Table → Type 0
Advanced world [] [] = Unit
Advanced world (r ∷ rows) (r' ∷ rows') =
    ((r' ≡ r) ⊎ ((is_pending r ≡ true) × (r' ≡ flush_row world r))) × Advanced world rows rows'
Advanced world _ _ = ⊥

Advanced-refl : (world : Row → ItemOutcome) (rows : Table) → Advanced world rows rows
Advanced-refl world [] = tt
Advanced-refl world (r ∷ rows) = (inl refl, Advanced-refl world rows)

prefix-Fresh :
    (r : Row) (done rest : List Row)
    → Fresh r.dmail_path r.target (done ++ rest)
    → Fresh r.dmail_path r.target done
prefix-Fresh r [] rest h = tt
prefix-Fresh r (d ∷ done) rest h = (h.0, prefix-Fresh r done rest h.1)

-- Some of the pending rows, one by one.
rows_after-Advanced :
    (world : Row → ItemOutcome) (rows : Table) (done rest : List Row)
    → UniqueKeys rows
    → select is_pending rows ≡ done ++ rest
    → Advanced world rows (rows_after world done rows)
unfolding select
rows_after-Advanced world rows [] rest h e = unfold rows_after in Advanced-refl world rows
rows_after-Advanced world [] (d ∷ done) rest h e = absurd (cc)
rows_after-Advanced world (r ∷ rows) (d ∷ done) rest h e = elim (Bool-cases (is_pending r)) [
  | inl p ↦ head p (rw p at e) (λ tl. rows_after-Advanced world rows done rest h.1 tl)
  | inr n ↦
      rw (rows_after-cons world (d ∷ done) r rows (apart (rw n at e)))
        (inl refl, rows_after-Advanced world rows (d ∷ done) rest h.1 (rw n at e))
]
  where
    apart : select is_pending rows ≡ d ∷ (done ++ rest) → Apart r (d ∷ done)
    apart eq =
        Fresh-Apart r (d ∷ done)
          (prefix-Fresh r (d ∷ done) rest (rw eq at (select-Fresh r rows h.0)))

    head :
        is_pending r ≡ true
        → r ∷ select is_pending rows ≡ d ∷ (done ++ rest)
        → (select is_pending rows ≡ done ++ rest → Advanced world rows (rows_after world done rows))
        → Advanced world (r ∷ rows) (rows_after world (d ∷ done) (r ∷ rows))
    head p eq ih =
        let hd : r ≡ d = cc in
        let tl : select is_pending rows ≡ done ++ rest = cc in
        rw (← hd) (
          rw
            (rows_after-head world done r rows h.0
              (Fresh-Apart r done (prefix-Fresh r done rest (rw tl at (select-Fresh r rows h.0)))))
            (inr (p, rw p), ih tl))

-- Without errors of the database: the loop over the items.
flush_items-done :
    (world : Row → ItemOutcome) (items : List Row) (s : FlushState)
    → All (λ r. IsDone (world r).tx) items
    → flush_items world items s ≡ (
      record {
        rows = rows_after world items s.rows;
        files = files_after world items s.files;
        flushed = s.flushed ++ reported world items;
      },
      none,
    )
flush_items-done world [] s h =
    unfold flush_items rows_after files_after reported in rw (append-nil s.flushed)
flush_items-done world (item ∷ items) s h =
    let ok = flush_item-done world item s h.0 in
    rw (flush_items-none world item items s ok) (
      flush_items-done world items (flush_item (world item) item s).0 h.1
      ∙ (rw (flush_item-none world item s ok) (
          unfold rows_after files_after in
          rw (
            append_assoc s.flushed (one_report (written world item) item) (reported world items),
            one_report-reported world item items,
          ))))

-- Without errors of the database a flush is one pass over the table: every row that is unflushed
-- and has fewer than three retries becomes flushed if its file was written, and gets one more
-- retry if not; all other rows stay as they are. What is reported are the pending rows
-- that were written, in their order. The key of each row must be its own.
pub flush_deliveries-map :
    (world : Row → ItemOutcome) (rows : Table) (files : Dict Text)
    → UniqueKeys rows
    → All (λ r. IsDone (world r).tx) rows
    → flush_deliveries true world rows files ≡ (
      record {
        rows = map (flush_row world) rows;
        files = files_after world (collect_unflushed rows) files;
        flushed = reported world (collect_unflushed rows);
      },
      none,
    )
unfolding flush_deliveries collect_unflushed
flush_deliveries-map world rows files u d =
    flush_items-done world (select is_pending rows)
      (record { rows = rows; files = files; flushed = [] })
      (All-select (λ r. IsDone (world r).tx) is_pending rows d)
    ∙ rw (rows_after-map world rows u)

-- The report is that of a written row.
abbrev pub Reported : (Row → ItemOutcome) → List Row → DeliveryFlushed → Type 0
Reported world items d =
    (r : Row) × In r items
    × (written world r ≡ true)
    × (d.dmail_path ≡ r.dmail_path)
    × (d.target ≡ r.target)

reported-In :
    (world : Row → ItemOutcome) (items : List Row) (d : DeliveryFlushed)
    → In d (reported world items)
    → Reported world items d
unfolding reported
reported-In world [] d h = absurd h
reported-In world (r ∷ items) d h = elim (Bool-cases (written world r)) [
  | inl e ↦ head e (rw e at h) (reported-In world items d)
  | inr n ↦ let (s, at, w, p, t) = reported-In world items d (rw n at h) in (s, inr at, w, p, t)
]
  where
    head :
        written world r ≡ true
        → (d ≡ record { dmail_path = r.dmail_path; target = r.target })
          ⊎ In d (reported world items)
        → (In d (reported world items) → Reported world items d)
        → Reported world (r ∷ items) d
    head e (inl same) ih = (r, inl refl, e, ap (λ x. x.dmail_path) same, ap (λ x. x.target) same)
    head e (inr m) ih = let (s, at, w, p, t) = ih m in (s, inr at, w, p, t)

-- Whatever fails in a flush, each row is as before, or it was pending and is as after a flush
-- without errors; and whatever is reported stands for a pending row whose file was written. The
-- key of each row must be its own.
pub flush_deliveries-Advanced :
    (selected : Bool) (world : Row → ItemOutcome) (rows : Table) (files : Dict Text)
    → UniqueKeys rows
    → Advanced world rows (flush_deliveries selected world rows files).0.rows
      × ((d : DeliveryFlushed)
          → In d (flush_deliveries selected world rows files).0.flushed
          → Reported world (collect_unflushed rows) d)
unfolding flush_deliveries collect_unflushed
flush_deliveries-Advanced false world rows files u = (Advanced-refl world rows, λ d h. absurd h)
flush_deliveries-Advanced true world rows files u =
    let start : FlushState = record { rows = rows; files = files; flushed = [] } in
    let p = flush_items-Progress world (select is_pending rows) start in
    (
      rw p.rows (rows_after-Advanced world rows p.done p.rest u p.items_split),
      λ d h.
          let (r, at, w, e, t) = reported-In world p.done d (rw p.flushed at h) in
          (r, rw p.items_split (In-append_left r p.done p.rest at), w, e, t),
    )
