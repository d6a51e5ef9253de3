-- ===== src/Daemon/Handling.antt =====
-- A D-Mail that leaves its outbox is delivered, or it stands in the queue.
use phonewave.Prelude.{
  ◌≡◌, refl, ◌⊎◌, inl, true, false, Option, none, some, List, [], ◌∷◌, arith, Text, Dict, In,
  In-append_right,
}
use phonewave.FilePath.{dir, base}
use phonewave.Store.{Tx, StoreError, all_flushed_for}
use phonewave.ErrorQueue.{
  Entry, Queue, ErrorMetadata, new_entry, has_name, insert_or_ignore, enqueue,
}
use phonewave.ErrorQueue.Adding.{transact-ok}
use phonewave.Delivery.{
  Failure, Result, ok, failed, World, State, DeliveryResult, has_delivered, delivery_plan,
  deliver_data,
}
use phonewave.Delivery.Keeping.{Present}
use phonewave.Delivery.Removal.{Gone, deliver_data-Gone}
use phonewave.Daemon.Defs.{Daemon, Options, is_nil}

-- The queue holds the content, with where it came from.
abbrev pub Queued : Text → Text → Option Queue → Type 0
Queued path content none = ⊥
Queued path content (some queue) =
    (e : Entry) × In e queue
    × (e.content ≡ content)
    × (e.source_outbox ≡ dir path)
    × (e.original_name ≡ base path)
    × (e.resolved ≡ false)

abbrev pub HasName : Text → Option Queue → Type 0
HasName name none = ⊥
HasName name (some queue) = has_name name queue ≡ true

pub enqueue-In :
    (tx : Tx) (name content : Text) (meta : ErrorMetadata) (queue : Queue)
    → has_name name queue ≡ false
    → (enqueue tx name content meta queue).1 ≡ none
    → In (new_entry name content meta) (enqueue tx name content meta queue).0
unfolding enqueue insert_or_ignore
enqueue-In tx name content meta queue fresh okay =
    let added = new_entry name content meta in
    rw (transact-ok tx queue (insert_or_ignore added queue) okay)
      (rw fresh (In-append_right added queue (added ∷ []) (inl refl)))

-- No entry has the name that the failure would get.
abbrev pub FreshName : Text → Option Queue → Type 0
FreshName name none = Unit
FreshName name (some queue) = has_name name queue ≡ false

pub is_nil-none : (e : Option StoreError) → is_nil e ≡ true → e ≡ none
is_nil-none none h = refl
is_nil-none (some e) h = cc

pub Present-not-Gone : (path : Text) (files : Dict Text) → Present path files → Gone path files → ⊥
Present-not-Gone path files h g = ground arith

-- DeliverData delivered the content: its rows are flushed, unless all its inboxes had it before; and
-- each inbox of its plan is recorded, if there is a dedup store.
abbrev pub Delivered : Options → Text → Text → State → State → Type 0
Delivered o path content before after =
    (kind : Text) × (inboxes : List Text) × (delivery_plan o.env path content ≡ ok (kind, inboxes))
    × ((all_flushed_for path after.rows ≡ true) ⊎ ((o.dedup ≡ true) × (after.rows ≡ before.rows)))
    × (o.dedup ≡ true
        → (x : Text) → In x inboxes
        → has_delivered (o.env.idempotency_key content) x after.log ≡ true)

failed-ok : {r : DeliveryResult} (e : Failure) → failed e ≡ ok r → ⊥
failed-ok e h = cc

pub Delivered-Gone :
    (o : Options) (w : World) (path content : Text) (s : State) (r : DeliveryResult)
    → Present path s.files
    → (deliver_data o.env o.dedup w path content s).1 ≡ ok r
    → Gone path (deliver_data o.env o.dedup w path content s).0.files
    → Delivered o path content s (deliver_data o.env o.dedup w path content s).0
unfolding deliver_data
Delivered-Gone o w path content s r p okay g = by_plan (delivery_plan o.env path content) refl
  where
    by_plan :
        (plan : Result (Text × List Text))
        → delivery_plan o.env path content ≡ plan
        → Delivered o path content s (deliver_data o.env o.dedup w path content s).0
    by_plan (failed e) eq = absurd (failed-ok e (rw (eq, deliver_data) at okay))
    by_plan (ok (kind, inboxes)) eq =
        let (rows, log) = deliver_data-Gone o.env o.dedup w path content kind inboxes s eq p g in
        (kind, inboxes, eq, rows, log)
