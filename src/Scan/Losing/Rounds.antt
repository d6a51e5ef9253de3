-- ===== src/Scan/Losing/Rounds.antt =====
-- One round of a scan: what it keeps, and what becomes of its file.
use phonewave.Prelude.{
  ◌≡◌, refl, ◌⊎◌, inl, inr, false, Option, none, some, arith, Text, ◌==◌, Bool-cases, Option-cases,
  In,
}
use phonewave.FilePath.{join}
use phonewave.ErrorQueue.{Entry, Queue, new_entry, enqueue}
use phonewave.ErrorQueue.Adding.{enqueue_cases}
use phonewave.Delivery.{
  Result, ok, failed, State, DeliveryResult, extract_dmail_kind, kind_or_unknown, deliver_data,
}
use phonewave.Delivery.Keeping.{Present, deliver_data-failed}
use phonewave.Delivery.Removal.{Gone}
use phonewave.Delivery.Others.{Present-deliver_data, Present-os_remove}
use phonewave.Daemon.{Options, Happening, entry_name, is_nil}
use phonewave.Daemon.Handling.{
  FreshName, Delivered, Delivered-Gone, enqueue-In, is_nil-none, Present-not-Gone,
}
use phonewave.Scan.Defs.{ScanState, scan_metadata, record_undelivered, scan_content}

-- The queue holds the content, with the outbox and the name that it came from.
abbrev pub QueuedFrom : Text → Text → Text → Option Queue → Type 0
QueuedFrom outbox name content none = ⊥
QueuedFrom outbox name content (some queue) =
    (e : Entry) × In e queue
    × (e.content ≡ content)
    × (e.source_outbox ≡ outbox)
    × (e.original_name ≡ name)
    × (e.resolved ≡ false)

-- Every entry stays.
abbrev pub Kept : Option Queue → Option Queue → Type 0
Kept none after = Unit
Kept (some before) none = ⊥
Kept (some before) (some after) = (e : Entry) → In e before → In e after

pub Kept-refl : (q : Option Queue) → Kept q q
Kept-refl none = tt
Kept-refl (some queue) = λ e i. i

pub Kept-trans : (p q r : Option Queue) → Kept p q → Kept q r → Kept p r
Kept-trans none q r h k = tt
Kept-trans (some a) none r h k = absurd h
Kept-trans (some a) (some b) none h k = absurd k
Kept-trans (some a) (some b) (some c) h k = λ e i. k e (h e i)

pub QueuedFrom-Kept :
    (outbox name content : Text) (p q : Option Queue)
    → Kept p q
    → QueuedFrom outbox name content p
    → QueuedFrom outbox name content q
QueuedFrom-Kept outbox name content none q k h = absurd h
QueuedFrom-Kept outbox name content (some a) none k h = absurd k
QueuedFrom-Kept outbox name content (some a) (some b) k h = (h.0, k h.0 h.1, h.2, h.3, h.4, h.5)

Kept-undelivered :
    (h : Happening) (outbox name content kind message : Text) (d : State) (q : Option Queue)
    → Kept q (record_undelivered h outbox name content kind message d q).1
unfolding record_undelivered
Kept-undelivered h outbox name content kind message d none = tt
Kept-undelivered h outbox name content kind message d (some queue) =
    let (good, bad) =
      enqueue_cases h.enqueue_tx (entry_name h.stamp kind name) content
        (scan_metadata outbox name kind message) queue in
    elim (Option-cases
      (enqueue h.enqueue_tx (entry_name h.stamp kind name) content
        (scan_metadata outbox name kind message) queue).1) [
          | inl okay ↦ (good okay).0.1
          | inr (x, e) ↦ λ r i. rw (bad x e) i
        ]

-- What becomes of the D-Mail in a round.
pub record Round (o : Options) (outbox name path content : Text) (before after : ScanState)
    : Type 0 where
  pub keeps : Kept before.queue after.queue
  pub others :
      (other : Text)
      → (other == path) ≡ false
      → Present other before.delivery.files
      → Present other after.delivery.files
  pub fate :
      Present path before.delivery.files
      → Gone path after.delivery.files
      → Delivered o path content before.delivery after.delivery
        ⊎ QueuedFrom outbox name content after.queue

undelivered-others :
    (h : Happening) (outbox name content kind message other : Text) (d : State) (q : Option Queue)
    → (other == join outbox name) ≡ false
    → Present other d.files
    → Present other (record_undelivered h outbox name content kind message d q).0.files
unfolding record_undelivered
undelivered-others h outbox name content kind message other d none n p = p
undelivered-others h outbox name content kind message other d (some queue) n p =
    ground (arith, Present-os_remove h.removable (join outbox name) other d.files n p)

undelivered-Gone :
    (h : Happening) (outbox name content kind message : Text) (d : State) (q : Option Queue)
    → FreshName (entry_name h.stamp kind name) q
    → Present (join outbox name) d.files
    → Gone (join outbox name) (record_undelivered h outbox name content kind message d q).0.files
    → QueuedFrom outbox name content (record_undelivered h outbox name content kind message d q).1
unfolding record_undelivered
undelivered-Gone h outbox name content kind message d none fresh p g =
    absurd (Present-not-Gone (join outbox name) d.files p g)
undelivered-Gone h outbox name content kind message d (some queue) fresh p g =
    elim (Bool-cases (is_nil (enqueue h.enqueue_tx entry content meta queue).1)) [
      | inr bad ↦
          absurd (Present-not-Gone (join outbox name) d.files p (rw (bad, record_undelivered) at g))
      | inl okay ↦ (
        new_entry entry content meta,
        enqueue-In h.enqueue_tx entry content meta queue fresh
            (is_nil-none (enqueue h.enqueue_tx entry content meta queue).1 okay),
        refl,
        refl,
        refl,
        refl,
      )
    ]
  where
    entry : Text
    entry = entry_name h.stamp kind name

    meta : phonewave.ErrorQueue.ErrorMetadata
    meta = scan_metadata outbox name kind message

pub scan_content-Round :
    (o : Options) (h : Happening) (outbox name content : Text) (s : ScanState)
    → ((kind : Text) → FreshName (entry_name h.stamp kind name) s.queue)
    → Round o outbox name (join outbox name) content s (scan_content o h outbox name content s)
unfolding scan_content
scan_content-Round o h outbox name content s fresh =
    by_result (deliver_data o.env o.dedup h.world path content s.delivery).1 refl
  where
    path : Text
    path = join outbox name

    kind : Text
    kind = kind_or_unknown (extract_dmail_kind o.env.unmarshal content)

    after : State
    after = (deliver_data o.env o.dedup h.world path content s.delivery).0

    by_result :
        (result : Result DeliveryResult)
        → (deliver_data o.env o.dedup h.world path content s.delivery).1 ≡ result
        → Round o outbox name path content s (scan_content o h outbox name content s)
    by_result (ok r) eq =
        rw (eq, scan_content)
          (record {
            keeps = Kept-refl s.queue;
            others = λ other n p.
                Present-deliver_data o.env o.dedup h.world path other content s.delivery n p;
            fate = λ p g. inl (Delivered-Gone o h.world path content s.delivery r p eq g);
          })
    by_result (failed e) eq =
        rw (eq, scan_content)
          (record {
            keeps = Kept-undelivered h outbox name content kind (h.message e) after s.queue;
            others = λ other n p.
                undelivered-others h outbox name content kind (h.message e) other after s.queue n
                  (Present-deliver_data o.env o.dedup h.world path other content s.delivery n p);
            fate = λ p g. inr (
                undelivered-Gone h outbox name content kind (h.message e) after s.queue (fresh kind)
                  (deliver_data-failed o.env o.dedup h.world path content s.delivery e p eq) g);
          })
