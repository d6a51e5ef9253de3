-- ===== src/Delivery/Again.antt =====
-- A content is delivered once.
use phonewave.Prelude.{◌≡◌, refl, inl, inr, Bool, true, some, List, [], ◌∷◌, Text, In}
use phonewave.Delivery.Dmail.{ok}
use phonewave.Delivery.Defs.{
  Env, World, State, DedupLog, has_delivered, os_remove, skip, deliver_planned, deliver_data,
  remaining_inboxes, delivery_plan,
}
use phonewave.Delivery.Keeping.{Present}
use phonewave.Delivery.Removal.{Gone, deliver_data-Gone}

none_remain :
    (read : Text → Bool) (key : Text) (log : DedupLog) (inboxes : List Text)
    → ((x : Text) → In x inboxes → read x ≡ true)
    → ((x : Text) → In x inboxes → has_delivered key x log ≡ true)
    → remaining_inboxes read key log inboxes ≡ some []
unfolding remaining_inboxes
none_remain read key log [] r h = refl
none_remain read key log (x ∷ xs) r h =
    rw (r x (inl refl), h x (inl refl))
      (none_remain read key log xs (λ y m. r y (inr m)) (λ y m. h y (inr m)))

-- Nothing is done to a D-Mail that all its inboxes have, but for the removal of its file.
recorded-skip :
    (env : Env) (w : World) (path content kind : Text) (inboxes : List Text) (s : State)
    → delivery_plan env path content ≡ ok (kind, inboxes)
    → ((x : Text) → In x inboxes → w.read x ≡ true)
    → ((x : Text) → In x inboxes → has_delivered (env.idempotency_key content) x s.log ≡ true)
    → deliver_data env true w path content s ≡ skip w path kind s
unfolding deliver_data deliver_planned
recorded-skip env w path content kind inboxes s plan r h =
    rw (plan, deliver_data)
      (rw (none_remain w.read (env.idempotency_key content) s.log inboxes r h, deliver_planned)
        refl)

-- Once a delivery with a dedup store has removed its D-Mail, a D-Mail of the same content that is
-- planned for no other inboxes is not delivered again, under whatever path it comes: whatever
-- else changed but the log, DeliverData leaves the table and the log as they are, and at most
-- removes the file. The dedup store must be readable.
pub deliver_data-once :
    (env : Env) (w : World) (path content kind : Text) (inboxes : List Text) (s : State)
    → delivery_plan env path content ≡ ok (kind, inboxes)
    → Present path s.files
    → Gone path (deliver_data env true w path content s).0.files
    → (again : World) (path' kind' : Text) (inboxes' : List Text) (later : State)
    → delivery_plan env path' content ≡ ok (kind', inboxes')
    → ((x : Text) → In x inboxes' → In x inboxes)
    → ((x : Text) → In x inboxes' → again.read x ≡ true)
    → later.log ≡ (deliver_data env true w path content s).0.log
    → deliver_data env true again path' content later ≡ (
      record later { files = (os_remove again.removable path' later.files).0 },
      ok (record { source_path = path'; kind = kind'; delivered_to = [] }),
    )
deliver_data-once env w path content kind inboxes s plan h g again path' kind' inboxes' later plan'
      sub r same =
    recorded-skip env again path' content kind' inboxes' later plan' r λ x m.
      rw same
        ((deliver_data-Gone env true w path content kind inboxes s plan h g).1 refl x (sub x m))
