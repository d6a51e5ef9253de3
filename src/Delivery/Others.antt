-- ===== src/Delivery/Others.antt =====
-- A delivery removes no file but its own D-Mail's, and its result names that file.
use phonewave.Prelude.{
  ◌≡◌, refl, inl, inr, Bool, true, false, Option, none, some, List, [], ◌∷◌, arith, Text, ◌==◌,
  eq_iff, Option-cases, Dict, lookup,
}
use phonewave.Delivery.Dmail.{Result, ok, failed}
use phonewave.Delivery.Defs.{
  Env, World, State, DeliveryResult, without, os_remove, conclude, deliver_remaining,
  deliver_planned, deliver_data, remaining_inboxes, delivery_plan,
}
use phonewave.Delivery.Keeping.{
  Present, Present-flush, remaining-cases, staging, flushed_state, flushed_result,
}

lookup-without :
    (path other : Text) (files : Dict Text)
    → (other == path) ≡ false
    → lookup other (without path files) ≡ lookup other files
unfolding without lookup
lookup-without path other [] n = refl
lookup-without path other ((p, c) ∷ files) n =
    ground
      (arith, lookup-without path other files n, eq_iff p path, eq_iff p other, eq_iff other path)

pub Present-os_remove :
    (removable : Bool) (path other : Text) (files : Dict Text)
    → (other == path) ≡ false
    → Present other files
    → Present other (os_remove removable path files).0
unfolding os_remove
Present-os_remove removable path other files n h = ground (arith, lookup-without path other files n)

Present-conclude :
    (dedup : Bool) (w : World) (key path other : Text) (result : DeliveryResult)
    (inboxes : List Text) (s : State)
    → (other == path) ≡ false
    → Present other s.files
    → Present other (conclude dedup w key path result inboxes s).0.files
unfolding conclude
Present-conclude dedup w key path other result inboxes s n h =
    ground (arith, Present-os_remove w.removable path other s.files n h)

Present-remaining :
    (dedup : Bool) (w : World) (key path other content kind : Text) (inboxes : List Text)
    (s : State)
    → (other == path) ≡ false
    → Present other s.files
    → Present other (deliver_remaining dedup w key path content kind inboxes s).0.files
Present-remaining dedup w key path other content kind inboxes s n h =
    elim (remaining-cases dedup w key path content kind inboxes s) [
      | inl same ↦ rw same h
      | inr eq ↦ rw eq (
          Present-conclude dedup w key path other (flushed_result w path content kind inboxes s)
            inboxes (flushed_state w path content inboxes s) n
            (Present-flush w.selected w.item other (staging w path content inboxes s).0 s.files h))
    ]

Present-planned :
    (dedup : Bool) (w : World) (key path other content kind : Text) (inboxes : List Text)
    (s : State)
    → (other == path) ≡ false
    → Present other s.files
    → Present other (deliver_planned dedup w key path content kind inboxes s).0.files
unfolding deliver_planned
Present-planned false w key path other content kind inboxes s n h =
    Present-remaining false w key path other content kind inboxes s n h
Present-planned true w key path other content kind inboxes s n h =
    go (remaining_inboxes w.read key s.log inboxes) refl
  where
    go :
        (rest : Option (List Text))
        → remaining_inboxes w.read key s.log inboxes ≡ rest
        → Present other (deliver_planned true w key path content kind inboxes s).0.files
    go none eq = rw (eq, deliver_planned) h
    go (some []) eq =
        rw (eq, deliver_planned) (Present-os_remove w.removable path other s.files n h)
    go (some (inbox ∷ rest)) eq =
        rw (eq, deliver_planned)
          (Present-remaining true w key path other content kind (inbox ∷ rest) s n h)

-- A file other than the D-Mail's stays where DeliverData is called.
pub Present-deliver_data :
    (env : Env) (dedup : Bool) (w : World) (path other content : Text) (s : State)
    → (other == path) ≡ false
    → Present other s.files
    → Present other (deliver_data env dedup w path content s).0.files
unfolding deliver_data
Present-deliver_data env dedup w path other content s n h = go (delivery_plan env path content) refl
  where
    go :
        (plan : Result (Text × List Text))
        → delivery_plan env path content ≡ plan
        → Present other (deliver_data env dedup w path content s).0.files
    go (failed e) eq = rw (eq, deliver_data) h
    go (ok (kind, inboxes)) eq =
        rw (eq, deliver_data)
          (Present-planned dedup w (env.idempotency_key content) path other content kind inboxes s n
            h)

-- A result names the path.
abbrev Names : Text → Result DeliveryResult → Type 0
Names path (failed e) = Unit
Names path (ok r) = r.source_path ≡ path

Names-conclude :
    (dedup : Bool) (w : World) (key path : Text) (result : DeliveryResult) (inboxes : List Text)
    (s : State)
    → result.source_path ≡ path
    → Names path (conclude dedup w key path result inboxes s).1
unfolding conclude
Names-conclude dedup w key path result inboxes s h = ground arith

Names-remaining :
    (dedup : Bool) (w : World) (key path content kind : Text) (inboxes : List Text) (s : State)
    → Names path (deliver_remaining dedup w key path content kind inboxes s).1
unfolding deliver_remaining
Names-remaining dedup w key path content kind inboxes s =
    elim (Option-cases (staging w path content inboxes s).1) [
      | inr (x, e) ↦ rw (e, deliver_remaining) tt
      | inl none_ ↦
          rw (none_, deliver_remaining)
            (Names-conclude dedup w key path (flushed_result w path content kind inboxes s) inboxes
              (flushed_state w path content inboxes s) refl)
    ]

Names-planned :
    (dedup : Bool) (w : World) (key path content kind : Text) (inboxes : List Text) (s : State)
    → Names path (deliver_planned dedup w key path content kind inboxes s).1
unfolding deliver_planned
Names-planned false w key path content kind inboxes s =
    Names-remaining false w key path content kind inboxes s
Names-planned true w key path content kind inboxes s =
    go (remaining_inboxes w.read key s.log inboxes) refl
  where
    go :
        (rest : Option (List Text))
        → remaining_inboxes w.read key s.log inboxes ≡ rest
        → Names path (deliver_planned true w key path content kind inboxes s).1
    go none eq = rw (eq, deliver_planned) tt
    go (some []) eq = rw (eq, deliver_planned) refl
    go (some (inbox ∷ rest)) eq =
        rw (eq, deliver_planned) (Names-remaining true w key path content kind (inbox ∷ rest) s)

-- Where DeliverData returns a result, it names the D-Mail's file.
pub deliver_data-source :
    (env : Env) (dedup : Bool) (w : World) (path content : Text) (s : State) (r : DeliveryResult)
    → (deliver_data env dedup w path content s).1 ≡ ok r
    → r.source_path ≡ path
unfolding deliver_data
deliver_data-source env dedup w path content s r okay =
    rw okay at go (delivery_plan env path content) refl
  where
    go :
        (plan : Result (Text × List Text))
        → delivery_plan env path content ≡ plan
        → Names path (deliver_data env dedup w path content s).1
    go (failed e) eq = rw (eq, deliver_data) tt
    go (ok (kind, inboxes)) eq =
        rw (eq, deliver_data)
          (Names-planned dedup w (env.idempotency_key content) path content kind inboxes s)
