-- ===== src/Delivery/Removal.antt =====
-- When the D-Mail's file is gone, it was delivered and recorded.
use phonewave.Prelude.{
  ◌≡◌, refl, ◌⊎◌, inl, inr, Bool, true, false, Option, none, some, List, [], ◌∷◌, arith, Text, Dict,
  lookup, In,
}
use phonewave.Store.{all_flushed_for}
use phonewave.Delivery.Dmail.{ok}
use phonewave.Delivery.Defs.{
  Env, World, State, DedupLog, DeliveryResult, has_delivered, recording, is_all_done,
  is_missing_file, conclude, deliver_remaining, deliver_planned, deliver_data, remaining_inboxes,
  delivery_plan,
}
use phonewave.Delivery.Keeping.{
  Present, Present-flush, conclude-cases, remaining-cases, staging, flushed_state, flushed_result,
}
use phonewave.Delivery.Recording.{remaining-known, recording-known, recording-keeps}

-- The D-Mail's file is gone.
abbrev pub Gone : Text → Dict Text → Type 0
Gone path files = is_missing_file (lookup path files) ≡ true

Present-Gone : (path : Text) (files : Dict Text) → Present path files → Gone path files → ⊥
Present-Gone path files h g = ground arith

-- What a delivery leaves when the file is gone: each inbox is recorded, if there is a dedup store.
abbrev Recorded : Bool → Text → List Text → State → Type 0
Recorded dedup key inboxes s =
    dedup ≡ true → (x : Text) → In x inboxes → has_delivered key x s.log ≡ true

pub conclude-rows :
    (dedup : Bool) (w : World) (key path : Text) (result : DeliveryResult) (inboxes : List Text)
    (s : State)
    → (conclude dedup w key path result inboxes s).0.rows ≡ s.rows
unfolding conclude
conclude-rows dedup w key path result inboxes s = ground arith

all_done-flushed :
    (w : World) (path : Text) (s : State)
    → is_all_done w path s.rows ≡ true
    → all_flushed_for path s.rows ≡ true
unfolding is_all_done
all_done-flushed w path s h = ground arith

-- What a delivery from the staging on leaves when the file is gone.
record Completed (dedup : Bool) (key path : Text) (inboxes : List Text) (before : DedupLog)
    (after : State) : Type 0 where
  flushed : all_flushed_for path after.rows ≡ true
  known : Recorded dedup key inboxes after
  kept : (k t : Text) → has_delivered k t before ≡ true → has_delivered k t after.log ≡ true

conclude-Gone :
    (dedup : Bool) (w : World) (key path : Text) (result : DeliveryResult) (inboxes : List Text)
    (s : State)
    → Present path s.files
    → Gone path (conclude dedup w key path result inboxes s).0.files
    → Completed dedup key path inboxes s.log (conclude dedup w key path result inboxes s).0
conclude-Gone dedup w key path result inboxes s h g =
    elim (conclude-cases dedup w key path result inboxes s) [
      | inl same ↦ absurd (Present-Gone path s.files h (rw same at g))
      | inr ((done, recorded), log) ↦ record {
        flushed =
            rw (conclude-rows dedup w key path result inboxes s) (all_done-flushed w path s done);
        known = rw log (known dedup recorded);
        kept =
            rw log (λ k t. recording-keeps dedup w key k t true result.delivered_to inboxes s.log);
      }
    ]
  where
    known :
        (d : Bool)
        → (recording d w key true result.delivered_to inboxes s.log).1 ≡ true
        → d ≡ true
        → (x : Text) → In x inboxes
        → has_delivered key x (recording d w key true result.delivered_to inboxes s.log).0 ≡ true
    known false r e = cc
    known true r e = recording-known w key result.delivered_to inboxes s.log r

remaining-Gone :
    (dedup : Bool) (w : World) (key path content kind : Text) (inboxes : List Text) (s : State)
    → Present path s.files
    → Gone path (deliver_remaining dedup w key path content kind inboxes s).0.files
    → Completed dedup key path inboxes s.log
        (deliver_remaining dedup w key path content kind inboxes s).0
remaining-Gone dedup w key path content kind inboxes s h g =
    elim (remaining-cases dedup w key path content kind inboxes s) [
      | inl same ↦ absurd (Present-Gone path s.files h (rw same at g))
      | inr eq ↦ rw eq (
          conclude-Gone dedup w key path (flushed_result w path content kind inboxes s) inboxes
            (flushed_state w path content inboxes s)
            (Present-flush w.selected w.item path (staging w path content inboxes s).0 s.files h)
            (rw eq at g))
    ]

-- How a delivery ends when the file is gone.
abbrev Ends : Bool → Text → Text → List Text → State → State → Type 0
Ends dedup key path inboxes s after =
    ((all_flushed_for path after.rows ≡ true) ⊎ ((dedup ≡ true) × (after.rows ≡ s.rows)))
    × Recorded dedup key inboxes after

Completed-Ends :
    (dedup : Bool) (key path : Text) (inboxes rest : List Text) (s after : State)
    → ((x : Text) → In x inboxes → (has_delivered key x s.log ≡ true) ⊎ In x rest)
    → Completed dedup key path rest s.log after
    → Ends dedup key path inboxes s after
Completed-Ends dedup key path inboxes rest s after cover c =
    (inl c.flushed, λ e x at. elim (cover x at) [ inl k ↦ c.kept key x k | inr m ↦ c.known e x m ])

planned-Gone :
    (w : World) (key path content kind : Text) (inboxes : List Text) (s : State)
    → Present path s.files
    → (rest : Option (List Text)) → remaining_inboxes w.read key s.log inboxes ≡ rest
    → Gone path (deliver_planned true w key path content kind inboxes s).0.files
    → Ends true key path inboxes s (deliver_planned true w key path content kind inboxes s).0
unfolding deliver_planned
planned-Gone w key path content kind inboxes s h none eq g =
    absurd (Present-Gone path s.files h (rw (eq, deliver_planned) at g))
planned-Gone w key path content kind inboxes s h (some []) eq g =
    rw (eq, deliver_planned)
      (
        inr (refl, refl),
        λ e x at. elim (remaining-known w.read key s.log inboxes [] eq x at) [
          | inl k ↦ k
          | inr f ↦ absurd f
        ],
      )
planned-Gone w key path content kind inboxes s h (some (inbox ∷ rest)) eq g =
    rw (eq, deliver_planned)
      (Completed-Ends true key path inboxes (inbox ∷ rest) s
        (deliver_remaining true w key path content kind (inbox ∷ rest) s).0
        (remaining-known w.read key s.log inboxes (inbox ∷ rest) eq)
        (remaining-Gone true w key path content kind (inbox ∷ rest) s h
          (rw (eq, deliver_planned) at g)))

any-Gone :
    (dedup : Bool) (w : World) (key path content kind : Text) (inboxes : List Text) (s : State)
    → Present path s.files
    → Gone path (deliver_planned dedup w key path content kind inboxes s).0.files
    → Ends dedup key path inboxes s (deliver_planned dedup w key path content kind inboxes s).0
any-Gone true w key path content kind inboxes s h g =
    planned-Gone w key path content kind inboxes s h (remaining_inboxes w.read key s.log inboxes)
      refl g
any-Gone false w key path content kind inboxes s h g =
    unfold deliver_planned in
    Completed-Ends false key path inboxes inboxes s
      (deliver_remaining false w key path content kind inboxes s).0 (λ x at. inr at)
      (remaining-Gone false w key path content kind inboxes s h (unfold deliver_planned in g))

-- If DeliverData removes the D-Mail's file, then all rows of the file are flushed, unless all
-- inboxes had been delivered to and nothing was staged; and if there is a dedup store, each inbox
-- that the delivery was planned for is recorded in it.
pub deliver_data-Gone :
    (env : Env) (dedup : Bool) (w : World) (path content kind : Text) (inboxes : List Text)
    (s : State)
    → delivery_plan env path content ≡ ok (kind, inboxes)
    → Present path s.files
    → Gone path (deliver_data env dedup w path content s).0.files
    → ((all_flushed_for path (deliver_data env dedup w path content s).0.rows ≡ true)
        ⊎ ((dedup ≡ true) × ((deliver_data env dedup w path content s).0.rows ≡ s.rows)))
      × (dedup ≡ true
          → (x : Text) → In x inboxes
          → has_delivered
              (env.idempotency_key content)
              x
              (deliver_data env dedup w path content s).0.log
            ≡ true)
unfolding deliver_data
deliver_data-Gone env dedup w path content kind inboxes s plan h g =
    rw (plan, deliver_data)
      (any-Gone dedup w (env.idempotency_key content) path content kind inboxes s h
        (rw (plan, deliver_data) at g))
