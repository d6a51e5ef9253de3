-- ===== src/ErrorQueue/Adding.antt =====
-- What Enqueue adds.
use phonewave.Prelude.{
  ◌≡◌, ap, ◌∙◌, inl, inr, true, none, some, [], ◌∷◌, arith, Text, eq_refl, Bool-cases, In,
  In-append_left,
}
use phonewave.Store.{Tx, StoreError, transact}
use phonewave.ErrorQueue.Defs.{
  Entry, Queue, ErrorMetadata, new_entry, insert_or_ignore, enqueue, has_name,
}
use phonewave.ErrorQueue.Names.{has_name-append}

pub transact-ok :
    (tx : Tx) (old new : Queue) → (transact tx old new).1 ≡ none → (transact tx old new).0 ≡ new
unfolding transact
transact-ok tx old new h = ground arith

transact-same : (tx : Tx) (old : Queue) → (transact tx old old).0 ≡ old
unfolding transact
transact-same tx old = ground arith

transact-failed :
    (tx : Tx) (old new : Queue) (e : StoreError)
    → (transact tx old new).1 ≡ some e
    → (transact tx old new).0 ≡ old
unfolding transact
transact-failed tx old new e h = ground arith

insert-has_name : (e : Entry) (rows : Queue) → has_name e.name (insert_or_ignore e rows) ≡ true
unfolding insert_or_ignore
insert-has_name e rows = ground (arith, has_name-append e.name rows e, eq_refl e.name)

insert-In : (e r : Entry) (rows : Queue) → In r rows → In r (insert_or_ignore e rows)
unfolding insert_or_ignore
insert-In e r rows h = elim (Bool-cases (has_name e.name rows)) [
  | inl t ↦ rw t h
  | inr f ↦ rw f (In-append_left r rows (e ∷ []) h)
]

insert-known :
    (e : Entry) (rows : Queue) → has_name e.name rows ≡ true → insert_or_ignore e rows ≡ rows
unfolding insert_or_ignore
insert-known e rows h = rw h

-- Enqueue with no error leaves an entry of the name and keeps all entries that were there; once it
-- is there, no further Enqueue of the name changes the queue. With an error nothing changes.
pub enqueue_cases :
    (tx : Tx) (name content : Text) (meta : ErrorMetadata) (rows : Queue)
    → ((enqueue tx name content meta rows).1 ≡ none
        → ((has_name name (enqueue tx name content meta rows).0 ≡ true)
            × ((r : Entry) → In r rows → In r (enqueue tx name content meta rows).0))
          × ((tx' : Tx) (content' : Text) (meta' : ErrorMetadata)
              → (enqueue tx' name content' meta' (enqueue tx name content meta rows).0).0
                ≡ (enqueue tx name content meta rows).0))
      × ((e : StoreError)
          → (enqueue tx name content meta rows).1 ≡ some e
          → (enqueue tx name content meta rows).0 ≡ rows)
unfolding enqueue
enqueue_cases tx name content meta rows = (
  λ ok. rw (transact-ok tx rows new ok) (
    (insert-has_name added rows, λ r at. insert-In added r rows at),
    λ tx' content' meta'.
        ap (λ x. (transact tx' new x).0)
          (insert-known (new_entry name content' meta') new (insert-has_name added rows))
        ∙ transact-same tx' new,
  ),
  transact-failed tx rows new,
)
  where
    added : Entry
    added = new_entry name content meta

    new : Queue
    new = insert_or_ignore added rows
