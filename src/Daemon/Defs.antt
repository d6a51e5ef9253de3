-- ===== src/Daemon/Defs.antt =====
-- The handlers of the daemon. Logs, spans and the event store are left out.
use phonewave.Prelude.{
  ℕ, zero, suc, ◌+◌, Bool, true, false, not, ◌&&◌, ◌||◌, Option, none, some, List, [], ◌∷◌, ◌++◌,
  Text, codes, has_prefix, if◌then◌else◌, lookup, ℤ, pos, negsuc,
}
use phonewave.FilePath.{dir, base, join}
use phonewave.Breaker.{
  CircuitBreaker, DeliveryErrorKind, transient, persistent, DeliveryErrorInfo,
  record_delivery_error,
}
use phonewave.Store.{StoreError, Tx}
use phonewave.ErrorQueue.{
  Entry, Queue, ErrorMetadata, enqueue, claim_pending_retries, increment_retry, mark_resolved,
}
use phonewave.Delivery.{
  Failure, ok, failed, Env, World, State, is_dmail_file, extract_dmail_kind, kind_or_unknown,
  os_remove, deliver_data,
}

-- strings.Contains
unfoldable pub has_substring : Text → Text → Bool
has_substring [] sub = has_prefix [] sub
has_substring (c ∷ cs) sub = has_prefix (c ∷ cs) sub || has_substring cs sub

-- ClassifyDeliveryError of an error that is not nil, by its message: the two last branches of the code
-- give the same class.
unfoldable pub classify_delivery_error : Text → DeliveryErrorInfo
unfolding has_substring
classify_delivery_error message =
    if has_substring message (codes "parse D-Mail")
      || (has_substring message (codes "unsupported dmail-schema-version")
          || has_substring message (codes "missing required"))
    then record { kind = persistent; reset_at = none }
    else record { kind = transient; reset_at = none }

pub record FileEvent : Type 0 where
  pub name : Text
  pub create : Bool
  pub rename : Bool

unfoldable pub should_process_event : FileEvent → Bool
should_process_event event = (event.create || event.rename) && is_dmail_file event.name

-- What the daemon keeps. `added` holds the paths in the Bloom filter; there may be no breaker and
-- no error queue.
pub record Daemon : Type 0 where
  pub delivery : State
  pub queue : Option Queue
  pub breaker : Option CircuitBreaker
  pub added : List Text

pub record Options : Type 0 where
  pub env : Env
  pub dedup : Bool
  pub dry_run : Bool
  pub max_retries : ℤ

-- What happens during one event: whether the file can be read, the calls of the delivery and of the
-- queue, the time in nanoseconds and as the text that begins an entry's name, and the message of
-- an error.
pub record Happening : Type 0 where
  pub readable : Bool
  pub world : World
  pub enqueue_tx : Tx
  pub removable : Bool
  pub now : ℕ
  pub stamp : Text
  pub message : Failure → Text

abbrev pub dash : ℕ
dash = b'-'

unfoldable pub entry_name : Text → Text → Text → Text
entry_name stamp kind original_name = stamp ++ dash ∷ (kind ++ dash ∷ original_name)

abbrev pub failure_metadata : Text → Text → Text → ErrorMetadata
failure_metadata path kind message = record {
  source_outbox = dir path;
  kind = kind;
  original_name = base path;
  attempts = 1;
  error = message;
}

abbrev pub is_nil : Option StoreError → Bool
is_nil none = true
is_nil (some e) = false

-- enqueueDeliveryFailure: the file is removed once the queue has it.
unfoldable pub enqueue_delivery_failure : Happening → Text → Text → Text → Text → Daemon → Daemon
unfolding entry_name
enqueue_delivery_failure h path content kind message d = elim d.queue [
  | none ↦ d
  | some queue ↦
      let (queue', error) =
        enqueue h.enqueue_tx (entry_name h.stamp kind (base path)) content
          (failure_metadata path kind message) queue in
      let (files, removed) = os_remove h.removable path d.delivery.files in
      record d {
        queue = some queue';
        delivery = if is_nil error then record d.delivery { files = files } else d.delivery;
      }
]

abbrev pub on_breaker :
    (CircuitBreaker → CircuitBreaker) → Option CircuitBreaker → Option CircuitBreaker
on_breaker f none = none
on_breaker f (some cb) = some (f cb)

abbrev pub add_path : Text → List Text → List Text → List Text
add_path path [] added = added
add_path path (target ∷ targets) added = path ∷ added

-- handleEvent from the reading of the file on.
unfoldable pub handle_content : Options → Happening → Text → Text → Daemon → Daemon
unfolding classify_delivery_error enqueue_delivery_failure
handle_content o h path content d =
    let (delivery, result) = deliver_data o.env o.dedup h.world path content d.delivery in
    elim result [
      | failed e ↦
          let kind = kind_or_unknown (extract_dmail_kind o.env.unmarshal content) in
          enqueue_delivery_failure h path content kind (h.message e) (record d {
            delivery = delivery;
            breaker =
                on_breaker (record_delivery_error h.now (classify_delivery_error (h.message e)))
                  d.breaker;
          })
      | ok r ↦ record d {
        delivery = delivery;
        breaker = on_breaker phonewave.Breaker.record_success d.breaker;
        added = add_path path r.delivered_to d.added;
      }
    ]

-- handleEvent
unfoldable pub handle_event : Options → Happening → FileEvent → Daemon → Daemon
unfolding should_process_event handle_content
handle_event o h event d =
    if not (should_process_event event) || (o.dry_run || not h.readable)
    then d
    else elim (lookup event.name d.delivery.files) [
      | none ↦ d
      | some content ↦ handle_content o h event.name content d
    ]

-- maxRetries, 10 where the option is not positive
unfoldable pub effective_max_retries : ℤ → ℕ
effective_max_retries (pos zero) = 10
effective_max_retries (pos (suc n)) = suc n
effective_max_retries (negsuc n) = 10

-- What happens during the retry of one entry.
pub record Attempt : Type 0 where
  pub world : World
  pub tx : Tx
  pub message : Failure → Text

abbrev pub retry_path : Entry → Text
retry_path e = join e.source_outbox e.original_name

-- The retry of one entry, and whether it succeeds.
unfoldable pub retry_entry :
    Options → Attempt → Entry → State → Queue → List Text → State × Queue × List Text × Bool
retry_entry o a e delivery queue added =
    let (delivery', result) =
      deliver_data o.env o.dedup a.world (retry_path e) e.content delivery in
    elim result [
      | failed f ↦ (delivery', (increment_retry a.tx e.name (a.message f) queue).0, added, false)
      | ok r ↦ (
        delivery',
        (mark_resolved a.tx e.name queue).0,
        add_path (retry_path e) r.delivered_to added,
        true,
      )
    ]

-- The retries in the order in which they end, and how many succeed.
unfoldable pub retry_entries :
    Options
    → (Entry → Attempt)
    → List Entry
    → State
    → Queue
    → List Text
    → State × Queue × List Text × ℕ
unfolding retry_entry
retry_entries o attempt [] delivery queue added = (delivery, queue, added, 0)
retry_entries o attempt (e ∷ entries) delivery queue added =
    let (delivery', queue', added', succeeded) = retry_entry o (attempt e) e delivery queue added in
    let (delivery'', queue'', added'', successes) =
      retry_entries o attempt entries delivery' queue' added' in
    (delivery'', queue'', added'', if succeeded then successes + 1 else successes)

-- retryPending: `claim` and `queried` say whether the claim succeeds.
unfoldable pub retry_pending :
    Options → Tx → Bool → Text → ℕ → (Entry → Attempt) → Daemon → Daemon × ℕ
unfolding effective_max_retries retry_entries
retry_pending o claim queried claimer now attempt d = elim d.queue [
  | none ↦ (d, 0)
  | some queue ↦
      let (queue', error, entries) =
        claim_pending_retries claim queried claimer now (effective_max_retries o.max_retries)
          queue in
      let (delivery, queue'', added, successes) =
        retry_entries o attempt entries d.delivery queue' d.added in
      if is_nil error
      then (record d { delivery = delivery; queue = some queue''; added = added }, successes)
      else (record d { queue = some queue' }, 0)
]
