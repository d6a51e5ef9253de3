-- ===== src/Daemon/Retrying.antt =====
-- Where a queued D-Mail is retried, and which failures leave the breaker alone.
use phonewave.Prelude.{
  ℕ, ◌≡◌, refl, ap, ◌∙◌, true, false, Option, none, some, [], ◌∷◌, arith, Text, codes, ◌==◌,
  has_prefix,
}
use phonewave.FilePath.{dir, base, join, clean, IsName, dir-join, base-join}
use phonewave.ErrorQueue.{Entry}
use phonewave.Breaker.{CircuitBreaker, record_delivery_error, is_trip, persistent}
use phonewave.Delivery.{Failure, failed, extract_dmail_kind, kind_or_unknown, deliver_data}
use phonewave.Daemon.Defs.{
  Daemon, Options, Happening, has_substring, classify_delivery_error, on_breaker,
  enqueue_delivery_failure, handle_content, retry_path,
}

-- An entry that was made for a file of an outbox is retried under that file's path. The path of the
-- outbox is a clean one, and the file has a name.
pub retry_path-join :
    (outbox name : Text) (e : Entry)
    → IsName name
    → (outbox == []) ≡ false
    → clean outbox ≡ outbox
    → e.source_outbox ≡ dir (join outbox name)
    → e.original_name ≡ base (join outbox name)
    → retry_path e ≡ join outbox name
retry_path-join outbox name e n ne c d b =
    rw (d, b) (rw (dir-join outbox name n ne c, base-join outbox name n ne) refl)

prefix-substring : (s p : Text) → has_prefix s p ≡ true → has_substring s p ≡ true
unfolding has_substring
prefix-substring [] p h = h
prefix-substring (c ∷ cs) p h = ground arith

persistent-kept :
    (now : ℕ) (cb : CircuitBreaker)
    → record_delivery_error now (record { kind = persistent; reset_at = none }) cb ≡ cb
unfolding record_delivery_error is_trip
persistent-kept now cb = refl

parse-persistent :
    (message : Text)
    → has_prefix message (codes "parse D-Mail") ≡ true
    → classify_delivery_error message ≡ record { kind = persistent; reset_at = none }
unfolding classify_delivery_error
parse-persistent message h = rw (prefix-substring message (codes "parse D-Mail") h) refl

failure-breaker :
    (h : Happening) (path content kind message : Text) (d : Daemon)
    → (enqueue_delivery_failure h path content kind message d).breaker ≡ d.breaker
unfolding enqueue_delivery_failure
failure-breaker h path content kind message d = ground arith

kept :
    (now : ℕ) (cb : Option CircuitBreaker)
    → on_breaker (record_delivery_error now (record { kind = persistent; reset_at = none })) cb ≡ cb
kept now none = refl
kept now (some cb) = ap some (persistent-kept now cb)

-- A D-Mail that cannot be parsed does not trip the breaker: if DeliverData fails with a message that
-- begins with "parse D-Mail", the breaker stays as it is.
pub handle_content-malformed :
    (o : Options) (h : Happening) (path content : Text) (d : Daemon) (e : Failure)
    → (deliver_data o.env o.dedup h.world path content d.delivery).1 ≡ failed e
    → has_prefix (h.message e) (codes "parse D-Mail") ≡ true
    → (handle_content o h path content d).breaker ≡ d.breaker
unfolding handle_content
handle_content-malformed o h path content d e f m =
    let kind = kind_or_unknown (extract_dmail_kind o.env.unmarshal content) in
    let info = classify_delivery_error (h.message e) in
    let d' : Daemon = record d {
      delivery = (deliver_data o.env o.dedup h.world path content d.delivery).0;
      breaker = on_breaker (record_delivery_error h.now info) d.breaker;
    } in
    rw (f, handle_content)
      (failure-breaker h path content kind (h.message e) d'
        ∙ ap (λ i. on_breaker (record_delivery_error h.now i) d.breaker)
            (parse-persistent (h.message e) m)
        ∙ kept h.now d.breaker)
