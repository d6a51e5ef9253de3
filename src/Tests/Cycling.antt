-- ===== src/Tests/Cycling.antt =====
-- A retry cycle in which the queue cannot be read.
use phonewave.Prelude.{◌≡◌, refl, true, false, none, some, [], ◌∷◌, codes, pos}
use phonewave.Backoff.{RetryBackoff, new_retry_backoff}
use phonewave.Breaker.{new_circuit_breaker}
use phonewave.Store.{Tx}
use phonewave.ErrorQueue.{Entry, claim_pending_retries, pending_count}
use phonewave.Delivery.{Env, World}
use phonewave.Daemon.{Daemon, Options, effective_max_retries, retry_pending}
use phonewave.Daemon.Cycle.{CycleInput, pending, retry_cycle, retried_daemon, retry_cycle-untripped}

abbrev unread_tx : Tx
unread_tx = record { conn = false; begin = true; exec = true; commit = true }

abbrev no_world : World
no_world = record {
  read = λ x. false;
  stage = unread_tx;
  stage_row = λ x. false;
  selected = false;
  item = λ r. record { write = phonewave.Store.create_failed; tx = unread_tx };
  counted = false;
  recorded = λ x. false;
  removable = false;
}

abbrev waiting : Entry
waiting = record {
  name = codes "e";
  content = codes "x";
  source_outbox = codes "/r/a/outbox";
  kind = codes "report";
  original_name = codes "m.md";
  error_message = [];
  retry_count = 1;
  resolved = false;
  claimed_by = [];
  claimed_at = none;
}

abbrev no_env : Env
no_env = record {
  routes = [];
  unmarshal = λ block. none;
  idempotency_key = λ content. content;
  wide = λ c. c;
}

abbrev input : CycleInput
input = record {
  claim = unread_tx;
  queried = true;
  claimer = codes "daemon-1";
  seconds = 5;
  attempt = λ e. record { world = no_world; tx = unread_tx; message = λ f. [] };
  counted = true;
  now = 5;
}

abbrev backoff : RetryBackoff
backoff = new_retry_backoff 60 1920

abbrev with_breaker : Daemon
with_breaker = record {
  delivery = record { rows = []; files = []; log = [] };
  queue = some (waiting ∷ []);
  breaker = some new_circuit_breaker;
  added = [];
}

abbrev limited : Options
limited = record { env = no_env; dedup = true; dry_run = false; max_retries = pos 10 }

abbrev unlimited : Options
unlimited = record limited { max_retries = pos 0 }

none_succeeds : (retried_daemon unlimited input with_breaker).1 ≡ 0
unfolding retry_pending claim_pending_retries
none_succeeds = refl

-- With the limit the entry is pending.
one_pending : pending true (pos 10) (retried_daemon limited input with_breaker).0.queue ≡ 1
unfolding retry_pending pending claim_pending_retries pending_count
one_pending = refl

retry_cycle-untripped_example :
    (effective_max_retries unlimited.max_retries ≡ 10)
    × ((retry_cycle unlimited input backoff with_breaker).1.breaker ≡ some new_circuit_breaker)
retry_cycle-untripped_example =
    retry_cycle-untripped unlimited input backoff with_breaker refl none_succeeds
