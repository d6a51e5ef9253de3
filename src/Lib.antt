-- ===== src/Lib.antt =====
-- Phonewave carries D-Mails, Markdown files with a YAML frontmatter, between tools that work on one
-- repository. A tool writes a file to its outbox; the daemon reads it, finds the route for its kind
-- and puts it into the inboxes of the tools that consume the kind.
--
-- The parts, as they are used:
-- - A configuration lists the endpoints of each repository, and the routes are derived from what
--   they produce and consume. Router models internal/domain/router.go, Config models the methods of
--   internal/domain/config.go: derive_routes is DeriveRoutes, detect_orphans is DetectOrphans,
--   update_routes is Config.UpdateRoutes, and so on. FilePath models what is used of path/filepath.
-- - Setup fills and uses it: Setup.Scanner models internal/session/scanner.go (scan_repository),
--   Setup.Sync and Setup.Diff internal/session/setup.go (init_config, add_repo, remove_repo and
--   sync stand for Init, Add, Remove and Sync), and Setup.Resolve internal/session/daemon_setup.go.
-- - Improvement models internal/domain/improvement.go, routing_policy.go beside it and
--   internal/harness/policy/delivery.go: the metadata of corrections, written by apply and read by
--   correction_metadata_from_map, and the inboxes of a route that a D-Mail is narrowed to.
-- - Delivery models DeliverData (internal/session/deliver.go) on D-Mails
--   (internal/domain/delivery.go) and the dedup store (internal/session/delivery_dedup_store.go):
--   deliver_data parses and plans, drops the inboxes that have the content, stages the others,
--   flushes, records, and removes the file. Its steps are delivery_plan, deliver_planned,
--   deliver_remaining and conclude.
-- - Store models internal/session/delivery_store.go, the table of staged deliveries:
--   stage_delivery, flush_deliveries with atomic_write, and the cleaning.
-- - ErrorQueue models internal/session/error_queue_store.go: failures wait there, are claimed by a
--   daemon for five minutes, and are retried up to a limit.
-- - Daemon models internal/session/daemon_deliver.go and classify_delivery_error.go: handle_event
--   is handleEvent, enqueue_delivery_failure and retry_pending are the methods of those names;
--   Daemon.Loop models Daemon.Run in daemon_runner.go: start_loop, loop_step for a case of its
--   select or a round of the worker, retry_branch with its retry_cycle, and recover_deliveries.
-- - Scan models ScanAndDeliver (internal/session/scan_deliver.go), which delivers what waits in an
--   outbox when the daemon starts, as scan_and_deliver; mark_delivered is the part of
--   runStartupScan that adds its results to the filter. Bloom models
--   internal/domain/bloom_filter.go, the filter: add_key, may_contain, marshal_binary and
--   unmarshal_bloom_filter, where none is a panic or corrupt data.
-- - EventStore models what is recorded of all this: the events of internal/domain/event.go and
--   delivery_aggregate.go, the emitter of internal/usecase/emitter.go (emit_event), and in
--   internal/eventsource the daily files (append_events, load_events), the counter (alloc_seq_nr),
--   the snapshots and the cutover (run_cutover).
-- - Metrics models AggregateHealthTimeSeries (internal/domain/metrics.go), which counts the events
--   of a window in buckets.
-- - Breaker (internal/platform/circuit_breaker.go), Backoff (internal/domain/retry_backoff.go) and
--   Provider (internal/domain/provider_state.go) pace the retries.
-- Prelude holds the shared names, texts, dictionaries and machine words; Tests runs the code on
-- small inputs and applies the theorems to them.
--
-- How the code is read:
-- - A text is a list of code points, the content of a file a list of bytes, a Go map an association
--   list. Durations are int64 with their wrap-around (Prelude.Words); counters are natural numbers,
--   and an int that may be negative is an integer.
-- - A call that can fail is decided by an argument: records such as Tx, ItemOutcome, World and
--   Happening say which calls on the database and on the file system succeed. The theorems hold for
--   all of them. An SQL transaction takes effect whole or not at all.
-- - What other goroutines or daemons do between two steps is a list of steps: Breaker.Call,
--   Breaker.Wake, ErrorQueue.Step, Daemon.Loop.Input; the idle timeout may elapse at any step.
--   Deliveries that run at once are taken one after the other. The loops run over lists,
--   and the loop of Allow over its passes. Only Prelude.Decimal.decimal has fuel, 20 digits, which is
--   enough for an int of 64 bits (atoi-itoa).
-- - Parameters: yaml.Unmarshal, encoding/json with what it promises of a line (IsEncoded),
--   filepath.Abs, the contents of directories and files that are scanned, the hash of a content,
--   the Unicode table of lower cases, the draw of the jitter, the quotient of floating-point
--   numbers, the formats of times, and the messages of errors.
--
-- Not modelled: logs, spans and telemetry, opening databases, the file watcher, the command line,
-- the MCP server, the doctor and the status report, which are I/O or glue; the floating-point
-- formulas for the size of a Bloom filter; the files of the configuration, the pruning of event
-- files, and the text of a rate of success.
pub mod Prelude
pub mod FilePath
pub mod Router
pub mod Config
pub mod Metrics
pub mod Provider
pub mod Backoff
pub mod Breaker
pub mod Improvement
pub mod Bloom
pub mod Store
pub mod ErrorQueue
pub mod Delivery
pub mod Daemon
pub mod Scan
pub mod Setup
pub mod EventStore
mod Tests
