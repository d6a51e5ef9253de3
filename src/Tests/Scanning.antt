-- ===== src/Tests/Scanning.antt =====
-- A small Bloom filter, and a scan of an outbox with one D-Mail that cannot be parsed.
use phonewave.Prelude.{
  ◌≡◌, refl, true, false, none, some, [], ◌∷◌, List, Text, codes, arith, In, pos, ◌==◌, has_rune,
  has_prefix, lookup, split_on, ◌⊎◌,
}
use phonewave.Prelude.Words.{add}
use phonewave.FilePath.{
  join, base, after_last, strip_slashes, ext, clean, render, unwind, pieces, push,
}
use phonewave.Bloom.{
  BloomFilter, hash, new_bloom_filter, word_count, marshal_binary, unmarshal_bloom_filter,
}
use phonewave.Bloom.Members.{Represents, add_keys, add_keys-new}
use phonewave.Bloom.Binary.{IsValid, unmarshal-marshal}
use phonewave.Store.{Tx, create_failed, transact}
use phonewave.ErrorQueue.{has_name, enqueue, insert_or_ignore}
use phonewave.Delivery.{
  no_frontmatter, State, Env, World, DeliveryResult, is_dmail_file, extract_dmail_kind,
  kind_or_unknown, deliver_data, delivery_plan, parse_dmail_frontmatter, find_frontmatter_end,
  closing_line, os_remove, without,
}
use phonewave.Daemon.{Options, Happening, entry_name}
use phonewave.Scan.{
  DirEntry, undelivered, ScanState, dmail_names, scan_file, scan_and_deliver, mark_delivered,
  is_filtered, scan_files, scan_content, record_undelivered,
}
use phonewave.Scan.Skipping.{Reached, mark_delivered-scan_file}

-- FNV-1a of the letter a
hash-a : (hash (codes "a")).0 ≡ 0xaf63dc4c8601ec8c
unfolding hash
hash-a = refl

abbrev first_key : Text
first_key = codes "/r/a/outbox/m.md"

abbrev second_key : Text
second_key = codes "/r/a/outbox/n.md"

add_keys-new_example :
    (after : BloomFilter) × (add_keys (first_key ∷ second_key ∷ []) (new_bloom_filter 128 3)
      ≡ some after)
    × Represents (λ key. In key (first_key ∷ second_key ∷ [])) after
add_keys-new_example = add_keys-new 128 3 (first_key ∷ second_key ∷ []) (omega arith) (omega arith)

abbrev small : BloomFilter
small = record { bits = 5 ∷ 2 ∷ []; num_hash = 3; m = 100 }

small-IsValid : IsValid small
unfolding word_count add
small-IsValid = (omega arith, omega arith, (omega arith, (omega arith, tt)), refl)

unmarshal-marshal_example : unmarshal_bloom_filter (marshal_binary small) ≡ some small
unmarshal-marshal_example = unmarshal-marshal small small-IsValid

abbrev good_tx : Tx
good_tx = record { conn = true; begin = true; exec = true; commit = true }

abbrev world : World
world = record {
  read = λ x. true;
  stage = good_tx;
  stage_row = λ x. true;
  selected = true;
  item = λ r. record { write = create_failed; tx = good_tx };
  counted = true;
  recorded = λ x. true;
  removable = true;
}

abbrev env : Env
env = record {
  routes = [];
  unmarshal = λ block. none;
  idempotency_key = λ content. content;
  wide = λ c. c;
}

abbrev options : Options
options = record { env = env; dedup = true; dry_run = false; max_retries = pos 10 }

abbrev happening : Text → Happening
happening name = record {
  readable = true;
  world = world;
  enqueue_tx = good_tx;
  removable = true;
  now = 5;
  stamp = codes "t";
  message = λ e. codes "parse D-Mail";
}

abbrev outbox : Text
outbox = codes "/r/a/outbox"

abbrev entries : List DirEntry
entries =
    record { file_name = codes "sub"; is_dir = true }
    ∷ record { file_name = codes "m.md"; is_dir = false }
    ∷ record { file_name = codes "m.txt"; is_dir = false }
    ∷ []

abbrev start : State
start = record { rows = []; files = (first_key, codes "x") ∷ []; log = [] }

entries-names : dmail_names entries ≡ codes "m.md" ∷ []
unfolding dmail_names is_dmail_file ◌==◌ base after_last strip_slashes has_rune ext has_prefix
entries-names = refl

abbrev ended : ScanState
ended = record {
  delivery = record { rows = []; files = []; log = [] };
  queue = some (
      record {
        name = codes "t-unknown-m.md";
        content = codes "x";
        source_outbox = outbox;
        kind = codes "unknown";
        original_name = codes "m.md";
        error_message = codes "parse D-Mail";
        retry_count = 1;
        resolved = false;
        claimed_by = [];
        claimed_at = none;
      }
      ∷ []);
  results = [];
  errs = undelivered first_key no_frontmatter ∷ [];
}

-- The file leaves the outbox for the queue.
scan-junk :
    scan_and_deliver options none happening outbox (some entries) start (some []) ≡ some ended
unfolding scan_and_deliver is_dmail_file ◌==◌ base after_last strip_slashes has_rune ext has_prefix
    dmail_names scan_files scan_file scan_content is_filtered record_undelivered entry_name enqueue
    insert_or_ignore has_name transact lookup join clean render unwind pieces split_on push
    extract_dmail_kind kind_or_unknown deliver_data delivery_plan parse_dmail_frontmatter
    find_frontmatter_end closing_line os_remove without
scan-junk = refl

abbrev delivered : DeliveryResult
delivered = record {
  source_path = codes "/r/a/outbox/q.md";
  kind = codes "report";
  delivered_to = codes "/r/b/inbox/q.md" ∷ [];
}

mark_delivered-scan_file_example :
    (after : BloomFilter) × (mark_delivered (delivered ∷ []) add_keys-new_example.0 ≡ some after)
    × ((o : Options) (h : Happening) (from name : Text) (s : ScanState)
        → Reached (delivered ∷ []) (join from name)
          ⊎ In (join from name) (first_key ∷ second_key ∷ [])
        → scan_file o (some after) h from name s ≡ some s)
mark_delivered-scan_file_example =
    mark_delivered-scan_file (delivered ∷ []) (λ key. In key (first_key ∷ second_key ∷ []))
      add_keys-new_example.0 add_keys-new_example.2
