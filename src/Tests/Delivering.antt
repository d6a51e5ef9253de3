-- ===== src/Tests/Delivering.antt =====
-- One D-Mail delivered to one inbox, and one that cannot be parsed.
use phonewave.Prelude.{
  ◌≡◌, refl, ◌⊎◌, inl, true, false, none, some, [], ◌∷◌, Text, codes, ◌==◌, contains, In, lookup,
  insert, has_prefix, has_rune, split_on, pos,
}
use phonewave.FilePath.{
  clean, join, dir, base, render, unwind, pieces, push, up_to_last, after_last, strip_slashes,
}
use phonewave.Improvement.{
  correction_metadata_from_map, select_delivery_inboxes, filter_inboxes_by_target_agent,
  filter_inboxes_by_targets, filter_inboxes, preferred_improvement_target_agent, is_improvement,
}
use phonewave.Store.{Tx, renamed, all_flushed_for}
use phonewave.Store.{
  stage_delivery, flush_deliveries, flush_items, flush_item, settle, atomic_write, mark_flushed,
  collect_unflushed, select, has_key, update_rows, transact, upsert, stage_targets,
}
use phonewave.Delivery.{
  no_frontmatter, ok, failed, DMailFrontmatter, State, Env, World, has_delivered, os_remove,
  delivery_plan, deliver_data, parse_dmail_frontmatter, find_frontmatter_end, closing_line,
  checked_kind, parse_dmail_kind, is_valid_dmail_kind, match_route, remaining_inboxes,
  deliver_planned, deliver_remaining, conclude, is_all_done, recording, record_dedup_for_targets,
  record_delivery, dedup_targets, dirs, missing_in, delivered_to, target_paths, without,
}
use phonewave.Delivery.Keeping.{Present, deliver_data-failed}
use phonewave.Delivery.Removal.{Gone, deliver_data-Gone}
use phonewave.Delivery.Again.{deliver_data-once}
use phonewave.Delivery.Landing.{Smooth, Landed, deliver_data-lands}
use phonewave.Daemon.{Daemon, Options, Happening, FileEvent}

abbrev report : Text
report = codes "report"

abbrev outbox : Text
outbox = codes "/r/a/outbox"

abbrev inbox : Text
inbox = codes "/r/b/inbox"

abbrev path : Text
path = codes "/r/a/outbox/m.md"

abbrev mail : Text
mail = codes "---\nx\n---\n"

abbrev frontmatter : DMailFrontmatter
frontmatter = record {
  schema_version = codes "1";
  name = codes "m";
  kind = report;
  description = [];
  action = [];
  priority = pos 0;
  targets = [];
  metadata = [];
}

-- A parser that reads every block as the same frontmatter.
abbrev env : Env
env = record {
  routes = record { kind = report; from_outbox = outbox; to_inboxes = inbox ∷ [] } ∷ [];
  unmarshal = λ block. some frontmatter;
  idempotency_key = λ content. content;
  wide = λ c. c;
}

abbrev good_tx : Tx
good_tx = record { conn = true; begin = true; exec = true; commit = true }

abbrev good : World
good = record {
  read = λ x. true;
  stage = good_tx;
  stage_row = λ x. true;
  selected = true;
  item = λ r. record { write = renamed; tx = good_tx };
  counted = true;
  recorded = λ x. true;
  removable = true;
}

abbrev start : State
start = record { rows = []; files = (path, mail) ∷ []; log = [] }

plan : delivery_plan env path mail ≡ ok (report, inbox ∷ [])
unfolding delivery_plan parse_dmail_frontmatter find_frontmatter_end closing_line has_prefix
    checked_kind parse_dmail_kind is_valid_dmail_kind match_route ◌==◌ contains dir clean up_to_last
    render unwind pieces split_on push select_delivery_inboxes filter_inboxes_by_target_agent
    filter_inboxes_by_targets filter_inboxes preferred_improvement_target_agent is_improvement
    correction_metadata_from_map
plan = refl

start-Present : Present path start.files
unfolding lookup ◌==◌
start-Present = refl

start-Gone : Gone path (deliver_data env true good path mail start).0.files
unfolding deliver_data delivery_plan parse_dmail_frontmatter find_frontmatter_end closing_line
    has_prefix checked_kind parse_dmail_kind is_valid_dmail_kind match_route ◌==◌ contains dir clean
    up_to_last render unwind pieces split_on push select_delivery_inboxes
    filter_inboxes_by_target_agent filter_inboxes_by_targets filter_inboxes
    preferred_improvement_target_agent is_improvement correction_metadata_from_map deliver_planned
    remaining_inboxes has_delivered deliver_remaining target_paths delivered_to stage_delivery
    stage_targets upsert has_key transact flush_deliveries flush_items flush_item settle
    atomic_write mark_flushed update_rows collect_unflushed select conclude is_all_done recording
    record_dedup_for_targets record_delivery dedup_targets dirs missing_in os_remove without lookup
    insert all_flushed_for base join after_last strip_slashes has_rune
start-Gone = refl

-- The inbox has the content.
start-delivered :
    lookup (codes "/r/b/inbox/m.md") (deliver_data env true good path mail start).0.files
    ≡ some mail
unfolding deliver_data delivery_plan parse_dmail_frontmatter find_frontmatter_end closing_line
    has_prefix checked_kind parse_dmail_kind is_valid_dmail_kind match_route ◌==◌ contains dir clean
    up_to_last render unwind pieces split_on push select_delivery_inboxes
    filter_inboxes_by_target_agent filter_inboxes_by_targets filter_inboxes
    preferred_improvement_target_agent is_improvement correction_metadata_from_map deliver_planned
    remaining_inboxes has_delivered deliver_remaining target_paths delivered_to stage_delivery
    stage_targets upsert has_key transact flush_deliveries flush_items flush_item settle
    atomic_write mark_flushed update_rows collect_unflushed select conclude is_all_done recording
    record_dedup_for_targets record_delivery dedup_targets dirs missing_in os_remove without lookup
    insert all_flushed_for base join after_last strip_slashes has_rune
start-delivered = refl

deliver_data-Gone_example :
    ((all_flushed_for path (deliver_data env true good path mail start).0.rows ≡ true)
      ⊎ ((true ≡ true) × ((deliver_data env true good path mail start).0.rows ≡ start.rows)))
    × (true ≡ true
        → (x : Text) → In x (inbox ∷ [])
        → has_delivered mail x (deliver_data env true good path mail start).0.log ≡ true)
deliver_data-Gone_example =
    deliver_data-Gone env true good path mail report (inbox ∷ []) start plan start-Present
      start-Gone

good-Smooth : Smooth good
good-Smooth = record {
  read = λ x. refl;
  stage = (refl, refl, refl, refl);
  stage_row = λ t. refl;
  selected = refl;
  done = λ r. (refl, refl, refl, refl);
  writes = λ r. refl;
}

deliver_data-lands_example :
    ((true ≡ true) × (has_delivered mail inbox start.log ≡ true))
    ⊎ Landed path mail (join inbox (base path)) (deliver_data env true good path mail start).0.rows
deliver_data-lands_example =
    deliver_data-lands env true good path mail report (inbox ∷ []) start good-Smooth tt plan inbox
      (inl refl)

-- The same content under another name.
abbrev copy : Text
copy = codes "/r/a/outbox/n.md"

abbrev later : State
later = record (deliver_data env true good path mail start).0 { files = (copy, mail) ∷ [] }

copy-plan : delivery_plan env copy mail ≡ ok (report, inbox ∷ [])
unfolding delivery_plan parse_dmail_frontmatter find_frontmatter_end closing_line has_prefix
    checked_kind parse_dmail_kind is_valid_dmail_kind match_route ◌==◌ contains dir clean up_to_last
    render unwind pieces split_on push select_delivery_inboxes filter_inboxes_by_target_agent
    filter_inboxes_by_targets filter_inboxes preferred_improvement_target_agent is_improvement
    correction_metadata_from_map
copy-plan = refl

deliver_data-once_example : deliver_data env true good copy mail later ≡ (
  record later { files = (os_remove true copy later.files).0 },
  ok (record { source_path = copy; kind = report; delivered_to = [] }),
)
deliver_data-once_example =
    deliver_data-once env good path mail report (inbox ∷ []) start plan start-Present start-Gone
      good copy report (inbox ∷ []) later copy-plan (λ x m. m) (λ x m. refl) refl

-- A text with no frontmatter.
abbrev junk : Text
junk = codes "junk"

abbrev junk_start : State
junk_start = record { rows = []; files = (path, junk) ∷ []; log = [] }

junk-Present : Present path junk_start.files
unfolding lookup ◌==◌
junk-Present = refl

junk-failed : (deliver_data env true good path junk junk_start).1 ≡ failed no_frontmatter
unfolding deliver_data delivery_plan parse_dmail_frontmatter find_frontmatter_end closing_line
    has_prefix checked_kind parse_dmail_kind is_valid_dmail_kind match_route ◌==◌ contains dir clean
    up_to_last render unwind pieces split_on push select_delivery_inboxes
    filter_inboxes_by_target_agent filter_inboxes_by_targets filter_inboxes
    preferred_improvement_target_agent is_improvement correction_metadata_from_map
junk-failed = refl

deliver_data-failed_example : Present path (deliver_data env true good path junk junk_start).0.files
deliver_data-failed_example =
    deliver_data-failed env true good path junk junk_start no_frontmatter junk-Present junk-failed

abbrev pub options : Options
options = record { env = env; dedup = true; dry_run = false; max_retries = pos 10 }

abbrev pub happening : Happening
happening = record {
  readable = true;
  world = good;
  enqueue_tx = good_tx;
  removable = true;
  now = 7;
  stamp = codes "2026-01-01T000000.000000000";
  message = λ e. codes "parse D-Mail";
}

abbrev pub daemon : Daemon
daemon = record { delivery = junk_start; queue = some []; breaker = none; added = [] }

abbrev pub arrival : FileEvent
arrival = record { name = path; create = true; rename = false }
