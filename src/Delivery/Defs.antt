-- ===== src/Delivery/Defs.antt =====
-- DeliverData and the dedup store. `files` is the file system: the outboxes and the inboxes.
use phonewave.Prelude.{
  ℕ, Bool, true, false, not, ◌&&◌, ◌||◌, Option, none, some, List, [], ◌∷◌, ◌++◌, Text, ◌==◌,
  contains, if◌then◌else◌, Dict, lookup,
}
use phonewave.FilePath.{dir, base, join}
use phonewave.Improvement.{correction_metadata_from_map, select_delivery_inboxes}
use phonewave.Store.{
  Row, Table, Tx, stage_delivery, all_flushed_for, ItemOutcome, DeliveryFlushed, flush_deliveries,
}
use phonewave.Delivery.Dmail.{
  no_route, dedup_unread, stage_failed, remove_failed, Result, ok, failed, DMailFrontmatter,
  parse_dmail_frontmatter, checked_kind,
}

pub record ResolvedRoute : Type 0 where
  pub kind : Text
  pub from_outbox : Text
  pub to_inboxes : List Text

pub record DeliveryResult : Type 0 where
  pub source_path : Text
  pub kind : Text
  pub delivered_to : List Text

-- The table delivery_log: keys of contents with the inboxes that have them.
abbrev pub DedupLog : Type 0
DedupLog = List (Text × Text)

unfoldable pub has_delivered : Text → Text → DedupLog → Bool
has_delivered key target [] = false
has_delivered key target ((k, t) ∷ log) = (k == key && t == target) || has_delivered key target log

-- INSERT OR IGNORE
unfoldable pub record_delivery : Text → Text → DedupLog → DedupLog
unfolding has_delivered
record_delivery key target log =
    if has_delivered key target log then log else log ++ (key, target) ∷ []

-- What a delivery changes.
pub record State : Type 0 where
  pub rows : Table
  pub files : Dict Text
  pub log : DedupLog

-- What a delivery reads: the routes, and code that is not in the repository: yaml.Unmarshal, the
-- hex SHA-256 of a content, and the table of unicode.ToLower.
pub record Env : Type 0 where
  pub routes : List ResolvedRoute
  pub unmarshal : Text → Option DMailFrontmatter
  pub idempotency_key : Text → Text
  pub wide : ℕ → ℕ

-- Which of the calls on the databases and on the file system succeed.
pub record World : Type 0 where
  pub read : Text → Bool
  pub stage : Tx
  pub stage_row : Text → Bool
  pub selected : Bool
  pub item : Row → ItemOutcome
  pub counted : Bool
  pub recorded : Text → Bool
  pub removable : Bool

unfoldable pub without : Text → Dict Text → Dict Text
without path [] = []
without path ((p, c) ∷ files) =
    let rest = without path files in if p == path then rest else (p, c) ∷ rest

abbrev pub is_missing_file : Option Text → Bool
is_missing_file none = true
is_missing_file (some c) = false

-- os.Remove, and whether it returns nil or ErrNotExist.
unfoldable pub os_remove : Bool → Text → Dict Text → Dict Text × Bool
unfolding without
os_remove removable path files =
    if is_missing_file (lookup path files)
    then (files, true)
    else if removable
    then (without path files, true)
    else (files, false)

-- The first route of the kind from the outbox.
unfoldable pub match_route : Text → Text → List ResolvedRoute → Option ResolvedRoute
match_route kind source_dir [] = none
match_route kind source_dir (r ∷ routes) =
    if r.kind == kind && r.from_outbox == source_dir
    then some r
    else match_route kind source_dir routes

-- DeliverData up to the choice of inboxes: the kind and the inboxes.
unfoldable pub delivery_plan : Env → Text → Text → Result (Text × List Text)
unfolding match_route
delivery_plan env path content = elim (parse_dmail_frontmatter env.unmarshal content) [
  | failed e ↦ failed e
  | ok fm ↦ elim (checked_kind fm) [
    | failed e ↦ failed e
    | ok kind ↦ elim (match_route kind (dir path) env.routes) [
      | none ↦ failed no_route
      | some route ↦ ok (
        kind,
        select_delivery_inboxes env.wide kind route.to_inboxes fm.targets
            (correction_metadata_from_map env.wide fm.metadata),
      )
    ]
  ]
]

-- The loop that drops what has been delivered; none where a read fails.
unfoldable pub remaining_inboxes : (Text → Bool) → Text → DedupLog → List Text → Option (List Text)
remaining_inboxes read key log [] = some []
remaining_inboxes read key log (inbox ∷ inboxes) =
    let rest = remaining_inboxes read key log inboxes in
    if not (read inbox)
    then none
    else if has_delivered key inbox log
    then rest
    else elim rest [ none ↦ none | some others ↦ some (inbox ∷ others) ]

unfoldable pub target_paths : Text → List Text → List Text
target_paths file_name [] = []
target_paths file_name (inbox ∷ inboxes) = join inbox file_name ∷ target_paths file_name inboxes

-- The targets of this file among those flushed.
unfoldable pub delivered_to : Text → List DeliveryFlushed → List Text
delivered_to path [] = []
delivered_to path (f ∷ flushed) =
    let rest = delivered_to path flushed in if f.dmail_path == path then f.target ∷ rest else rest

unfoldable pub dirs : List Text → List Text
dirs [] = []
dirs (target ∷ targets) = dir target ∷ dirs targets

unfoldable pub missing_in : List Text → List Text → List Text
missing_in set [] = []
missing_in set (inbox ∷ inboxes) =
    let rest = missing_in set inboxes in if contains set inbox then rest else inbox ∷ rest

-- The inboxes to record: those newly flushed and, when all is done, the others.
unfoldable pub dedup_targets : Bool → List Text → List Text → List Text
unfolding dirs missing_in
dedup_targets all_done delivered inboxes =
    dirs delivered ++ (if all_done then missing_in (dirs delivered) inboxes else [])

-- The loop goes on after a failure.
unfoldable pub record_dedup_for_targets :
    (Text → Bool) → Text → List Text → DedupLog → DedupLog × Bool
record_dedup_for_targets recorded key [] log = (log, true)
record_dedup_for_targets recorded key (inbox ∷ inboxes) log =
    let log' = if recorded inbox then record_delivery key inbox log else log in
    let (log'', all_ok) = record_dedup_for_targets recorded key inboxes log' in
    (log'', recorded inbox && all_ok)

-- All targets of the file are flushed, as far as can be read.
unfoldable pub is_all_done : World → Text → Table → Bool
is_all_done w path rows = w.counted && all_flushed_for path rows

-- The log after the deliveries are recorded, and whether all were.
unfoldable pub recording :
    Bool → World → Text → Bool → List Text → List Text → DedupLog → DedupLog × Bool
unfolding dedup_targets record_dedup_for_targets
recording false w key all_done delivered inboxes log = (log, true)
recording true w key all_done delivered inboxes log =
    record_dedup_for_targets w.recorded key (dedup_targets all_done delivered inboxes) log

-- DeliverData from the determination of what is done on.
unfoldable pub conclude :
    Bool → World → Text → Text → DeliveryResult → List Text → State → State × Result DeliveryResult
conclude dedup w key path result inboxes s =
    let all_done = is_all_done w path s.rows in
    let (log, recorded) = recording dedup w key all_done result.delivered_to inboxes s.log in
    let (files, removed) = os_remove w.removable path s.files in
    if all_done && recorded
    then (
      record s { files = files; log = log },
      if removed then ok result else failed remove_failed,
    )
    else (record s { log = log }, ok result)

-- DeliverData from the staging on.
unfoldable pub deliver_remaining :
    Bool → World → Text → Text → Text → Text → List Text → State → State × Result DeliveryResult
unfolding target_paths delivered_to
deliver_remaining dedup w key path content kind inboxes s =
    let (staged, error) =
      stage_delivery w.stage w.stage_row path content (target_paths (base path) inboxes) s.rows in
    let flush = (flush_deliveries w.selected w.item staged s.files).0 in
    let result : DeliveryResult = record {
      source_path = path;
      kind = kind;
      delivered_to = delivered_to path flush.flushed;
    } in
    elim error [
      | some e ↦ (record s { rows = staged }, failed stage_failed)
      | none ↦
          conclude dedup w key path result inboxes
            (record s { rows = flush.rows; files = flush.files })
    ]

-- Nothing remains: a failed removal is only logged.
abbrev pub skip : World → Text → Text → State → State × Result DeliveryResult
skip w path kind s = (
  record s { files = (os_remove w.removable path s.files).0 },
  ok (record { source_path = path; kind = kind; delivered_to = [] }),
)

-- DeliverData from the choice of inboxes on; `dedup` says that there is a dedup store.
unfoldable pub deliver_planned :
    Bool → World → Text → Text → Text → Text → List Text → State → State × Result DeliveryResult
deliver_planned false w key path content kind inboxes s =
    deliver_remaining false w key path content kind inboxes s
deliver_planned true w key path content kind inboxes s =
    elim (remaining_inboxes w.read key s.log inboxes) [
      | none ↦ (s, failed dedup_unread)
      | some [] ↦ skip w path kind s
      | some (inbox ∷ rest) ↦ deliver_remaining true w key path content kind (inbox ∷ rest) s
    ]

-- DeliverData
unfoldable pub deliver_data :
    Env → Bool → World → Text → Text → State → State × Result DeliveryResult
unfolding delivery_plan deliver_planned
deliver_data env dedup w path content s = elim (delivery_plan env path content) [
  | failed e ↦ (s, failed e)
  | ok (kind, inboxes) ↦
      deliver_planned dedup w (env.idempotency_key content) path content kind inboxes s
]
