-- ===== src/Scan/Defs.antt =====
-- ScanAndDeliver, and the use of its results at start. Logs and spans are left out.
use phonewave.Prelude.{
  Bool, true, false, not, Option, none, some, List, [], ◌∷◌, ◌++◌, Text, if◌then◌else◌, lookup,
}
use phonewave.FilePath.{join}
use phonewave.Bloom.{BloomFilter, may_contain, add_key}
use phonewave.ErrorQueue.{Queue, ErrorMetadata, enqueue}
use phonewave.Delivery.{
  Failure, ok, failed, State, DeliveryResult, is_dmail_file, extract_dmail_kind, kind_or_unknown,
  os_remove, deliver_data,
}
use phonewave.Daemon.{Options, Happening, entry_name, is_nil}

pub record DirEntry : Type 0 where
  pub file_name : Text
  pub is_dir : Bool

pub data ScanError : Type 0 where
  outbox_unread : ScanError
  file_unread : Text → ScanError
  undelivered : Text → Failure → ScanError

-- What a scan changes and returns.
pub record ScanState : Type 0 where
  pub delivery : State
  pub queue : Option Queue
  pub results : List DeliveryResult
  pub errs : List ScanError

-- The loop that keeps the names of the D-Mails.
unfoldable pub dmail_names : List DirEntry → List Text
dmail_names [] = []
dmail_names (entry ∷ entries) =
    let rest = dmail_names entries in
    if entry.is_dir
    then rest
    else if not (is_dmail_file entry.file_name)
    then rest
    else entry.file_name ∷ rest

-- bf != nil && bf.MayContain(path)
unfoldable pub is_filtered : Option BloomFilter → Text → Option Bool
is_filtered none path = some false
is_filtered (some bf) path = may_contain path bf

abbrev pub scan_metadata : Text → Text → Text → Text → ErrorMetadata
scan_metadata outbox name kind message = record {
  source_outbox = outbox;
  kind = kind;
  original_name = name;
  attempts = 1;
  error = message;
}

-- A delivery has failed: the file is removed once the queue, if there is one, has it.
unfoldable pub record_undelivered :
    Happening → Text → Text → Text → Text → Text → State → Option Queue → State × Option Queue
unfolding entry_name
record_undelivered h outbox name content kind message delivery none = (delivery, none)
record_undelivered h outbox name content kind message delivery (some queue) =
    let (queue', error) =
      enqueue h.enqueue_tx (entry_name h.stamp kind name) content
        (scan_metadata outbox name kind message) queue in
    let (files, removed) = os_remove h.removable (join outbox name) delivery.files in
    (if is_nil error then record delivery { files = files } else delivery, some queue')

-- A file that has been read.
unfoldable pub scan_content : Options → Happening → Text → Text → Text → ScanState → ScanState
unfolding record_undelivered
scan_content o h outbox name content s =
    let path = join outbox name in
    let (delivery, result) = deliver_data o.env o.dedup h.world path content s.delivery in
    elim result [
      | failed e ↦
          let kind = kind_or_unknown (extract_dmail_kind o.env.unmarshal content) in
          let (delivery', queue) =
            record_undelivered h outbox name content kind (h.message e) delivery s.queue in
          record s { delivery = delivery'; queue = queue; errs = s.errs ++ undelivered path e ∷ [] }
      | ok r ↦ record s { delivery = delivery; results = s.results ++ r ∷ [] }
    ]

-- os.ReadFile
abbrev pub read_file : Happening → Option Text → Option Text
read_file h none = none
read_file h (some content) = if h.readable then some content else none

-- One round of the loop; none is a panic of the filter.
unfoldable pub scan_file :
    Options → Option BloomFilter → Happening → Text → Text → ScanState → Option ScanState
unfolding is_filtered scan_content
scan_file o bf h outbox name s =
    let path = join outbox name in
    elim (is_filtered bf path) [
      | none ↦ none
      | some true ↦ some s
      | some false ↦ elim (read_file h (lookup path s.delivery.files)) [
        | none ↦ some (record s { errs = s.errs ++ file_unread path ∷ [] })
        | some content ↦ some (scan_content o h outbox name content s)
      ]
    ]

-- The loop over the names. What happens depends on the name.
unfoldable pub scan_files :
    Options
    → Option BloomFilter
    → (Text → Happening)
    → Text
    → List Text
    → ScanState
    → Option ScanState
unfolding scan_file
scan_files o bf h outbox [] s = some s
scan_files o bf h outbox (name ∷ names) s = elim (scan_file o bf (h name) outbox name s) [
  | none ↦ none
  | some s' ↦ scan_files o bf h outbox names s'
]

-- ScanAndDeliver: the entries are what os.ReadDir returns, none for an error.
unfoldable pub scan_and_deliver :
    Options
    → Option BloomFilter
    → (Text → Happening)
    → Text
    → Option (List DirEntry)
    → State
    → Option Queue
    → Option ScanState
unfolding scan_files dmail_names
scan_and_deliver o bf h outbox none delivery queue =
    some (record { delivery = delivery; queue = queue; results = []; errs = outbox_unread ∷ [] })
scan_and_deliver o bf h outbox (some entries) delivery queue =
    scan_files o bf h outbox (dmail_names entries)
      (record { delivery = delivery; queue = queue; results = []; errs = [] })

-- The loop of runStartupScan over the results, which adds to the filter what reached an inbox.
unfoldable pub mark_delivered : List DeliveryResult → BloomFilter → Option BloomFilter
mark_delivered [] bf = some bf
mark_delivered (r ∷ results) bf = elim r.delivered_to [
  | [] ↦ mark_delivered results bf
  | target ∷ targets ↦ elim (add_key r.source_path bf) [
    | none ↦ none
    | some bf' ↦ mark_delivered results bf'
  ]
]
