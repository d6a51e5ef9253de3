-- ===== src/Scan/Losing.antt =====
-- A D-Mail that a scan takes from its outbox is delivered, or it stands in the queue.
mod Rounds
mod Files
pub use Rounds.{QueuedFrom}
pub use Files.{Answers, Fate}
use Rounds.{Kept}
use phonewave.Prelude.{
  ◌≡◌, ◌⊎◌, Bool, true, false, Option, none, some, List, [], ◌∷◌, ◌++◌, arith, Text, ◌==◌, sym,
  Dict, In,
}
use phonewave.FilePath.{join}
use phonewave.Bloom.{BloomFilter}
use phonewave.ErrorQueue.{Queue}
use phonewave.Delivery.{Result, ok, failed, State}
use phonewave.Delivery.Keeping.{Present}
use phonewave.Delivery.Removal.{Gone}
use phonewave.Daemon.{Options, Happening, entry_name}
use phonewave.Daemon.Handling.{FreshName, Delivered}
use phonewave.Scan.Defs.{
  file_unread, ScanState, is_filtered, scan_content, read_file, scan_file, scan_files,
}

-- The name that a failure would get stands for no entry of the queue when its round begins.
abbrev pub FreshNames :
    Options → Option BloomFilter → (Text → Happening) → Text → List Text → ScanState → Type 0
FreshNames o bf h outbox [] s = Unit
FreshNames o bf h outbox (name ∷ names) s =
    ((kind : Text) → FreshName (entry_name (h name).stamp kind name) s.queue)
    × ((next : ScanState)
        → scan_file o bf (h name) outbox name s ≡ some next
        → FreshNames o bf h outbox names next)

-- A round of the scan took the file `path`: the rounds for `earlier` led to `before`, and this one to
-- `next`.
pub record Taken (o : Options) (bf : Option BloomFilter) (h : Text → Happening) (outbox : Text)
    (names : List Text) (s : ScanState) (path : Text) (queue : Option Queue) : Type 0 where
  pub earlier : List Text
  pub name : Text
  pub later : List Text
  pub before : ScanState
  pub next : ScanState
  pub split : names ≡ earlier ++ name ∷ later
  pub file : path ≡ join outbox name
  pub reached : scan_files o bf h outbox earlier s ≡ some before
  pub stepped : scan_file o bf (h name) outbox name before ≡ some next
  pub fate : Fate o outbox name before next queue

-- The scan ends, without a panic; and whatever file it takes, a round took it.
record Scanned (o : Options) (bf : Option BloomFilter) (h : Text → Happening) (outbox : Text)
    (names : List Text) (s : ScanState) : Type 0 where
  after : ScanState
  ends : scan_files o bf h outbox names s ≡ some after
  keeps : Kept s.queue after.queue
  takes :
      (path : Text)
      → Present path s.delivery.files
      → Gone path after.delivery.files
      → Taken o bf h outbox names s path after.queue

abbrev pub scan_start : State → Option Queue → ScanState
scan_start delivery queue = record { delivery = delivery; queue = queue; results = []; errs = [] }
