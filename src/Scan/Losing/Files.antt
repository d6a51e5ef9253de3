-- ===== src/Scan/Losing/Files.antt =====
-- One name of a scan: a skip, a failed read, or a delivery.
use phonewave.Scan.Losing.Rounds.{QueuedFrom, Kept, Kept-refl, scan_content-Round}
use phonewave.Prelude.{
  ◌≡◌, refl, ◌⊎◌, inl, inr, Bool, true, false, Option, none, some, [], ◌∷◌, ◌++◌, Text, ◌==◌,
  Bool-cases, lookup,
}
use phonewave.FilePath.{join}
use phonewave.Bloom.{BloomFilter}
use phonewave.ErrorQueue.{Queue}
use phonewave.Delivery.Keeping.{Present}
use phonewave.Delivery.Removal.{Gone}
use phonewave.Daemon.{Options, Happening, entry_name}
use phonewave.Daemon.Handling.{FreshName, Delivered, Present-not-Gone}
use phonewave.Scan.Defs.{file_unread, ScanState, is_filtered, scan_content, scan_file}

-- What becomes of a file that a round removes: its content, which the file system held, is delivered,
-- or it is in the queue.
abbrev pub Fate : Options → Text → Text → ScanState → ScanState → Option Queue → Type 0
Fate o outbox name before after queue =
    (content : Text) × (lookup (join outbox name) before.delivery.files ≡ some content)
    × (Delivered o (join outbox name) content before.delivery after.delivery
        ⊎ QueuedFrom outbox name content queue)

-- The filter answers, without a panic.
abbrev pub Answers : Option BloomFilter → Type 0
Answers bf = (path : Text) → (answer : Bool) × (is_filtered bf path ≡ some answer)

pub record FileRound (o : Options) (bf : Option BloomFilter) (h : Happening) (outbox name : Text)
    (s : ScanState) : Type 0 where
  pub next : ScanState
  pub runs : scan_file o bf h outbox name s ≡ some next
  pub keeps : Kept s.queue next.queue
  pub others :
      (other : Text)
      → (other == join outbox name) ≡ false
      → Present other s.delivery.files
      → Present other next.delivery.files
  pub fate :
      Present (join outbox name) s.delivery.files
      → Gone (join outbox name) next.delivery.files
      → Fate o outbox name s next next.queue

pub file_round :
    (o : Options) (bf : Option BloomFilter) (h : Happening) (outbox name : Text) (s : ScanState)
    → Answers bf
    → ((kind : Text) → FreshName (entry_name h.stamp kind name) s.queue)
    → FileRound o bf h outbox name s
unfolding scan_file
file_round o bf h outbox name s answers fresh =
    let (answer, eq) = answers path in by_answer answer eq
  where
    path : Text
    path = join outbox name

    unread : ScanState
    unread = record s { errs = s.errs ++ file_unread path ∷ [] }

    same :
        (t : ScanState)
        → scan_file o bf h outbox name s ≡ some t
        → t.delivery.files ≡ s.delivery.files
        → t.queue ≡ s.queue
        → FileRound o bf h outbox name s
    same t runs files queue = record {
      next = t;
      runs = runs;
      keeps = rw queue (Kept-refl s.queue);
      others = λ other n p. rw files p;
      fate = λ p g. absurd (Present-not-Gone path s.delivery.files p (rw files at g));
    }

    by_file :
        (file : Option Text)
        → lookup path s.delivery.files ≡ file
        → is_filtered bf path ≡ some false
        → FileRound o bf h outbox name s
    by_file none eq f = same unread (rw (f, scan_file) (rw (eq, scan_file) refl)) refl refl
    by_file (some content) eq f = elim (Bool-cases h.readable) [
      | inr n ↦ same unread (rw (f, scan_file) (rw (eq, n, scan_file) refl)) refl refl
      | inl y ↦
          let round = scan_content-Round o h outbox name content s fresh in
          record {
            next = scan_content o h outbox name content s;
            runs = rw (f, scan_file) (rw (eq, y, scan_file) refl);
            keeps = round.keeps;
            others = round.others;
            fate = λ p g. (content, eq, round.fate p g);
          }
    ]

    by_answer : (answer : Bool) → is_filtered bf path ≡ some answer → FileRound o bf h outbox name s
    by_answer true eq = same s (rw (eq, scan_file) refl) refl refl
    by_answer false eq = by_file (lookup path s.delivery.files) refl eq
