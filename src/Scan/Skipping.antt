-- ===== src/Scan/Skipping.antt =====
-- What a scan has delivered is skipped from then on.
use phonewave.Prelude.{◌≡◌, refl, ◌≢◌, ◌⊎◌, inl, inr, some, List, [], ◌∷◌, Text}
use phonewave.FilePath.{join}
use phonewave.Bloom.{BloomFilter}
use phonewave.Bloom.Members.{Represents, Represents-weaken, add_key-Represents}
use phonewave.Delivery.{DeliveryResult}
use phonewave.Daemon.{Options, Happening}
use phonewave.Scan.Defs.{ScanState, is_filtered, scan_file, mark_delivered}

-- A result of the list says that the file reached an inbox.
abbrev pub Reached : List DeliveryResult → Text → Type 0
Reached [] path = ⊥
Reached (r ∷ results) path = ((path ≡ r.source_path) × (r.delivered_to ≢ [])) ⊎ Reached results path

-- The results given, and a set.
abbrev Marks : List DeliveryResult → (Text → Type 0) → BloomFilter → Type 0
Marks results set bf =
    (after : BloomFilter) × (mark_delivered results bf ≡ some after)
    × Represents (λ path. Reached results path ⊎ set path) after

mark_first :
    (r : DeliveryResult) (results : List DeliveryResult) (set : Text → Type 0) (bf : BloomFilter)
    → Represents set bf
    → ((set' : Text → Type 0) (bf' : BloomFilter) → Represents set' bf' → Marks results set' bf')
    → Marks (r ∷ results) set bf
unfolding mark_delivered
mark_first r results set bf rep later = by_targets r.delivered_to refl
  where
    skipped :
        r.delivered_to ≡ []
        → (path : Text) → Reached (r ∷ results) path ⊎ set path
        → Reached results path ⊎ set path
    skipped eq path (inl (inl (e, ne))) = absurd (ne eq)
    skipped eq path (inl (inr i)) = inl i
    skipped eq path (inr k) = inr k

    regroup :
        (path : Text)
        → Reached (r ∷ results) path ⊎ set path
        → Reached results path ⊎ ((path ≡ r.source_path) ⊎ set path)
    regroup path (inl (inl (e, ne))) = inr (inl e)
    regroup path (inl (inr i)) = inl i
    regroup path (inr k) = inr (inr k)

    whole : Text → Type 0
    whole path = Reached (r ∷ results) path ⊎ set path

    by_targets : (targets : List Text) → r.delivered_to ≡ targets → Marks (r ∷ results) set bf
    by_targets [] eq =
        let (after, ends, rep') = later set bf rep in
        (
          after,
          rw (eq, mark_delivered) ends,
          Represents-weaken (λ path. Reached results path ⊎ set path) whole after (skipped eq) rep',
        )
    by_targets (t ∷ ts) eq =
        let (bf', added, rep') = add_key-Represents r.source_path set bf rep in
        let (after, ends, rep'') = later (λ path. (path ≡ r.source_path) ⊎ set path) bf' rep' in
        (
          after,
          rw (eq, mark_delivered) (rw added ends),
          Represents-weaken (λ path. Reached results path ⊎ ((path ≡ r.source_path) ⊎ set path))
              whole after regroup rep'',
        )

mark_delivered-Represents :
    (results : List DeliveryResult) (set : Text → Type 0) (bf : BloomFilter)
    → Represents set bf
    → Marks results set bf
unfolding mark_delivered
mark_delivered-Represents [] set bf r =
    (bf, refl, Represents-weaken set (λ path. ⊥ ⊎ set path) bf (λ path k. second k) r)
  where
    second : {path : Text} → ⊥ ⊎ set path → set path
    second (inl e) = absurd e
    second (inr k) = k
mark_delivered-Represents (r ∷ results) set bf rep =
    mark_first r results set bf rep
      (λ set' bf' rep'. mark_delivered-Represents results set' bf' rep')

-- The results of a scan are added to the filter without a panic; and from then on a round of a scan,
-- at whichever time and in whichever state, leaves everything as it is if its file is one that a
-- result of the list says has reached an inbox, or one that was in the filter before. The filter
-- must answer without a panic before, as one with room for all its positions does.
pub mark_delivered-scan_file :
    (results : List DeliveryResult) (set : Text → Type 0) (bf : BloomFilter)
    → Represents set bf
    → (after : BloomFilter) × (mark_delivered results bf ≡ some after)
      × ((o : Options) (h : Happening) (outbox name : Text) (s : ScanState)
          → Reached results (join outbox name) ⊎ set (join outbox name)
          → scan_file o (some after) h outbox name s ≡ some s)
unfolding scan_file is_filtered
mark_delivered-scan_file results set bf rep =
    let (after, ends, (room, found, total)) = mark_delivered-Represents results set bf rep in
    (after, ends, λ o h outbox name s k. rw (found (join outbox name) k, scan_file) refl)
