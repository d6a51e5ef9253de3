-- ===== src/Improvement/Reading.antt =====
-- What CorrectionMetadataFromMap reads of a map that Apply wrote.
use phonewave.Prelude.{
  ℕ, ◌≡◌, refl, [], ◌∷◌, Text, ◌==◌, one_of, to_lower, if◌then◌else◌, Dict, lookup, trim_space, pos,
}
use phonewave.Provider.{normalize_provider_state}
use phonewave.Improvement.Defs.{
  CorrectionMetadata, is_positive, normalize_severity, normalize_routing_mode,
  normalize_improvement_outcome, read_fields, correction_metadata_from_map,
}
use phonewave.Improvement.History.{format_improvement_history, parse_improvement_history}
use phonewave.Improvement.Applying.{improvement_event}

-- Every field as a reader finds it after Apply: the version filled in, the vocabulary normalized, the
-- histories as they are written, no count of recurrences below 1, and no budget but with a provider.
unfoldable pub read_back : (ℕ → ℕ) → CorrectionMetadata → CorrectionMetadata
read_back wide m = record (improvement_event wide m) {
  routing_history = parse_improvement_history (format_improvement_history m.routing_history);
  owner_history = parse_improvement_history (format_improvement_history m.owner_history);
  recurrence_count = if is_positive m.recurrence_count then m.recurrence_count else pos 0;
  outcome = normalize_improvement_outcome wide m.outcome;
}

pub from_map-read :
    (wide : ℕ → ℕ) (meta : Dict Text)
    → correction_metadata_from_map wide meta ≡ read_fields wide meta
unfolding correction_metadata_from_map read_fields lookup normalize_severity normalize_routing_mode
    normalize_provider_state normalize_improvement_outcome to_lower one_of ◌==◌
    parse_improvement_history trim_space
from_map-read wide [] = refl
from_map-read wide (e ∷ es) = refl
