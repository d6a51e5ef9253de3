-- ===== src/Improvement/Defs.antt =====
-- CorrectionMetadata and its vocabulary. An argument `wide` is the table of unicode.ToLower from
-- 128 on. A *bool is an optional truth value.
use phonewave.Prelude.{
  ℕ, Bool, true, false, not, ◌&&◌, ◌||◌, Option, none, some, List, [], ◌∷◌, Text, codes, ◌==◌,
  contains, to_lower, one_of, if◌then◌else◌, is_empty, Dict, lookup, get_or, ℤ, pos, negsuc, atoi,
  parse_bool, ltb,
}
use phonewave.Provider.{normalize_provider_state, is_known_provider_state}
use phonewave.Improvement.History.{parse_improvement_history}

abbrev pub severity_high : Text
severity_high = codes "high"

abbrev pub severities : List Text
severities = codes "low" ∷ codes "medium" ∷ severity_high ∷ []

abbrev pub routing_mode_retry : Text
routing_mode_retry = codes "retry"

abbrev pub routing_modes : List Text
routing_modes = routing_mode_retry ∷ codes "reroute" ∷ codes "escalate" ∷ []

abbrev pub outcome_pending : Text
outcome_pending = codes "pending"

abbrev pub outcome_escalated : Text
outcome_escalated = codes "escalated"

abbrev pub improvement_outcomes : List Text
improvement_outcomes =
    outcome_pending
    ∷ codes "resolved"
    ∷ outcome_escalated
    ∷ codes "failed_again"
    ∷ codes "ignored"
    ∷ []

abbrev pub improvement_schema_version : Text
improvement_schema_version = codes "1"

pub record CorrectionMetadata : Type 0 where
  pub schema_version : Text
  pub failure_type : Text
  pub severity : Text
  pub secondary_type : Text
  pub target_agent : Text
  pub routing_mode : Text
  pub routing_history : List Text
  pub owner_history : List Text
  pub recurrence_count : ℤ
  pub corrective_action : Text
  pub retry_allowed : Option Bool
  pub escalation_reason : Text
  pub correlation_id : Text
  pub trace_id : Text
  pub provider_state : Text
  pub provider_reason : Text
  pub provider_retry_budget : ℤ
  pub provider_resume_at : Text
  pub provider_resume_when : Text
  pub outcome : Text

unfoldable pub normalize_severity : (ℕ → ℕ) → Text → Text
normalize_severity wide s = one_of severities (to_lower wide s) s

unfoldable pub is_known_severity : (ℕ → ℕ) → Text → Bool
is_known_severity wide s = contains severities (normalize_severity wide s)

unfoldable pub normalize_routing_mode : (ℕ → ℕ) → Text → Text
normalize_routing_mode wide mode = one_of routing_modes (to_lower wide mode) mode

unfoldable pub is_known_routing_mode : (ℕ → ℕ) → Text → Bool
is_known_routing_mode wide mode = contains routing_modes (normalize_routing_mode wide mode)

unfoldable pub normalize_improvement_outcome : (ℕ → ℕ) → Text → Text
normalize_improvement_outcome wide outcome =
    one_of improvement_outcomes (to_lower wide outcome) outcome

unfoldable pub is_known_improvement_outcome : (ℕ → ℕ) → Text → Bool
is_known_improvement_outcome wide outcome =
    contains improvement_outcomes (normalize_improvement_outcome wide outcome)

abbrev pub is_set : Text → Bool
is_set t = not (t == [])

abbrev pub is_positive : ℤ → Bool
is_positive (pos n) = ltb 0 n
is_positive (negsuc n) = false

abbrev pub is_some {ℓ} : {A : Type ℓ} → Option A → Bool
is_some none = false
is_some (some a) = true

unfoldable pub is_improvement : CorrectionMetadata → Bool
is_improvement m =
    is_set m.schema_version
    || (is_set m.failure_type
        || (is_set m.severity
            || (is_set m.secondary_type
                || (is_set m.target_agent
                    || (is_set m.routing_mode
                        || (not (is_empty m.routing_history)
                            || (not (is_empty m.owner_history)
                                || (is_positive m.recurrence_count
                                    || (is_set m.corrective_action
                                        || (is_some m.retry_allowed
                                            || (is_set m.escalation_reason
                                                || (is_set m.correlation_id
                                                    || (is_set m.trace_id
                                                        || is_set m.outcome)))))))))))))

unfoldable pub consumer_schema_version : CorrectionMetadata → Text
consumer_schema_version m =
    if is_set m.schema_version
    then m.schema_version
    else if is_improvement m
    then improvement_schema_version
    else []

unfoldable pub has_supported_vocabulary : (ℕ → ℕ) → CorrectionMetadata → Bool
has_supported_vocabulary wide m =
    (m.severity == [] || is_known_severity wide m.severity)
    && ((m.routing_mode == [] || is_known_routing_mode wide m.routing_mode)
        && ((m.provider_state == [] || is_known_provider_state wide m.provider_state)
            && (m.outcome == [] || is_known_improvement_outcome wide m.outcome)))

abbrev pub no_correction : CorrectionMetadata
no_correction = record {
  schema_version = [];
  failure_type = [];
  severity = [];
  secondary_type = [];
  target_agent = [];
  routing_mode = [];
  routing_history = [];
  owner_history = [];
  recurrence_count = pos 0;
  corrective_action = [];
  retry_allowed = none;
  escalation_reason = [];
  correlation_id = [];
  trace_id = [];
  provider_state = [];
  provider_reason = [];
  provider_retry_budget = pos 0;
  provider_resume_at = [];
  provider_resume_when = [];
  outcome = [];
}

-- meta[key], empty where it is missing
abbrev pub field : Dict Text → Text → Text
field meta key = get_or [] (lookup key meta)

-- A number, or 0 where there is none that can be read.
abbrev pub count_field : Dict Text → Text → ℤ
count_field meta key =
    if is_set (field meta key) then get_or (pos 0) (atoi (field meta key)) else pos 0

abbrev pub bool_field : Dict Text → Text → Option Bool
bool_field meta key = if is_set (field meta key) then parse_bool (field meta key) else none

-- The fields as the entries of the map give them.
unfoldable pub read_fields : (ℕ → ℕ) → Dict Text → CorrectionMetadata
read_fields wide meta = record {
  schema_version = field meta (codes "improvement_schema_version");
  failure_type = field meta (codes "failure_type");
  severity = normalize_severity wide (field meta (codes "severity"));
  secondary_type = field meta (codes "secondary_type");
  target_agent = field meta (codes "target_agent");
  routing_mode = normalize_routing_mode wide (field meta (codes "routing_mode"));
  routing_history = parse_improvement_history (field meta (codes "routing_history"));
  owner_history = parse_improvement_history (field meta (codes "owner_history"));
  recurrence_count = count_field meta (codes "recurrence_count");
  corrective_action = field meta (codes "corrective_action");
  retry_allowed = bool_field meta (codes "retry_allowed");
  escalation_reason = field meta (codes "escalation_reason");
  correlation_id = field meta (codes "correlation_id");
  trace_id = field meta (codes "trace_id");
  provider_state = normalize_provider_state wide (field meta (codes "provider_state"));
  provider_reason = field meta (codes "provider_reason");
  provider_retry_budget = count_field meta (codes "provider_retry_budget");
  provider_resume_at = field meta (codes "provider_resume_at");
  provider_resume_when = field meta (codes "provider_resume_when");
  outcome = normalize_improvement_outcome wide (field meta (codes "outcome"));
}

unfoldable pub correction_metadata_from_map : (ℕ → ℕ) → Dict Text → CorrectionMetadata
unfolding read_fields
correction_metadata_from_map wide [] = no_correction
correction_metadata_from_map wide (entry ∷ entries) = read_fields wide (entry ∷ entries)

unfoldable pub forward_for_recheck : CorrectionMetadata → CorrectionMetadata
forward_for_recheck m = if not (is_improvement m) then m else record m {
  schema_version = if m.schema_version == [] then improvement_schema_version else m.schema_version;
  target_agent = [];
  routing_mode = [];
  outcome = if m.outcome == [] then outcome_pending else m.outcome;
}
