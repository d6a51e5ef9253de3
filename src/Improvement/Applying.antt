-- ===== src/Improvement/Applying.antt =====
-- CorrectionMetadata.Apply and its ImprovementEvent. The copy of the map is the map itself.
use phonewave.Prelude.{
  ℕ, zero, suc, Bool, true, false, not, ◌||◌, Option, none, some, List, [], ◌∷◌, Text, codes, ◌==◌,
  if◌then◌else◌, is_empty, Dict, ℤ, pos, negsuc,
}
use phonewave.Prelude.Decimal.{itoa, format_bool}
use phonewave.Prelude.Assign.{assign_all}
use phonewave.Provider.{normalize_provider_state}
use phonewave.Improvement.Defs.{
  CorrectionMetadata, is_set, is_positive, improvement_schema_version, normalize_severity,
  normalize_routing_mode,
}
use phonewave.Improvement.History.{format_improvement_history}

-- The value that a condition guards.
abbrev pub guarded : Bool → Text → Option Text
guarded test value = if test then some value else none

abbrev pub is_zero : ℤ → Bool
is_zero (pos zero) = true
is_zero (pos (suc n)) = false
is_zero (negsuc n) = false

abbrev pub format_optional : Option Bool → Option Text
format_optional none = none
format_optional (some b) = some (format_bool b)

abbrev pub version_or_default : Text → Text
version_or_default version = if version == [] then improvement_schema_version else version

-- m.ProviderState != "" || ...: some field of the provider is set.
abbrev pub has_provider : CorrectionMetadata → Bool
has_provider m =
    is_set m.provider_state
    || (is_set m.provider_reason
        || (not (is_zero m.provider_retry_budget)
            || (is_set m.provider_resume_at || is_set m.provider_resume_when)))

-- The assignments of Apply, in their order, each with the value that its condition lets through.
unfoldable pub assignments : (ℕ → ℕ) → CorrectionMetadata → List (Text × Option Text)
assignments wide m =
    (codes "improvement_schema_version", some (version_or_default m.schema_version))
    ∷ (codes "failure_type", guarded (is_set m.failure_type) m.failure_type)
    ∷ (codes "severity", guarded (is_set m.severity) (normalize_severity wide m.severity))
    ∷ (codes "secondary_type", guarded (is_set m.secondary_type) m.secondary_type)
    ∷ (codes "target_agent", guarded (is_set m.target_agent) m.target_agent)
    ∷ (
      codes "routing_mode",
      guarded (is_set m.routing_mode) (normalize_routing_mode wide m.routing_mode),
    )
    ∷ (
      codes "routing_history",
      guarded (not (is_empty m.routing_history)) (format_improvement_history m.routing_history),
    )
    ∷ (
      codes "owner_history",
      guarded (not (is_empty m.owner_history)) (format_improvement_history m.owner_history),
    )
    ∷ (codes "recurrence_count", guarded (is_positive m.recurrence_count) (itoa m.recurrence_count))
    ∷ (codes "corrective_action", guarded (is_set m.corrective_action) m.corrective_action)
    ∷ (codes "retry_allowed", format_optional m.retry_allowed)
    ∷ (codes "escalation_reason", guarded (is_set m.escalation_reason) m.escalation_reason)
    ∷ (codes "correlation_id", guarded (is_set m.correlation_id) m.correlation_id)
    ∷ (codes "trace_id", guarded (is_set m.trace_id) m.trace_id)
    ∷ (
      codes "provider_state",
      guarded (is_set m.provider_state) (normalize_provider_state wide m.provider_state),
    )
    ∷ (codes "provider_reason", guarded (is_set m.provider_reason) m.provider_reason)
    ∷ (codes "provider_retry_budget", guarded (has_provider m) (itoa m.provider_retry_budget))
    ∷ (codes "provider_resume_at", guarded (is_set m.provider_resume_at) m.provider_resume_at)
    ∷ (codes "provider_resume_when", guarded (is_set m.provider_resume_when) m.provider_resume_when)
    ∷ (codes "outcome", guarded (is_set m.outcome) m.outcome)
    ∷ []

unfoldable pub apply : (ℕ → ℕ) → CorrectionMetadata → Dict Text → Dict Text
unfolding assignments assign_all
apply wide m meta = assign_all (assignments wide m) meta

-- A struct of the same fields, with names for JSON and YAML.
abbrev pub ImprovementEvent : Type 0
ImprovementEvent = CorrectionMetadata

-- The slices are copied.
unfoldable pub improvement_event : (ℕ → ℕ) → CorrectionMetadata → ImprovementEvent
improvement_event wide m = record m {
  schema_version = version_or_default m.schema_version;
  severity = normalize_severity wide m.severity;
  routing_mode = normalize_routing_mode wide m.routing_mode;
  provider_state = normalize_provider_state wide m.provider_state;
}
