-- ===== src/Improvement/Snapshots.antt =====
-- A snapshot of the provider state, read as the metadata of a correction.
use phonewave.Prelude.{
  ℕ, ◌≡◌, refl, ◌∙◌, ap, inl, inr, false, Bool-cases, Option, none, some, [], ◌<◌, ◌^◌, Text, codes,
  ◌==◌, eq_cases, if◌then◌else◌, get_or, pos, one_of, to_lower, trim_space,
}
use phonewave.Prelude.Assign.{over, written, lookup-assigned}
use phonewave.Prelude.Decimal.{itoa, atoi-itoa, itoa-set}
use phonewave.Provider.{
  ProviderStateSnapshot, state_active, normalize_provider_state, nonempty, format_time,
  snapshot_assignments, apply_metadata,
}
use phonewave.Improvement.Defs.{
  CorrectionMetadata, no_correction, is_improvement, field, read_fields,
  correction_metadata_from_map, normalize_severity, normalize_routing_mode,
  normalize_improvement_outcome,
}
use phonewave.Improvement.History.{parse_improvement_history}
use phonewave.Improvement.Normal.{state-twice}
use phonewave.Improvement.Reading.{from_map-read}

field-snapshot :
    (wide : ℕ → ℕ) (rfc3339 : ℕ → Text) (s : ProviderStateSnapshot) (key : Text) (o : Option Text)
    → written key (snapshot_assignments wide rfc3339 s) none ≡ over o none
    → field (apply_metadata wide rfc3339 s []) key ≡ get_or [] o
unfolding apply_metadata
field-snapshot wide rfc3339 s key o h =
    ap (get_or []) (lookup-assigned key o (snapshot_assignments wide rfc3339 s) h)

nonempty-back : (t : Text) → get_or [] (nonempty t) ≡ t
nonempty-back t = elim (eq_cases t []) [ inl e ↦ rw e (unfold ◌==◌ in refl) | inr n ↦ rw n ]

-- The state that is written: active where none is set.
unfoldable pub written_state : (ℕ → ℕ) → ProviderStateSnapshot → Text
written_state wide s = if s.state == [] then state_active else normalize_provider_state wide s.state

written_state-normal :
    (wide : ℕ → ℕ) (s : ProviderStateSnapshot)
    → normalize_provider_state wide (written_state wide s) ≡ written_state wide s
unfolding written_state
written_state-normal wide s = elim (Bool-cases (s.state == [])) [
  | inl e ↦ rw e (unfold normalize_provider_state to_lower one_of ◌==◌ in refl)
  | inr n ↦ rw n (state-twice wide s.state)
]

-- A correction that has a provider state and nothing else.
unfoldable pub of_snapshot : (ℕ → ℕ) → (ℕ → Text) → ProviderStateSnapshot → CorrectionMetadata
of_snapshot wide rfc3339 s = record no_correction {
  provider_state = written_state wide s;
  provider_reason = s.reason;
  provider_retry_budget = pos s.retry_budget;
  provider_resume_at = get_or [] (format_time rfc3339 s.resume_at);
  provider_resume_when = s.resume_condition;
}

of_snapshot-not_improvement :
    (wide : ℕ → ℕ) (rfc3339 : ℕ → Text) (s : ProviderStateSnapshot)
    → is_improvement (of_snapshot wide rfc3339 s) ≡ false
unfolding of_snapshot is_improvement ◌==◌
of_snapshot-not_improvement wide rfc3339 s = refl

from_map-snapshot :
    (wide : ℕ → ℕ) (rfc3339 : ℕ → Text) (s : ProviderStateSnapshot)
    → s.retry_budget < 2 ^ 63
    → correction_metadata_from_map wide (apply_metadata wide rfc3339 s [])
      ≡ of_snapshot wide rfc3339 s
unfolding snapshot_assignments written_state ◌==◌ read_fields of_snapshot normalize_severity
    normalize_routing_mode normalize_improvement_outcome to_lower one_of parse_improvement_history
    trim_space
from_map-snapshot wide rfc3339 s budget =
    from_map-read wide (apply_metadata wide rfc3339 s [])
    ∙ rw
        (
          field-snapshot wide rfc3339 s (codes "improvement_schema_version") none refl,
          field-snapshot wide rfc3339 s (codes "failure_type") none refl,
          field-snapshot wide rfc3339 s (codes "severity") none refl,
          field-snapshot wide rfc3339 s (codes "secondary_type") none refl,
          field-snapshot wide rfc3339 s (codes "target_agent") none refl,
          field-snapshot wide rfc3339 s (codes "routing_mode") none refl,
          field-snapshot wide rfc3339 s (codes "routing_history") none refl,
          field-snapshot wide rfc3339 s (codes "owner_history") none refl,
          field-snapshot wide rfc3339 s (codes "recurrence_count") none refl,
          field-snapshot wide rfc3339 s (codes "corrective_action") none refl,
          field-snapshot wide rfc3339 s (codes "retry_allowed") none refl,
          field-snapshot wide rfc3339 s (codes "escalation_reason") none refl,
          field-snapshot wide rfc3339 s (codes "correlation_id") none refl,
          field-snapshot wide rfc3339 s (codes "trace_id") none refl,
          field-snapshot wide rfc3339 s (codes "outcome") none refl,
          field-snapshot wide rfc3339 s (codes "provider_state") (some (written_state wide s)) refl,
          field-snapshot wide rfc3339 s (codes "provider_reason") (nonempty s.reason) refl,
          field-snapshot wide rfc3339 s (codes "provider_retry_budget")
              (some (itoa (pos s.retry_budget))) refl,
          field-snapshot wide rfc3339 s (codes "provider_resume_at")
              (format_time rfc3339 s.resume_at) refl,
          field-snapshot wide rfc3339 s (codes "provider_resume_when") (nonempty s.resume_condition)
              refl,
          written_state-normal wide s,
          nonempty-back s.reason,
          nonempty-back s.resume_condition,
          itoa-set (pos s.retry_budget),
          atoi-itoa (pos s.retry_budget) budget,
        )
        refl

-- The metadata of a provider state is read back as a correction that has the state, active where none
-- is set, its reason, its budget, its time and its condition and nothing else, and that does not count
-- as an improvement. The budget is an int of 64 bits.
pub from_map-apply_metadata :
    (wide : ℕ → ℕ) (rfc3339 : ℕ → Text) (s : ProviderStateSnapshot)
    → s.retry_budget < 2 ^ 63
    → (correction_metadata_from_map wide (apply_metadata wide rfc3339 s [])
        ≡ of_snapshot wide rfc3339 s)
      × (is_improvement (correction_metadata_from_map wide (apply_metadata wide rfc3339 s []))
          ≡ false)
from_map-apply_metadata wide rfc3339 s budget =
    let e = from_map-snapshot wide rfc3339 s budget in
    (e, ap is_improvement e ∙ of_snapshot-not_improvement wide rfc3339 s)
