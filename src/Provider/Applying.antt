-- ===== src/Provider/Applying.antt =====
-- ProviderStateSnapshot.ApplyMetadata. The copy of the map is the map itself; `rfc3339` is
-- time.Time.Format in UTC.
use phonewave.Prelude.{
  ℕ, Option, none, some, List, [], ◌∷◌, Text, codes, ◌==◌, if◌then◌else◌, Dict, pos,
}
use phonewave.Prelude.Assign.{assign_all}
use phonewave.Prelude.Decimal.{itoa}
use phonewave.Provider.Defs.{ProviderStateSnapshot, state_active, normalize_provider_state}

abbrev pub nonempty : Text → Option Text
nonempty t = if t == [] then none else some t

abbrev pub format_time : (ℕ → Text) → Option ℕ → Option Text
format_time rfc3339 none = none
format_time rfc3339 (some at) = some (rfc3339 at)

unfoldable pub snapshot_assignments :
    (ℕ → ℕ) → (ℕ → Text) → ProviderStateSnapshot → List (Text × Option Text)
snapshot_assignments wide rfc3339 s =
    (
      codes "provider_state",
      some (if s.state == [] then state_active else normalize_provider_state wide s.state),
    )
    ∷ (codes "provider_retry_budget", some (itoa (pos s.retry_budget)))
    ∷ (codes "provider_reason", nonempty s.reason)
    ∷ (codes "provider_resume_at", format_time rfc3339 s.resume_at)
    ∷ (codes "provider_resume_when", nonempty s.resume_condition)
    ∷ []

unfoldable pub apply_metadata : (ℕ → ℕ) → (ℕ → Text) → ProviderStateSnapshot → Dict Text → Dict Text
unfolding snapshot_assignments assign_all
apply_metadata wide rfc3339 s meta = assign_all (snapshot_assignments wide rfc3339 s) meta
