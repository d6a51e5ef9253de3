-- ===== src/Provider/Defs.antt =====
-- ProviderStateSnapshot and the vocabulary of provider states.
use phonewave.Prelude.{
  ℕ, Bool, Option, none, List, [], ◌∷◌, Text, codes, contains, to_lower, one_of,
}

abbrev pub state_active : Text
state_active = codes "active"

abbrev pub state_waiting : Text
state_waiting = codes "waiting"

abbrev pub state_degraded : Text
state_degraded = codes "degraded"

abbrev pub state_paused : Text
state_paused = codes "paused"

abbrev pub reason_probe : Text
reason_probe = codes "probe"

abbrev pub reason_delivery_retry_backoff : Text
reason_delivery_retry_backoff = codes "delivery_retry_backoff"

abbrev pub resume_provider_available : Text
resume_provider_available = codes "provider-available"

abbrev pub resume_backoff_elapses : Text
resume_backoff_elapses = codes "backoff-elapses"

abbrev pub resume_provider_reset : Text
resume_provider_reset = codes "provider-reset-window"

abbrev pub resume_probe_succeeds : Text
resume_probe_succeeds = codes "probe-succeeds"

-- `resume_at` is none for the zero time.
pub record ProviderStateSnapshot : Type 0 where
  pub state : Text
  pub reason : Text
  pub retry_budget : ℕ
  pub resume_at : Option ℕ
  pub resume_condition : Text

abbrev pub provider_states : List Text
provider_states = state_active ∷ state_waiting ∷ state_degraded ∷ state_paused ∷ []

unfoldable pub normalize_provider_state : (ℕ → ℕ) → Text → Text
normalize_provider_state wide state = one_of provider_states (to_lower wide state) state

unfoldable pub is_known_provider_state : (ℕ → ℕ) → Text → Bool
is_known_provider_state wide state = contains provider_states (normalize_provider_state wide state)

unfoldable pub active_provider_state : ProviderStateSnapshot
active_provider_state = record {
  state = state_active;
  reason = [];
  retry_budget = 1;
  resume_at = none;
  resume_condition = resume_provider_available;
}
