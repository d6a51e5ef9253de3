-- ===== src/Improvement/Policy.antt =====
-- internal/domain/routing_policy.go. A map of the code is an association list.
use phonewave.Prelude.{
  ℕ, ◌≡◌, inl, inr, Bool-cases, [], ◌∷◌, Text, codes, ◌==◌, if◌then◌else◌, Dict, lookup, get_or,
}
use phonewave.Improvement.Defs.{normalize_severity, severity_high}

pub record RoutingPolicy : Type 0 where
  pub recurrence_threshold : ℕ
  pub severity_action_map : Dict Text
  pub target_agent_map : Dict Text

abbrev escalate : Text
escalate = codes "escalate"

abbrev retry : Text
retry = codes "retry"

abbrev sightjack : Text
sightjack = codes "sightjack"

abbrev paintress : Text
paintress = codes "paintress"

unfoldable pub default_routing_policy : RoutingPolicy
default_routing_policy = record {
  recurrence_threshold = 2;
  severity_action_map =
      (severity_high, escalate) ∷ (codes "medium", retry) ∷ (codes "low", retry) ∷ [];
  target_agent_map =
      (codes "scope_violation", sightjack)
      ∷ (codes "missing_acceptance_criteria", sightjack)
      ∷ (codes "execution_failure", paintress)
      ∷ (codes "provider_failure", paintress)
      ∷ (codes "routing_failure", paintress)
      ∷ [];
}

unfoldable pub lookup_severity_action : (ℕ → ℕ) → RoutingPolicy → Text → Text
lookup_severity_action wide p severity =
    get_or retry (lookup (normalize_severity wide severity) p.severity_action_map)

unfoldable pub lookup_target_agent : RoutingPolicy → Text → Text
lookup_target_agent p failure_type = get_or [] (lookup failure_type p.target_agent_map)

-- By default a correction escalates exactly if its severity is high, in any case of its letters.
pub default-severity_action :
    (wide : ℕ → ℕ) (severity : Text)
    → lookup_severity_action wide default_routing_policy severity
      ≡ (if severity_high == normalize_severity wide severity then escalate else retry)
unfolding lookup_severity_action default_routing_policy lookup
default-severity_action wide severity =
    elim (Bool-cases (severity_high == normalize_severity wide severity)) [
      | inl e ↦ rw e
      | inr n ↦ rw n (elim (Bool-cases (codes "medium" == normalize_severity wide severity)) [
        | inl e ↦ rw e
        | inr m ↦ rw m (elim (Bool-cases (codes "low" == normalize_severity wide severity)) [
          | inl e ↦ rw e
          | inr l ↦ rw l
        ])
      ])
    ]
