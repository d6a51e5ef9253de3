-- ===== src/Tests/Improving.antt =====
-- Corrections, and the inboxes that they are narrowed to.
use phonewave.Prelude.{
  ℕ, arith, ◌≡◌, refl, ◌↔◌, Bool, true, false, not, ◌&&◌, Option, none, some, List, [], ◌∷◌, Text,
  codes, ◌==◌, In, Dict, if◌then◌else◌, pos, lookup,
}
use phonewave.Improvement.{
  CorrectionMetadata, no_correction, correction_metadata_from_map, is_improvement,
  forward_for_recheck, consumer_schema_version, preferred_improvement_target_agent,
  default_improvement_target_agent, outcome_escalated, is_denied, select_delivery_inboxes,
  kind_design_feedback, parse_improvement_history, format_improvement_history,
}
use phonewave.Improvement.Narrowing.{Narrowed, OfTargets, is_of_agent, select_delivery_inboxes_iff}
use phonewave.Improvement.{append_improvement_history, normalize_improvement_history}
use phonewave.Improvement.Vocabulary.{forward_for_recheck-agent}
use phonewave.Improvement.{apply}
use phonewave.Improvement.Snapshots.{of_snapshot, from_map-apply_metadata}
use phonewave.Provider.{ProviderStateSnapshot, active_provider_state, state_waiting, apply_metadata}

abbrev siren : Text
siren = codes "/r/sightjack/.siren/inbox"

abbrev expedition : Text
expedition = codes "/r/paintress/.expedition/inbox"

-- The table of lower cases is the identity here.
abbrev same : ℕ → ℕ
same c = c

abbrev correction : CorrectionMetadata
correction = record no_correction { target_agent = codes "sightjack"; severity = codes "high" }

-- Legacy histories are separated by commas; neighbours that are equal are merged.
legacy : parse_improvement_history (codes " a, a,b ") ≡ codes "a" ∷ codes "b" ∷ []
unfolding parse_improvement_history ◌==◌ phonewave.Prelude.trim_space phonewave.Prelude.split_on
    phonewave.Prelude.has_rune phonewave.Improvement.append_improvement_history
legacy = refl

printed : format_improvement_history (codes "a" ∷ codes " a" ∷ codes "b" ∷ []) ≡ codes "a>b"
unfolding format_improvement_history phonewave.Prelude.join_with
    phonewave.Improvement.normalize_improvement_history
    phonewave.Improvement.append_improvement_history ◌==◌ phonewave.Prelude.trim_space
printed = refl

select_delivery_inboxes_iff_example :
    (In siren
        (select_delivery_inboxes same kind_design_feedback (siren ∷ expedition ∷ []) [] correction)
      ↔ Narrowed
          (OfTargets (siren ∷ expedition ∷ []) [])
          (is_of_agent (preferred_improvement_target_agent same kind_design_feedback correction))
          siren)
    × (In siren (siren ∷ expedition ∷ [])
        → (y : Text) × In y (
            select_delivery_inboxes same kind_design_feedback
              (siren ∷ expedition ∷ [])
              []
              correction))
select_delivery_inboxes_iff_example =
    select_delivery_inboxes_iff same kind_design_feedback (siren ∷ expedition ∷ []) [] correction
      siren

forward_for_recheck-agent_example :
    (preferred_improvement_target_agent same kind_design_feedback (forward_for_recheck correction)
      ≡ (if is_improvement correction
            && (not (correction.outcome == outcome_escalated)
                && not (is_denied correction.retry_allowed))
          then default_improvement_target_agent kind_design_feedback
          else []))
    × (forward_for_recheck (forward_for_recheck correction) ≡ forward_for_recheck correction)
    × (consumer_schema_version (forward_for_recheck correction)
        ≡ consumer_schema_version correction)
forward_for_recheck-agent_example = forward_for_recheck-agent same kind_design_feedback correction

abbrev recurring : CorrectionMetadata
recurring = record correction {
  severity = codes "HIGH";
  routing_history = codes "a" ∷ codes "b" ∷ [];
  recurrence_count = pos 12;
  retry_allowed = some false;
}

-- It is written with its severity in lower case, and with its history joined.
written_severity : lookup (codes "severity") (apply same recurring []) ≡ some (codes "high")
unfolding apply phonewave.Improvement.normalize_severity lookup phonewave.Prelude.insert ◌==◌
    phonewave.Prelude.to_lower phonewave.Prelude.one_of phonewave.Prelude.lower_rune
written_severity = refl

-- A time is written as "T" here.
abbrev waiting : ProviderStateSnapshot
waiting = record active_provider_state { state = codes "Waiting"; resume_at = some 5 }

from_map-apply_metadata_example :
    (correction_metadata_from_map same (apply_metadata same (λ t. codes "T") waiting [])
      ≡ of_snapshot same (λ t. codes "T") waiting)
    × (is_improvement
          (correction_metadata_from_map same (apply_metadata same (λ t. codes "T") waiting []))
        ≡ false)
from_map-apply_metadata_example =
    from_map-apply_metadata same (λ t. codes "T") waiting
      (unfold phonewave.Provider.active_provider_state in omega arith)
