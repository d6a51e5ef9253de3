-- ===== src/Improvement/Targets.antt =====
-- The choice of inboxes: FilterInboxes..., PreferredImprovementTargetAgent, SelectDeliveryInboxes.
use phonewave.Prelude.{
  ℕ, Bool, false, not, ◌||◌, Option, none, some, List, [], ◌∷◌, Text, codes, ◌==◌, contains,
  split_on, if◌then◌else◌, is_empty,
}
use phonewave.FilePath.{clean, slash}
use phonewave.Improvement.Defs.{
  CorrectionMetadata, is_improvement, is_set, normalize_routing_mode, routing_mode_retry,
  outcome_escalated,
}

abbrev pub kind_design_feedback : Text
kind_design_feedback = codes "design-feedback"

abbrev pub kind_impl_feedback : Text
kind_impl_feedback = codes "implementation-feedback"

unfoldable pub inbox_matches_target_agent : Text → Text → Bool
inbox_matches_target_agent inbox target_agent = contains (split_on slash (clean inbox)) target_agent

-- Some target is matched.
unfoldable pub matches_any : List Text → Text → Bool
matches_any [] inbox = false
matches_any (target ∷ targets) inbox =
    inbox_matches_target_agent inbox target || matches_any targets inbox

unfoldable pub filter_inboxes : (Text → Bool) → List Text → List Text
filter_inboxes test [] = []
filter_inboxes test (inbox ∷ inboxes) =
    let rest = filter_inboxes test inboxes in if test inbox then inbox ∷ rest else rest

unfoldable pub filter_inboxes_by_target_agent : List Text → Text → List Text
unfolding filter_inboxes
filter_inboxes_by_target_agent inboxes target_agent =
    if target_agent == []
    then []
    else filter_inboxes (λ inbox. inbox_matches_target_agent inbox target_agent) inboxes

unfoldable pub filter_inboxes_by_targets : List Text → List Text → List Text
unfolding matches_any filter_inboxes
filter_inboxes_by_targets inboxes targets =
    if is_empty targets then [] else filter_inboxes (matches_any targets) inboxes

unfoldable pub default_improvement_target_agent : Text → Text
default_improvement_target_agent kind =
    if kind == kind_design_feedback
    then codes "sightjack"
    else if kind == kind_impl_feedback
    then codes "paintress"
    else []

-- *meta.RetryAllowed is false
abbrev pub is_denied : Option Bool → Bool
is_denied none = false
is_denied (some allowed) = not allowed

unfoldable pub preferred_improvement_target_agent : (ℕ → ℕ) → Text → CorrectionMetadata → Text
unfolding default_improvement_target_agent
preferred_improvement_target_agent wide kind m =
    if is_set m.target_agent
    then m.target_agent
    else if not (is_improvement m)
    then []
    else if m.outcome == outcome_escalated
    then []
    else if is_denied m.retry_allowed
    then []
    else let mode = normalize_routing_mode wide m.routing_mode in
      if mode == [] || mode == routing_mode_retry then default_improvement_target_agent kind else []

-- The filtered inboxes, unless none is left.
abbrev pub narrow : List Text → List Text → List Text
narrow filtered selected = if is_empty filtered then selected else filtered

unfoldable pub select_delivery_inboxes :
    (ℕ → ℕ) → Text → List Text → List Text → CorrectionMetadata → List Text
select_delivery_inboxes wide kind inboxes targets metadata =
    let selected = narrow (filter_inboxes_by_targets inboxes targets) inboxes in
    narrow
      (filter_inboxes_by_target_agent selected
        (preferred_improvement_target_agent wide kind metadata))
      selected
