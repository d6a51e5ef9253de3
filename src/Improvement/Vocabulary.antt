-- ===== src/Improvement/Vocabulary.antt =====
-- Forwarded corrections.
use phonewave.Prelude.{
  ℕ, ◌≡◌, refl, sym, ap, ◌∙◌, inl, inr, true, false, not, ◌&&◌, [], arith, Text, ◌==◌, eq_iff,
  Bool-cases, if◌then◌else◌, one_of, to_lower,
}
use phonewave.Improvement.Defs.{
  CorrectionMetadata, is_improvement, forward_for_recheck, consumer_schema_version,
  normalize_routing_mode, outcome_escalated, outcome_pending, improvement_schema_version,
}
use phonewave.Improvement.Targets.{
  preferred_improvement_target_agent, default_improvement_target_agent, is_denied,
}

no_mode : (wide : ℕ → ℕ) → normalize_routing_mode wide [] ≡ []
unfolding normalize_routing_mode to_lower one_of ◌==◌
no_mode wide = refl

forward-is_improvement :
    (m : CorrectionMetadata) → is_improvement (forward_for_recheck m) ≡ is_improvement m
unfolding forward_for_recheck
forward-is_improvement m = elim (Bool-cases (is_improvement m)) [
  | inr n ↦ rw n n
  | inl e ↦ rw e (elim (Bool-cases (m.schema_version == [])) [
    | inl s ↦ unfold is_improvement in rw s (unfold ◌==◌ in refl)
    | inr s ↦ unfold is_improvement in rw s (rw s)
  ])
]

not_escalated : (outcome_pending == outcome_escalated) ≡ false
unfolding ◌==◌
not_escalated = refl

set_one : (improvement_schema_version == []) ≡ false
unfolding ◌==◌
set_one = refl

none_is_none : ([] == []) ≡ true
unfolding ◌==◌
none_is_none = refl

pending_set : (outcome_pending == []) ≡ false
unfolding ◌==◌
pending_set = refl

-- A correction that sets none of the fields has no agent.
no_agent : (m : CorrectionMetadata) → is_improvement m ≡ false → (m.target_agent == []) ≡ true
unfolding is_improvement
no_agent m h = ground arith

-- The outcome after a forward: escalated exactly if it was.
forwarded_outcome :
    (m : CorrectionMetadata)
    → ((if m.outcome == [] then outcome_pending else m.outcome) == outcome_escalated)
      ≡ (m.outcome == outcome_escalated)
forwarded_outcome m = elim (Bool-cases (m.outcome == [])) [
  | inr n ↦ rw n
  | inl e ↦ rw e (not_escalated ∙ sym (rw ((eq_iff m.outcome []).0 e) (unfold ◌==◌ in refl)))
]

abbrev forwarded : CorrectionMetadata → CorrectionMetadata
forwarded m = record m {
  schema_version = if m.schema_version == [] then improvement_schema_version else m.schema_version;
  target_agent = [];
  routing_mode = [];
  outcome = if m.outcome == [] then outcome_pending else m.outcome;
}

forward-yes :
    (m : CorrectionMetadata) → is_improvement m ≡ true → forward_for_recheck m ≡ forwarded m
unfolding forward_for_recheck
forward-yes m e = rw e

forward-no : (m : CorrectionMetadata) → is_improvement m ≡ false → forward_for_recheck m ≡ m
unfolding forward_for_recheck
forward-no m e = rw e

improved : (m : CorrectionMetadata) → is_improvement m ≡ true → is_improvement (forwarded m) ≡ true
improved m e = ap is_improvement (sym (forward-yes m e)) ∙ forward-is_improvement m ∙ e

forwarded-agent :
    (wide : ℕ → ℕ) (kind : Text) (m : CorrectionMetadata)
    → is_improvement m ≡ true
    → preferred_improvement_target_agent wide kind (forwarded m) ≡ (
        if not (m.outcome == outcome_escalated) && not (is_denied m.retry_allowed)
        then default_improvement_target_agent kind
        else [])
unfolding preferred_improvement_target_agent
forwarded-agent wide kind m e =
    rw (none_is_none, improved m e, forwarded_outcome m, no_mode wide)
      (rw none_is_none (ground arith))

unforwarded-agent :
    (wide : ℕ → ℕ) (kind : Text) (m : CorrectionMetadata)
    → is_improvement m ≡ false
    → preferred_improvement_target_agent wide kind m ≡ []
unfolding preferred_improvement_target_agent
unforwarded-agent wide kind m e = rw (no_agent m e, e)

fixed-version :
    (t : Text)
    → (if (if t == [] then improvement_schema_version else t) == []
        then improvement_schema_version
        else (if t == [] then improvement_schema_version else t))
      ≡ (if t == [] then improvement_schema_version else t)
fixed-version t = elim (Bool-cases (t == [])) [ inl e ↦ rw e (rw set_one) | inr n ↦ rw n (rw n) ]

fixed-outcome :
    (t : Text)
    → (if (if t == [] then outcome_pending else t) == []
        then outcome_pending
        else (if t == [] then outcome_pending else t))
      ≡ (if t == [] then outcome_pending else t)
fixed-outcome t = elim (Bool-cases (t == [])) [
  | inl e ↦ rw e (rw pending_set)
  | inr n ↦ rw n (rw n)
]

forwarded-twice : (m : CorrectionMetadata) → forwarded (forwarded m) ≡ forwarded m
forwarded-twice m = rw (fixed-version m.schema_version, fixed-outcome m.outcome)

forwarded-version :
    (m : CorrectionMetadata)
    → is_improvement m ≡ true
    → consumer_schema_version (forwarded m) ≡ consumer_schema_version m
unfolding consumer_schema_version
forwarded-version m e =
    rw (improved m e, e)
      (elim (Bool-cases (m.schema_version == [])) [
        | inl s ↦ rw s (rw set_one)
        | inr n ↦ rw n (rw n)
      ])

-- A forwarded improvement goes to the default owner of its kind, unless it was escalated or no
-- retry is allowed; any other correction has no preferred agent after it. Forwarding
-- twice is forwarding once, and keeps the version that consumers see.
pub forward_for_recheck-agent :
    (wide : ℕ → ℕ) (kind : Text) (m : CorrectionMetadata)
    → (preferred_improvement_target_agent wide kind (forward_for_recheck m) ≡ (
        if is_improvement m
          && (not (m.outcome == outcome_escalated) && not (is_denied m.retry_allowed))
        then default_improvement_target_agent kind
        else []))
      × (forward_for_recheck (forward_for_recheck m) ≡ forward_for_recheck m)
      × (consumer_schema_version (forward_for_recheck m) ≡ consumer_schema_version m)
forward_for_recheck-agent wide kind m = elim (Bool-cases (is_improvement m)) [
  | inl e ↦
      rw (forward-yes m e, e)
        (
          forwarded-agent wide kind m e,
          forward-yes (forwarded m) (improved m e) ∙ forwarded-twice m,
          forwarded-version m e,
        )
  | inr n ↦ rw (forward-no m n, n) (unforwarded-agent wide kind m n, forward-no m n, refl)
]
