-- ===== src/Improvement/Normal.antt =====
-- Normalizing a word of the vocabulary twice is normalizing it once.
use phonewave.Prelude.{
  ℕ, ◌≡◌, refl, ap, inl, inr, Bool-cases, List, [], ◌∷◌, arith, Text, ◌==◌, eq_iff, eq_cases,
  eq_refl, In, ◌⊎◌, one_of, to_lower,
}
use phonewave.Provider.{normalize_provider_state, provider_states}
use phonewave.Improvement.Defs.{
  normalize_severity, normalize_routing_mode, severities, routing_modes,
}

-- A constant is its own lower case.
module _ (wide : ℕ → ℕ) where
  one_of-cases :
      (cs : List Text) (t other : Text)
      → ((c : Text) × In c cs × (one_of cs t other ≡ c)) ⊎ (one_of cs t other ≡ other)
  unfolding one_of
  one_of-cases [] t other = inr refl
  one_of-cases (c ∷ cs) t other = elim (Bool-cases (c == t)) [
    | inl e ↦ inl (c, inl refl, rw e)
    | inr n ↦ elim (one_of-cases cs t other) [
      | inl (d, i, e) ↦ inl (d, inr i, rw n e)
      | inr o ↦ inr (rw n o)
    ]
  ]

  one_of-In : (cs : List Text) (t other : Text) → In t cs → one_of cs t other ≡ t
  unfolding one_of
  one_of-In [] t other h = absurd h
  one_of-In (c ∷ cs) t other h = elim (eq_cases c t) [
    | inl e ↦ rw e (rw (eq_refl t))
    | inr n ↦ elim h [
      | inl e ↦ absurd (ground (arith, n, e, eq_iff c t))
      | inr i ↦ rw n (one_of-In cs t other i)
    ]
  ]

  one_of-twice :
      (cs : List Text) (t : Text)
      → ((c : Text) → In c cs → to_lower wide c ≡ c)
      → one_of cs (to_lower wide (one_of cs (to_lower wide t) t)) (one_of cs (to_lower wide t) t)
        ≡ one_of cs (to_lower wide t) t
  one_of-twice cs t lower = elim (one_of-cases cs (to_lower wide t) t) [
    | inl (c, i, e) ↦ rw (e, lower c i) (one_of-In cs c c i)
    | inr o ↦ ap (λ x. one_of cs (to_lower wide x) x) o
  ]

  pub severity-twice :
      (t : Text) → normalize_severity wide (normalize_severity wide t) ≡ normalize_severity wide t
  unfolding normalize_severity to_lower
  severity-twice t = one_of-twice severities t (λ c h. elim h [
    | inl e ↦ rw e refl
    | inr (inl e) ↦ rw e refl
    | inr (inr (inl e)) ↦ rw e refl
    | inr (inr (inr none_left)) ↦ absurd none_left
  ])

  pub mode-twice :
      (t : Text)
      → normalize_routing_mode wide (normalize_routing_mode wide t) ≡ normalize_routing_mode wide t
  unfolding normalize_routing_mode to_lower
  mode-twice t = one_of-twice routing_modes t (λ c h. elim h [
    | inl e ↦ rw e refl
    | inr (inl e) ↦ rw e refl
    | inr (inr (inl e)) ↦ rw e refl
    | inr (inr (inr none_left)) ↦ absurd none_left
  ])

  pub state-twice :
      (t : Text)
      → normalize_provider_state wide (normalize_provider_state wide t)
        ≡ normalize_provider_state wide t
  unfolding normalize_provider_state to_lower
  state-twice t = one_of-twice provider_states t (λ c h. elim h [
    | inl e ↦ rw e refl
    | inr (inl e) ↦ rw e refl
    | inr (inr (inl e)) ↦ rw e refl
    | inr (inr (inr (inl e))) ↦ rw e refl
    | inr (inr (inr (inr none_left))) ↦ absurd none_left
  ])
