-- ===== src/Improvement/Narrowing.antt =====
-- Which inboxes a delivery is narrowed to.
use phonewave.Prelude.{
  ℕ, ◌≡◌, refl, sym, ◌∙◌, ◌↔◌, ◌⊎◌, inl, inr, Bool, true, false, ◌&&◌, List, [], ◌∷◌, Text, ◌==◌,
  Bool-cases, is_empty, In,
}
use phonewave.Improvement.Defs.{CorrectionMetadata, is_set}
use phonewave.Improvement.Targets.{
  inbox_matches_target_agent, matches_any, filter_inboxes, filter_inboxes_by_target_agent,
  filter_inboxes_by_targets, preferred_improvement_target_agent, narrow, select_delivery_inboxes,
}

-- What is left of a choice: those that pass the test, or all if none does.
abbrev pub Narrowed : (Text → Type 0) → (Text → Bool) → Text → Type 0
Narrowed S test x = S x × (((y : Text) × S y × (test y ≡ true)) → test x ≡ true)

filter_inboxes_iff :
    (test : Text → Bool) (xs : List Text) (x : Text)
    → In x (filter_inboxes test xs) ↔ (In x xs × (test x ≡ true))
unfolding filter_inboxes
filter_inboxes_iff test [] x = (λ h. absurd h, λ h. h.0)
filter_inboxes_iff test (y ∷ ys) x = elim (Bool-cases (test y)) [
  | inl t ↦ rw t (
    λ h. elim h [
      | inl e ↦ (inl e, rw e t)
      | inr m ↦ let (at, p) = (filter_inboxes_iff test ys x).0 m in (inr at, p)
    ],
    λ (at, p). elim at [ inl e ↦ inl e | inr m ↦ inr ((filter_inboxes_iff test ys x).1 (m, p)) ],
  )
  | inr f ↦ rw f (
    λ h. let (at, p) = (filter_inboxes_iff test ys x).0 h in (inr at, p),
    λ (at, p). elim at [
      | inl e ↦ cc (sym (rw e at p) ∙ f)
      | inr m ↦ (filter_inboxes_iff test ys x).1 (m, p)
    ],
  )
]

-- A list is empty or has a first entry.
first : (xs : List Text) → (xs ≡ []) ⊎ ((x : Text) × In x xs × (is_empty xs ≡ false))
first [] = inl refl
first (x ∷ xs) = inr (x, inl refl, refl)

narrow_iff :
    (test : Text → Bool) (xs : List Text) (x : Text)
    → In x (narrow (filter_inboxes test xs) xs) ↔ Narrowed (λ y. In y xs) test x
narrow_iff test xs x = elim (first (filter_inboxes test xs)) [
  | inl e ↦
      rw e (
        λ at. (at, λ (y, m, p). absurd (rw e at (filter_inboxes_iff test xs y).1 (m, p))),
        λ h. h.0,
      )
  | inr (y, m, some_) ↦ rw some_ (
    λ h. let (at, p) = (filter_inboxes_iff test xs x).0 h in (at, λ _. p),
    λ (at, p).
        (filter_inboxes_iff test xs x).1 (
          at,
          p (y, ((filter_inboxes_iff test xs y).0 m).0, ((filter_inboxes_iff test xs y).0 m).1),
        ),
  )
]

matches_none : (xs : List Text) → filter_inboxes (matches_any []) xs ≡ []
unfolding filter_inboxes matches_any
matches_none [] = refl
matches_none (x ∷ xs) = matches_none xs

by_targets :
    (xs targets : List Text)
    → filter_inboxes_by_targets xs targets ≡ filter_inboxes (matches_any targets) xs
unfolding filter_inboxes_by_targets
by_targets xs [] = sym (matches_none xs)
by_targets xs (t ∷ ts) = refl

-- The inbox is one of an agent that is named.
abbrev pub is_of_agent : Text → Text → Bool
is_of_agent target_agent inbox =
    is_set target_agent && inbox_matches_target_agent inbox target_agent

filter_none :
    (test : Text → Bool)
    → ((y : Text) → test y ≡ false)
    → (xs : List Text) → filter_inboxes test xs ≡ []
unfolding filter_inboxes
filter_none test h [] = refl
filter_none test h (x ∷ xs) = rw (h x) (filter_none test h xs)

filter_same :
    (p q : Text → Bool)
    → ((y : Text) → p y ≡ q y)
    → (xs : List Text) → filter_inboxes p xs ≡ filter_inboxes q xs
unfolding filter_inboxes
filter_same p q h [] = refl
filter_same p q h (x ∷ xs) = rw (h x, filter_same p q h xs)

by_agent :
    (xs : List Text) (agent : Text)
    → filter_inboxes_by_target_agent xs agent ≡ filter_inboxes (is_of_agent agent) xs
unfolding filter_inboxes_by_target_agent
by_agent xs agent = elim (Bool-cases (agent == [])) [
  | inl e ↦ rw e (sym (filter_none (is_of_agent agent) (λ y. rw e) xs))
  | inr n ↦
      rw n
        (filter_same (λ y. inbox_matches_target_agent y agent) (is_of_agent agent) (λ y. rw n) xs)
]

-- The choice after the first of the two filters.
abbrev pub OfTargets : List Text → List Text → Text → Type 0
OfTargets inboxes targets = Narrowed (λ y. In y inboxes) (matches_any targets)

Narrowed-iff :
    (S T : Text → Type 0) (test : Text → Bool)
    → ((y : Text) → S y ↔ T y)
    → (x : Text) → Narrowed S test x ↔ Narrowed T test x
Narrowed-iff S T test h x = (
  λ (s, p). ((h x).0 s, λ (y, t, q). p (y, (h y).1 t, q)),
  λ (t, p). ((h x).1 t, λ (y, s, q). p (y, (h y).0 s, q)),
)

narrow-some :
    (test : Text → Bool) (xs : List Text) (x : Text)
    → In x xs
    → (y : Text) × In y (narrow (filter_inboxes test xs) xs)
narrow-some test xs x at = elim (first (filter_inboxes test xs)) [
  | inl e ↦ (x, rw e at)
  | inr (y, m, some_) ↦ (y, rw some_ m)
]

-- A delivery goes to those inboxes of the route that match one of the D-Mail's targets, or to all
-- of them if none does; and among these to those of the preferred agent, or to all if none
-- is. If the route has an inbox, one is chosen.
pub select_delivery_inboxes_iff :
    (wide : ℕ → ℕ) (kind : Text) (inboxes targets : List Text) (m : CorrectionMetadata) (x : Text)
    → (In x (select_delivery_inboxes wide kind inboxes targets m)
        ↔ Narrowed
            (OfTargets inboxes targets)
            (is_of_agent (preferred_improvement_target_agent wide kind m))
            x)
      × (In x inboxes → (y : Text) × In y (select_delivery_inboxes wide kind inboxes targets m))
unfolding select_delivery_inboxes
select_delivery_inboxes_iff wide kind inboxes targets m x =
    let agent = preferred_improvement_target_agent wide kind m in
    let selected = narrow (filter_inboxes (matches_any targets) inboxes) inboxes in
    rw (by_targets inboxes targets) (
      rw (by_agent selected agent) (
        (
          λ h.
              (Narrowed-iff (λ y. In y selected) (OfTargets inboxes targets) (is_of_agent agent)
                  (narrow_iff (matches_any targets) inboxes) x).0
                ((narrow_iff (is_of_agent agent) selected x).0 h),
          λ h. (narrow_iff (is_of_agent agent) selected x).1 (
              (Narrowed-iff (λ y. In y selected) (OfTargets inboxes targets) (is_of_agent agent)
                  (narrow_iff (matches_any targets) inboxes) x).1
                h),
        ),
        λ at.
            let (y, s) = narrow-some (matches_any targets) inboxes x at in
            narrow-some (is_of_agent agent) selected y s,
      ))
