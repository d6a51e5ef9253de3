-- ===== src/EventStore/Grouping.antt =====
-- The grouping of events by their date.
use mathlib.Core.Path.{subst}
use phonewave.Prelude.{
  ℕ, ◌≡◌, refl, ap, ◌⊎◌, inl, inr, true, false, List, [], ◌∷◌, ◌++◌, Text, ◌==◌, Bool-cases, In,
  In-append_left, In-append_right, In-append_cases, Dict, lookup, insert, get_or,
}
use phonewave.EventStore.Events.{Event}
use phonewave.EventStore.Files.{group_by_date}

-- The event is in one of the groups.
abbrev pub Grouped : Dict (List Event) → Event → Type 0
Grouped groups e = (day : Text) × (events : List Event) × In (day, events) groups × In e events

Grouped-insert :
    (day : Text) (events : List Event) (groups : Dict (List Event)) (e : Event)
    → ((x : Event) → In x (get_or [] (lookup day groups)) → In x events)
    → Grouped groups e
    → Grouped (insert day events groups) e
unfolding insert lookup
Grouped-insert day events [] e sub (d, es, at, m) = absurd at
Grouped-insert day events ((k, old) ∷ groups) e sub (d, es, at, m) = elim (Bool-cases (k == day)) [
  | inl same ↦ rw same (first same at)
  | inr differ ↦ rw differ (later (λ sub' g. Grouped-insert day events groups e sub' g) differ at)
]
  where
    first : (k == day) ≡ true → In (d, es) ((k, old) ∷ groups) → Grouped ((day, events) ∷ groups) e
    first same (inr i) = (d, es, inr i, m)
    first same (inl eq) =
        (day, events, inl refl, sub e (rw same (subst (λ l. In e l) (ap (λ y. y.1) eq) m)))

    later :
        (((x : Event) → In x (get_or [] (lookup day groups)) → In x events)
          → Grouped groups e
          → Grouped (insert day events groups) e)
        → (k == day) ≡ false
        → In (d, es) ((k, old) ∷ groups)
        → Grouped ((k, old) ∷ insert day events groups) e
    later rec differ (inl eq) = (d, es, inl eq, m)
    later rec differ (inr i) =
        let (d', es', at', m') = rec (rw differ at sub) (d, es, i, m) in (d', es', inr at', m')

In-insert :
    (day : Text) (events : List Event) (groups : Dict (List Event)) (d : Text) (es : List Event)
    → In (d, es) (insert day events groups)
    → (es ≡ events) ⊎ In (d, es) groups
unfolding insert
In-insert day events [] d es (inl e) = inl (ap (λ y. y.1) e)
In-insert day events [] d es (inr e) = absurd e
In-insert day events ((k, old) ∷ groups) d es h = elim (Bool-cases (k == day)) [
  | inl same ↦ replaced (rw same at h)
  | inr differ ↦ kept (λ i. In-insert day events groups d es i) (rw differ at h)
]
  where
    replaced : In (d, es) ((day, events) ∷ groups) → (es ≡ events) ⊎ In (d, es) ((k, old) ∷ groups)
    replaced (inl e) = inl (ap (λ y. y.1) e)
    replaced (inr i) = inr (inr i)

    kept :
        (In (d, es) (insert day events groups) → (es ≡ events) ⊎ In (d, es) groups)
        → In (d, es) ((k, old) ∷ insert day events groups)
        → (es ≡ events) ⊎ In (d, es) ((k, old) ∷ groups)
    kept rec (inl e) = inr (inl e)
    kept rec (inr i) = elim (rec i) [ inl e ↦ inl e | inr j ↦ inr (inr j) ]

-- Whatever was looked up is in a group.
lookup-Grouped :
    (day : Text) (groups : Dict (List Event)) (x : Event)
    → In x (get_or [] (lookup day groups))
    → Grouped groups x
unfolding lookup
lookup-Grouped day [] x h = absurd h
lookup-Grouped day ((k, es) ∷ groups) x h = elim (Bool-cases (k == day)) [
  | inl same ↦ (k, es, inl refl, rw same at h)
  | inr differ ↦
      let (d, es', at, m) = lookup-Grouped day groups x (rw differ at h) in (d, es', inr at, m)
]

In-insert_same :
    (day : Text) (events : List Event) (groups : Dict (List Event))
    → In (day, events) (insert day events groups)
unfolding insert
In-insert_same day events [] = inl refl
In-insert_same day events ((k, old) ∷ groups) = elim (Bool-cases (k == day)) [
  | inl same ↦ rw same (inl refl)
  | inr differ ↦ rw differ (inr (In-insert_same day events groups))
]

module _ (date : ℕ → Text) where
  pub group_by_date-Grouped :
      (events : List Event) (groups : Dict (List Event)) (e : Event)
      → In e events ⊎ Grouped groups e
      → Grouped (group_by_date date events groups) e
  unfolding group_by_date
  group_by_date-Grouped [] groups e (inl at) = absurd at
  group_by_date-Grouped [] groups e (inr g) = g
  group_by_date-Grouped (x ∷ events) groups e h =
      group_by_date-Grouped events (insert day whole groups) e (step h)
    where
      day : Text
      day = date x.timestamp

      old : List Event
      old = get_or [] (lookup day groups)

      whole : List Event
      whole = old ++ x ∷ []

      step :
          In e (x ∷ events) ⊎ Grouped groups e → In e events ⊎ Grouped (insert day whole groups) e
      step (inl (inr at)) = inl at
      step (inl (inl same)) =
          inr
            (day, whole, In-insert_same day whole groups, In-append_right e old (x ∷ []) (inl same))
      step (inr g) =
          inr (Grouped-insert day whole groups e (λ y i. In-append_left y old (x ∷ []) i) g)

  -- Every event of a group was given.
  pub Grouped-group_by_date :
      (events : List Event) (groups : Dict (List Event)) (e : Event)
      → Grouped (group_by_date date events groups) e
      → In e events ⊎ Grouped groups e
  unfolding group_by_date
  Grouped-group_by_date [] groups e g = inr g
  Grouped-group_by_date (x ∷ events) groups e g =
      back (Grouped-group_by_date events (insert day whole groups) e g)
    where
      day : Text
      day = date x.timestamp

      old : List Event
      old = get_or [] (lookup day groups)

      whole : List Event
      whole = old ++ x ∷ []

      back :
          In e events ⊎ Grouped (insert day whole groups) e → In e (x ∷ events) ⊎ Grouped groups e
      back (inl at) = inl (inr at)
      back (inr (d, es, at, m)) = elim (In-insert day whole groups d es at) [
        | inr i ↦ inr (d, es, i, m)
        | inl same ↦ elim (In-append_cases e old (x ∷ []) (subst (λ l. In e l) same m)) [
          | inl l ↦ inr (lookup-Grouped day groups e l)
          | inr (inl eq) ↦ inl (inl eq)
          | inr (inr bad) ↦ absurd bad
        ]
      ]
