-- ===== src/EventStore/Ordering.antt =====
-- The stable sorting of events by a number.
use phonewave.Prelude.{
  ℕ, ◌≤◌, ◌≡◌, ◌↔◌, ◌⊎◌, inl, inr, List, [], ◌∷◌, arith, Bool-cases, In, All, leb,
}
use phonewave.EventStore.Events.{Event}
use phonewave.EventStore.Files.{insert_by, sort_by}

-- The numbers of the events ascend.
abbrev pub IsAscending : (Event → ℕ) → List Event → Type 0
IsAscending key [] = Unit
IsAscending key (e ∷ es) = All (λ x. key e ≤ key x) es × IsAscending key es

above-insert_by :
    (key : Event → ℕ) (low : ℕ) (e : Event) (es : List Event)
    → low ≤ key e
    → All (λ x. low ≤ key x) es
    → All (λ x. low ≤ key x) (insert_by key e es)
unfolding insert_by
above-insert_by key low e [] h a = (h, tt)
above-insert_by key low e (x ∷ xs) h (hx, a) = elim (Bool-cases (leb (key e) (key x))) [
  | inl y ↦ rw y (h, (hx, a))
  | inr n ↦ rw n (hx, above-insert_by key low e xs h a)
]

above_le :
    (key : Event → ℕ) (low high : ℕ) (es : List Event)
    → low ≤ high
    → All (λ x. high ≤ key x) es
    → All (λ x. low ≤ key x) es
above_le key low high [] h a = tt
above_le key low high (x ∷ xs) h (hx, a) = (omega (arith, h, hx), above_le key low high xs h a)

insert_by-IsAscending :
    (key : Event → ℕ) (e : Event) (es : List Event)
    → IsAscending key es
    → IsAscending key (insert_by key e es)
unfolding insert_by
insert_by-IsAscending key e [] s = (tt, tt)
insert_by-IsAscending key e (x ∷ xs) (low, s) = elim (Bool-cases (leb (key e) (key x))) [
  | inl y ↦
      let le : key e ≤ key x = ground (arith, y) in
      rw y ((le, above_le key (key e) (key x) xs le low), (low, s))
  | inr n ↦
      let le : key x ≤ key e = ground (arith, n) in
      rw n (above-insert_by key (key x) e xs le low, insert_by-IsAscending key e xs s)
]

pub sort_by-IsAscending : (key : Event → ℕ) (es : List Event) → IsAscending key (sort_by key es)
unfolding sort_by
sort_by-IsAscending key [] = tt
sort_by-IsAscending key (e ∷ es) =
    insert_by-IsAscending key e (sort_by key es) (sort_by-IsAscending key es)

insert_by_iff :
    (key : Event → ℕ) (e x : Event) (es : List Event)
    → In x (insert_by key e es) ↔ ((x ≡ e) ⊎ In x es)
unfolding insert_by
insert_by_iff key e x [] = (λ h. h, λ h. h)
insert_by_iff key e x (y ∷ ys) = elim (Bool-cases (leb (key e) (key y))) [
  | inl t ↦ rw t (λ h. h, λ h. h)
  | inr f ↦ rw f (swapped (insert_by_iff key e x ys))
]
  where
    swapped :
        In x (insert_by key e ys) ↔ ((x ≡ e) ⊎ In x ys)
        → In x (y ∷ insert_by key e ys) ↔ ((x ≡ e) ⊎ In x (y ∷ ys))
    swapped (sound, complete) = (there, back)
      where
        there : In x (y ∷ insert_by key e ys) → (x ≡ e) ⊎ In x (y ∷ ys)
        there (inl h) = inr (inl h)
        there (inr h) = elim (sound h) [ inl eq ↦ inl eq | inr at ↦ inr (inr at) ]

        back : (x ≡ e) ⊎ In x (y ∷ ys) → In x (y ∷ insert_by key e ys)
        back (inl eq) = inr (complete (inl eq))
        back (inr (inl h)) = inl h
        back (inr (inr h)) = inr (complete (inr h))

pub sort_by_iff : (key : Event → ℕ) (x : Event) (es : List Event) → In x (sort_by key es) ↔ In x es
unfolding sort_by
sort_by_iff key x [] = (λ h. h, λ h. h)
sort_by_iff key x (e ∷ es) =
    let (sound, complete) = sort_by_iff key x es in
    let (cut, put) = insert_by_iff key e x (sort_by key es) in
    (
      λ h. elim (cut h) [ inl eq ↦ inl eq | inr at ↦ inr (sound at) ],
      λ h. put (elim h [ inl eq ↦ inl eq | inr at ↦ inr (complete at) ]),
    )
