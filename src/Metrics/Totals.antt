-- ===== src/Metrics/Totals.antt =====
-- What the loop over the events counts, in all and in each bucket.
use native.Mathlib.Nat.{le-div_iff_mul-le, div-lt_iff_lt-mul}
use phonewave.Prelude.{
  ℕ, zero, suc, ◌+◌, ◌-◌, ◌*◌, ◌≤◌, ◌<◌, ◌≡◌, refl, ap, ◌∙◌, inl, inr, Bool, true, false, not, ◌&&◌,
  ◌||◌, Bool-cases, Option, none, some, List, [], ◌∷◌, arith, Text, ◌==◌, nat_eq, ltb, leb,
  if◌then◌else◌, get_or,
}
use phonewave.EventStore.{Event, delivery_completed, delivery_failed, error_retried}
use phonewave.Metrics.Defs.{
  DeliveryMetrics, Accumulator, num_buckets, empty_bucket, make_buckets, tally, tally_bucket,
  update_at, bucket_index, outside, count_event, count_events, no_deliveries,
}

-- The events that pass a test, by type.
unfoldable pub counted : (Event → Bool) → List Event → DeliveryMetrics
counted test [] = no_deliveries
counted test (ev ∷ evs) =
    let rest = counted test evs in if test ev then tally ev.event_type rest else rest

abbrev pub plus : DeliveryMetrics → DeliveryMetrics → DeliveryMetrics
plus a b = record {
  delivered = a.delivered + b.delivered;
  failed = a.failed + b.failed;
  retried = a.retried + b.retried;
}

unfoldable pub nth {ℓ} : {A : Type ℓ} → ℕ → List A → Option A
nth i [] = none
nth zero (x ∷ xs) = some x
nth (suc i) (x ∷ xs) = nth i xs

abbrev pub inside : ℕ → ℕ → Event → Bool
inside start now ev = not (outside start now ev.timestamp)

-- The time of a bucket: its interval, and for the last one all after it.
abbrev pub in_bucket : ℕ → ℕ → ℕ → ℕ → ℕ → Bool
in_bucket start size n i at =
    leb (start + i * size) at && (ltb at (start + (i + 1) * size) || nat_eq (i + 1) n)

index-in_bucket :
    (start size n i at : ℕ)
    → 0 < size
    → i < n
    → start ≤ at
    → nat_eq (bucket_index start size n at) i ≡ in_bucket start size n i at
unfolding bucket_index
index-in_bucket start size n i at positive below after = ground (
  arith,
  positive,
  below,
  after,
  le-div_iff_mul-le {k = size} {x = i} {y = at - start} positive,
  div-lt_iff_lt-mul {k = size} {x = at - start} {y = i + 1} positive,
)

pub index-below : (start size n at : ℕ) → 0 < n → bucket_index start size n at < n
unfolding bucket_index
index-below start size n at h = ground arith

pub num_buckets-positive : (start size now : ℕ) → 0 < num_buckets start size now
unfolding num_buckets
num_buckets-positive start size now = ground arith

pub tally-plus : (t : Text) (a b : DeliveryMetrics) → plus (tally t a) b ≡ plus a (tally t b)
unfolding tally
tally-plus t a b = elim (Bool-cases (t == delivery_completed)) [
  | inl e ↦ rw e (ground arith)
  | inr n ↦ rw n (elim (Bool-cases (t == delivery_failed)) [
    | inl e ↦ rw e (ground arith)
    | inr m ↦
        rw m (elim (Bool-cases (t == error_retried)) [
          | inl e ↦ rw e (ground arith)
          | inr o ↦ rw o refl
        ])
  ])
]

pub tally_bucket-counts :
    (latency_of : Text → Option ℕ) (ev : Event) (acc : Accumulator)
    → (tally_bucket latency_of ev acc).counts ≡ tally ev.event_type acc.counts
unfolding tally_bucket
tally_bucket-counts latency_of ev acc = ground (arith)

suc-nat_eq : (i j : ℕ) → nat_eq (suc i) (suc j) ≡ nat_eq i j
suc-nat_eq i j = ground arith

zero-nat_eq : (j : ℕ) → nat_eq 0 (suc j) ≡ false
zero-nat_eq j = ground arith

nat_eq-zero : (i : ℕ) → nat_eq (suc i) 0 ≡ false
nat_eq-zero i = ground arith

nth-update_at :
    (change : Accumulator → Accumulator) (i j : ℕ) (xs : List Accumulator) (a : Accumulator)
    → nth j xs ≡ some a
    → nth j (update_at change i xs) ≡ some (if nat_eq i j then change a else a)
unfolding nth update_at
nth-update_at change i j [] a h = absurd (ground arith)
nth-update_at change zero zero (x ∷ xs) a h = ap some (ap change (ap (get_or a) h))
nth-update_at change zero (suc j) (x ∷ xs) a h = h ∙ rw (zero-nat_eq j) refl
nth-update_at change (suc i) zero (x ∷ xs) a h = h ∙ rw (nat_eq-zero i) refl
nth-update_at change (suc i) (suc j) (x ∷ xs) a h =
    nth-update_at change i j xs a h ∙ rw (suc-nat_eq i j) refl

pub nth-make_buckets : (n j : ℕ) → j < n → nth j (make_buckets n) ≡ some empty_bucket
unfolding nth make_buckets
nth-make_buckets zero j h = absurd (omega arith)
nth-make_buckets (suc n) zero h = refl
nth-make_buckets (suc n) (suc j) h = nth-make_buckets n j (omega arith)

counted-step :
    (test : Event → Bool) (ev : Event) (evs : List Event) (m : DeliveryMetrics)
    → plus (if test ev then tally ev.event_type m else m) (counted test evs)
      ≡ plus m (counted test (ev ∷ evs))
unfolding counted
counted-step test ev evs m = elim (Bool-cases (test ev)) [
  | inl e ↦ rw e (tally-plus ev.event_type m (counted test evs))
  | inr n ↦ rw n refl
]

-- The events of the i-th bucket.
abbrev pub of_bucket : ℕ → ℕ → ℕ → ℕ → ℕ → Event → Bool
of_bucket start size now n i ev = inside start now ev && in_bucket start size n i ev.timestamp

module _ (latency_of : Text → Option ℕ) (start size now n : ℕ) where
  step-totals :
      (ev : Event) (s : List Accumulator × DeliveryMetrics)
      → (count_event latency_of start size now n ev s).1
        ≡ (if inside start now ev then tally ev.event_type s.1 else s.1)
  unfolding count_event
  step-totals ev s = elim (Bool-cases (outside start now ev.timestamp)) [
    | inl e ↦ rw e refl
    | inr o ↦ rw o refl
  ]

  pub count-totals :
      (evs : List Event) (s : List Accumulator × DeliveryMetrics)
      → (count_events latency_of start size now n evs s).1
        ≡ plus s.1 (counted (inside start now) evs)
  unfolding count_events
  count-totals [] s = unfold counted in ground arith
  count-totals (ev ∷ evs) s =
      count-totals evs (count_event latency_of start size now n ev s)
      ∙ ap (λ m. plus m (counted (inside start now) evs)) (step-totals ev s)
      ∙ counted-step (inside start now) ev evs s.1

  step-bucket :
      (ev : Event) (s : List Accumulator × DeliveryMetrics) (i : ℕ) (a : Accumulator)
      → 0 < size
      → i < n
      → nth i s.0 ≡ some a
      → (b : Accumulator) × (nth i (count_event latency_of start size now n ev s).0 ≡ some b)
        × (b.counts
            ≡ (if of_bucket start size now n i ev then tally ev.event_type a.counts else a.counts))
  unfolding count_event
  step-bucket ev s i a positive below h = elim (Bool-cases (outside start now ev.timestamp)) [
    | inl e ↦ (a, rw e h, rw e refl)
    | inr o ↦ (
      if nat_eq (bucket_index start size n ev.timestamp) i then tally_bucket latency_of ev a else a,
      rw o (
          nth-update_at (tally_bucket latency_of ev) (bucket_index start size n ev.timestamp) i s.0
            a h),
      rw (o, ← index-in_bucket start size n i ev.timestamp positive below (ground arith))
          (chosen (nat_eq (bucket_index start size n ev.timestamp) i)),
    )
  ]
    where
      chosen :
          (hit : Bool)
          → (if hit then tally_bucket latency_of ev a else a).counts
            ≡ (if hit then tally ev.event_type a.counts else a.counts)
      chosen true = tally_bucket-counts latency_of ev a
      chosen false = refl

  pub count-bucket :
      (evs : List Event) (s : List Accumulator × DeliveryMetrics) (i : ℕ) (a : Accumulator)
      → 0 < size
      → i < n
      → nth i s.0 ≡ some a
      → (b : Accumulator) × (nth i (count_events latency_of start size now n evs s).0 ≡ some b)
        × (b.counts ≡ plus a.counts (counted (of_bucket start size now n i) evs))
  unfolding count_events
  count-bucket [] s i a positive below h = (a, h, unfold counted in ground arith)
  count-bucket (ev ∷ evs) s i a positive below h =
      let (b, at, e) = step-bucket ev s i a positive below h in
      let (c, at', e') =
        count-bucket evs (count_event latency_of start size now n ev s) i b positive below at in
      (
        c,
        at',
        e'
            ∙ ap (λ m. plus m (counted (of_bucket start size now n i) evs)) e
            ∙ counted-step (of_bucket start size now n i) ev evs a.counts,
      )
