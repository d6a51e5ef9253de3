-- ===== src/Delivery/Recording.antt =====
-- Which inboxes the dedup store knows after a delivery.
use phonewave.Prelude.{
  ◌≡◌, refl, ◌⊎◌, inl, inr, Bool, true, false, ◌||◌, none, some, List, [], ◌∷◌, ◌++◌, arith, Text,
  eq_refl, Bool-cases, Option-cases, if◌then◌else◌, In, In-append_left, In-append_right, contains,
  contains-In,
}
use phonewave.Delivery.Defs.{
  World, DedupLog, has_delivered, record_delivery, record_dedup_for_targets, dedup_targets, dirs,
  missing_in, recording, remaining_inboxes,
}

has_delivered-append :
    (key target : Text) (log more : DedupLog)
    → has_delivered key target (log ++ more)
      ≡ (has_delivered key target log || has_delivered key target more)
unfolding has_delivered
has_delivered-append key target [] more = refl
has_delivered-append key target ((k, t) ∷ log) more =
    ground (arith, has_delivered-append key target log more)

has_delivered-one : (key target : Text) → has_delivered key target ((key, target) ∷ []) ≡ true
unfolding has_delivered
has_delivered-one key target = ground (arith, eq_refl key, eq_refl target)

-- A recorded delivery is known, and so is every one that was known before.
has_delivered-record :
    (key target : Text) (log : DedupLog)
    → has_delivered key target (record_delivery key target log) ≡ true
unfolding record_delivery
has_delivered-record key target log =
    ground (
      arith,
      has_delivered-append key target log ((key, target) ∷ []),
      has_delivered-one key target,
    )

record-keeps :
    (key target k t : Text) (log : DedupLog)
    → has_delivered k t log ≡ true
    → has_delivered k t (record_delivery key target log) ≡ true
unfolding record_delivery
record-keeps key target k t log h =
    ground (arith, has_delivered-append k t log ((key, target) ∷ []))

-- The log after one target.
abbrev after_one : (Text → Bool) → Text → Text → DedupLog → DedupLog
after_one recorded key inbox log = if recorded inbox then record_delivery key inbox log else log

after_one-keeps :
    (recorded : Text → Bool) (key inbox k t : Text) (log : DedupLog)
    → has_delivered k t log ≡ true
    → has_delivered k t (after_one recorded key inbox log) ≡ true
after_one-keeps recorded key inbox k t log h = elim (Bool-cases (recorded inbox)) [
  | inl e ↦ rw e (record-keeps key inbox k t log h)
  | inr n ↦ rw n h
]

record_all-keeps :
    (recorded : Text → Bool) (key k t : Text) (targets : List Text) (log : DedupLog)
    → has_delivered k t log ≡ true
    → has_delivered k t (record_dedup_for_targets recorded key targets log).0 ≡ true
unfolding record_dedup_for_targets
record_all-keeps recorded key k t [] log h = h
record_all-keeps recorded key k t (x ∷ xs) log h =
    record_all-keeps recorded key k t xs (after_one recorded key x log)
      (after_one-keeps recorded key x k t log h)

-- If all was recorded, every target is known.
record_all-known :
    (recorded : Text → Bool) (key : Text) (targets : List Text) (log : DedupLog)
    → (record_dedup_for_targets recorded key targets log).1 ≡ true
    → (x : Text) → In x targets
    → has_delivered key x (record_dedup_for_targets recorded key targets log).0 ≡ true
unfolding record_dedup_for_targets
record_all-known recorded key [] log h x at = absurd at
record_all-known recorded key (y ∷ ys) log h x (inl e) =
    record_all-keeps recorded key key x ys (after_one recorded key y log) (here (ground arith))
  where
    here : recorded y ≡ true → has_delivered key x (after_one recorded key y log) ≡ true
    here r = rw r (rw e (has_delivered-record key y log))
record_all-known recorded key (y ∷ ys) log h x (inr m) =
    record_all-known recorded key ys (after_one recorded key y log) (ground arith) x m

In-missing_in :
    (set inboxes : List Text) (x : Text)
    → In x inboxes
    → contains set x ≡ false
    → In x (missing_in set inboxes)
unfolding missing_in
In-missing_in set [] x at n = absurd at
In-missing_in set (y ∷ ys) x (inl e) n = rw (← e) (rw n (inl refl))
In-missing_in set (y ∷ ys) x (inr m) n = elim (Bool-cases (contains set y)) [
  | inl c ↦ rw c (In-missing_in set ys x m n)
  | inr f ↦ rw f (inr (In-missing_in set ys x m n))
]

-- When all is done, every inbox is to be recorded.
In-dedup_targets :
    (delivered inboxes : List Text) (x : Text)
    → In x inboxes
    → In x (dedup_targets true delivered inboxes)
unfolding dedup_targets
In-dedup_targets delivered inboxes x at = elim (Bool-cases (contains (dirs delivered) x)) [
  | inl c ↦
      In-append_left x (dirs delivered) (missing_in (dirs delivered) inboxes)
        (contains-In (dirs delivered) x c)
  | inr n ↦
      In-append_right x (dirs delivered) (missing_in (dirs delivered) inboxes)
        (In-missing_in (dirs delivered) inboxes x at n)
]

none-some : {xs : List Text} → none ≡ some xs → ⊥
none-some h = cc

some-same : {xs ys : List Text} → some xs ≡ some ys → xs ≡ ys
some-same h = cc

-- An inbox that does not remain had been delivered to.
pub remaining-known :
    (read : Text → Bool) (key : Text) (log : DedupLog) (inboxes rest : List Text)
    → remaining_inboxes read key log inboxes ≡ some rest
    → (x : Text) → In x inboxes
    → (has_delivered key x log ≡ true) ⊎ In x rest
unfolding remaining_inboxes
remaining-known read key log [] rest e x at = absurd at
remaining-known read key log (y ∷ ys) rest e x at = elim (Bool-cases (read y)) [
  | inr n ↦ absurd (none-some (rw n at e))
  | inl r ↦ elim (Bool-cases (has_delivered key y log)) [
    | inl d ↦ known d (λ m. remaining-known read key log ys rest (rw (r, d) at e) x m) at
    | inr n ↦ elim (Option-cases (remaining_inboxes read key log ys)) [
      | inl o ↦ absurd (none-some (rw (r, n, o, remaining_inboxes) at e))
      | inr (others, o) ↦
          left (some-same (rw (r, n, o, remaining_inboxes) at e))
            (λ m. remaining-known read key log ys others o x m) at
    ]
  ]
]
  where
    known :
        has_delivered key y log ≡ true
        → (In x ys → (has_delivered key x log ≡ true) ⊎ In x rest)
        → (x ≡ y) ⊎ In x ys
        → (has_delivered key x log ≡ true) ⊎ In x rest
    known d ih (inl same) = inl (rw same d)
    known d ih (inr m) = ih m

    left :
        {others : List Text}
        → y ∷ others ≡ rest
        → (In x ys → (has_delivered key x log ≡ true) ⊎ In x others)
        → (x ≡ y) ⊎ In x ys
        → (has_delivered key x log ≡ true) ⊎ In x rest
    left eq ih (inl same) = inr (rw (← eq) (inl same))
    left eq ih (inr m) = elim (ih m) [ inl d ↦ inl d | inr k ↦ inr (rw (← eq) (inr k)) ]

pub recording-known :
    (w : World) (key : Text) (delivered inboxes : List Text) (log : DedupLog)
    → (recording true w key true delivered inboxes log).1 ≡ true
    → (x : Text) → In x inboxes
    → has_delivered key x (recording true w key true delivered inboxes log).0 ≡ true
unfolding recording
recording-known w key delivered inboxes log h x at =
    record_all-known w.recorded key (dedup_targets true delivered inboxes) log h x
      (In-dedup_targets delivered inboxes x at)

pub recording-keeps :
    (dedup : Bool) (w : World) (key k t : Text) (all_done : Bool) (delivered inboxes : List Text)
    (log : DedupLog)
    → has_delivered k t log ≡ true
    → has_delivered k t (recording dedup w key all_done delivered inboxes log).0 ≡ true
unfolding recording
recording-keeps false w key k t all_done delivered inboxes log h = h
recording-keeps true w key k t all_done delivered inboxes log h =
    record_all-keeps w.recorded key k t (dedup_targets all_done delivered inboxes) log h
