-- ===== src/Router/Unproduced.antt =====
-- The kinds that are consumed and not produced, and the reports over several repositories.
use mathlib.Core.Path.{subst}
use phonewave.Prelude.{
  ◌≡◌, refl, sym, ap, ◌↔◌, ◌⊎◌, inl, inr, none, some, List, [], ◌∷◌, Text, Option-cases, Dict,
  lookup, get_or, In, lookup-In, In-lookup,
}
use phonewave.Router.Defs.{
  Endpoint, OrphanReport, index_producers, index_consumer_dirs, unproduced_in, detect_orphans,
  add_once, add_all, union_reports, detect_orphans_per_repo, sort,
}
use phonewave.Router.Index.{
  Consumer, Producer, index_consumer_dirs_iff, producers_iff, add_once-In, In-add_once,
  add_once_self,
}
use phonewave.Router.Orphans.Sets.{sort_iff, producers-IsIndex, consumers-IsIndex}

unproduced_in-In :
    (producers consumers : Dict (List Text)) (k : Text)
    → In k (unproduced_in producers consumers)
    → (dirs : List Text) × In (k, dirs) consumers × (lookup k producers ≡ none)
unfolding unproduced_in
unproduced_in-In producers [] k h = absurd h
unproduced_in-In producers ((j, dirs) ∷ consumers) k h = elim (Option-cases (lookup j producers)) [
  | inl e ↦
      head e (let r : (k ≡ j) ⊎ In k (unproduced_in producers consumers) = rw e at h in r)
        (unproduced_in-In producers consumers k)
  | inr (v, e) ↦
      let (ds, at, u) = unproduced_in-In producers consumers k (rw e at h) in (ds, inr at, u)
]
  where
    head :
        lookup j producers ≡ none
        → (k ≡ j) ⊎ In k (unproduced_in producers consumers)
        → (In k (unproduced_in producers consumers)
            → (ds : List Text) × In (k, ds) consumers × (lookup k producers ≡ none))
        → (ds : List Text) × In (k, ds) ((j, dirs) ∷ consumers) × (lookup k producers ≡ none)
    head e (inl same) ih = (dirs, inl (ap (λ y. (y, dirs)) same), rw same e)
    head e (inr m) ih = let (ds, at, u) = ih m in (ds, inr at, u)

In-unproduced_in :
    (producers consumers : Dict (List Text)) (k : Text) (dirs : List Text)
    → In (k, dirs) consumers
    → lookup k producers ≡ none
    → In k (unproduced_in producers consumers)
unfolding unproduced_in
In-unproduced_in producers [] k dirs at u = absurd at
In-unproduced_in producers ((j, ds) ∷ consumers) k dirs (inl e) u =
    rw (subst (λ y. lookup y.0 producers ≡ none) e u) (inl (ap (λ y. y.0) e))
In-unproduced_in producers ((j, ds) ∷ consumers) k dirs (inr m) u =
    elim (Option-cases (lookup j producers)) [
      | inl e ↦ rw e (inr (In-unproduced_in producers consumers k dirs m u))
      | inr (v, e) ↦ rw e (In-unproduced_in producers consumers k dirs m u)
    ]

module _ (eps : List Endpoint) where
  abbrev producers : Dict (List Text)
  producers = index_producers eps []

  abbrev consumers : Dict (List Text)
  consumers = index_consumer_dirs eps []

  none-Producer : (k : Text) → lookup k producers ≡ none → (d : Text) → ¬ Producer eps k d
  none-Producer k e d p = subst (λ y. In d (get_or [] y)) e ((producers_iff eps k d).1 p)

  Producer-none : (k : Text) → ((d : Text) → ¬ Producer eps k d) → lookup k producers ≡ none
  Producer-none k nobody = elim (Option-cases (lookup k producers)) [
    | inl e ↦ e
    | inr (dirs, e) ↦
        let (d, at) = (producers-IsIndex eps).has_dir k dirs e in
        absurd (nobody d ((producers_iff eps k d).0 (rw e at)))
  ]

  Consumer-lookup :
      (k d : Text) → Consumer eps k d → (dirs : List Text) × (lookup k consumers ≡ some dirs)
  Consumer-lookup k d p = elim (Option-cases (lookup k consumers)) [
    | inl e ↦ absurd (subst (λ y. In d (get_or [] y)) e ((index_consumer_dirs_iff eps k d).1 p))
    | inr (dirs, e) ↦ (dirs, e)
  ]

-- A kind is reported as unproduced exactly when some endpoint consumes it and none produces it.
pub unproduced_iff :
    (eps : List Endpoint) (k : Text)
    → In k (detect_orphans eps).unproduced_kinds
      ↔ (((d : Text) × Consumer eps k d) × ((d : Text) → ¬ Producer eps k d))
unfolding detect_orphans
unproduced_iff eps k = (
  λ h.
      let (dirs, at, u) =
        unproduced_in-In (producers eps) (consumers eps) k
          ((sort_iff (unproduced_in (producers eps) (consumers eps)) k).0 h) in
      let e = In-lookup k dirs (consumers eps) (consumers-IsIndex eps).is_map at in
      let (d, m) = (consumers-IsIndex eps).has_dir k dirs e in
      ((d, (index_consumer_dirs_iff eps k d).0 (rw e m)), none-Producer eps k u),
  λ ((d, c), nobody).
      let (dirs, e) = Consumer-lookup eps k d c in
      (sort_iff (unproduced_in (producers eps) (consumers eps)) k).1 (
        In-unproduced_in (producers eps) (consumers eps) k dirs (lookup-In k dirs (consumers eps) e)
          (Producer-none eps k nobody)),
)

add_all-In : (ts set : List Text) (k : Text) → In k (add_all ts set) → In k ts ⊎ In k set
unfolding add_all
add_all-In [] set k h = inr h
add_all-In (t ∷ ts) set k h = elim (add_all-In ts (add_once t set) k h) [
  | inl m ↦ inl (inr m)
  | inr m ↦ elim (add_once-In t k set m) [ inl old ↦ inr old | inr new ↦ inl (inl new) ]
]

In-add_all : (ts set : List Text) (k : Text) → In k ts ⊎ In k set → In k (add_all ts set)
unfolding add_all
In-add_all [] set k (inl f) = absurd f
In-add_all [] set k (inr h) = h
In-add_all (t ∷ ts) set k (inl (inl e)) =
    In-add_all ts (add_once t set) k
      (inr (subst (λ y. In y (add_once t set)) (sym e) (add_once_self t set)))
In-add_all (t ∷ ts) set k (inl (inr m)) = In-add_all ts (add_once t set) k (inl m)
In-add_all (t ∷ ts) set k (inr h) = In-add_all ts (add_once t set) k (inr (In-add_once t k set h))

-- Some repository of the list reports the kind.
abbrev pub SomeReport : (OrphanReport → List Text) → List (List Endpoint) → Text → Type 0
SomeReport field repos k = (eps : List Endpoint) × In eps repos × In k (field (detect_orphans eps))

-- One field of the union.
abbrev collect : (OrphanReport → List Text) → List (List Endpoint) → List Text → List Text
collect field [] set = set
collect field (eps ∷ repos) set = collect field repos (add_all (field (detect_orphans eps)) set)

collect-In :
    (field : OrphanReport → List Text) (repos : List (List Endpoint)) (set : List Text) (k : Text)
    → In k (collect field repos set)
    → SomeReport field repos k ⊎ In k set
collect-In field [] set k h = inr h
collect-In field (eps ∷ repos) set k h =
    elim (collect-In field repos (add_all (field (detect_orphans eps)) set) k h) [
      | inl (e, at, m) ↦ inl (e, inr at, m)
      | inr m ↦ elim (add_all-In (field (detect_orphans eps)) set k m) [
        | inl new ↦ inl (eps, inl refl, new)
        | inr old ↦ inr old
      ]
    ]

In-collect :
    (field : OrphanReport → List Text) (repos : List (List Endpoint)) (set : List Text) (k : Text)
    → SomeReport field repos k ⊎ In k set
    → In k (collect field repos set)
In-collect field [] set k (inl (e, at, m)) = absurd at
In-collect field [] set k (inr h) = h
In-collect field (eps ∷ repos) set k (inl (e, inl same, m)) =
    In-collect field repos (add_all (field (detect_orphans eps)) set) k (
      inr (
        In-add_all (field (detect_orphans eps)) set k
          (inl (subst (λ y. In k (field (detect_orphans y))) same m))))
In-collect field (eps ∷ repos) set k (inl (e, inr at, m)) =
    In-collect field repos (add_all (field (detect_orphans eps)) set) k (inl (e, at, m))
In-collect field (eps ∷ repos) set k (inr h) =
    In-collect field repos (add_all (field (detect_orphans eps)) set) k
      (inr (In-add_all (field (detect_orphans eps)) set k (inr h)))

union_reports-unconsumed :
    (repos : List (List Endpoint)) (sets : OrphanReport)
    → (union_reports repos sets).unconsumed_kinds
      ≡ collect (λ r. r.unconsumed_kinds) repos sets.unconsumed_kinds
unfolding union_reports
union_reports-unconsumed [] sets = refl
union_reports-unconsumed (eps ∷ repos) sets =
    let report = detect_orphans eps in
    union_reports-unconsumed repos (record {
      unconsumed_kinds = add_all report.unconsumed_kinds sets.unconsumed_kinds;
      unproduced_kinds = add_all report.unproduced_kinds sets.unproduced_kinds;
    })

union_reports-unproduced :
    (repos : List (List Endpoint)) (sets : OrphanReport)
    → (union_reports repos sets).unproduced_kinds
      ≡ collect (λ r. r.unproduced_kinds) repos sets.unproduced_kinds
unfolding union_reports
union_reports-unproduced [] sets = refl
union_reports-unproduced (eps ∷ repos) sets =
    let report = detect_orphans eps in
    union_reports-unproduced repos (record {
      unconsumed_kinds = add_all report.unconsumed_kinds sets.unconsumed_kinds;
      unproduced_kinds = add_all report.unproduced_kinds sets.unproduced_kinds;
    })

abbrev no_report : OrphanReport
no_report = record { unconsumed_kinds = []; unproduced_kinds = [] }

collect_iff :
    (field : OrphanReport → List Text) (repos : List (List Endpoint)) (k : Text)
    → In k (sort (collect field repos [])) ↔ SomeReport field repos k
collect_iff field repos k = (
  λ h. elim (collect-In field repos [] k ((sort_iff (collect field repos []) k).0 h)) [
    | inl r ↦ r
    | inr f ↦ absurd f
  ],
  λ r. (sort_iff (collect field repos []) k).1 (In-collect field repos [] k (inl r)),
)

-- The report over several repositories holds, in each of its two lists, exactly the kinds that
-- the report of some single repository holds there.
pub per_repo_iff :
    (repos : List (List Endpoint)) (k : Text)
    → (In k (detect_orphans_per_repo repos).unconsumed_kinds
        ↔ SomeReport (λ r. r.unconsumed_kinds) repos k)
      × (In k (detect_orphans_per_repo repos).unproduced_kinds
          ↔ SomeReport (λ r. r.unproduced_kinds) repos k)
unfolding detect_orphans_per_repo
per_repo_iff repos k = (
  rw (union_reports-unconsumed repos no_report) (collect_iff (λ r. r.unconsumed_kinds) repos k),
  rw (union_reports-unproduced repos no_report) (collect_iff (λ r. r.unproduced_kinds) repos k),
)
