-- ===== src/Router/Orphans.antt =====
-- DetectOrphans against the routes of DeriveRoutes.
pub mod Sets
use mathlib.Core.Path.{subst}
use phonewave.Prelude.{
  ◌≡◌, refl, sym, ap, ◌∙◌, ◌≢◌, ◌↔◌, ◌⊎◌, inl, inr, Bool, true, false, Option, none, some, List, [],
  ◌∷◌, ◌++◌, arith, Text, codes, ◌==◌, eq_iff, eq_cases, Bool-cases, Option-cases, Dict, lookup,
  if◌then◌else◌, get_or, In, not, IsMap, lookup-In, In-lookup,
}
use phonewave.Router.Defs.{
  Endpoint, Route, index_producers, index_consumer_dirs, is_unconsumed, unconsumed_in,
  unproduced_in, is_missing, has_external_route, derive_routes, detect_orphans,
}
use phonewave.Router.Index.{dirs_at, Consumer, Producer, index_consumer_dirs_iff, producers_iff}
use phonewave.Router.Routes.{RouteTo, IsRouteOf, derive_routes-IsRouteOf, derive_routes-RouteTo}
use Sets.{sort_iff, Apart, external_iff, IsIndex, producers-IsIndex, consumers-IsIndex}

-- An entry of the index whose kind has no consumer in another directory.
abbrev IsLonely : Dict (List Text) → Dict (List Text) → Text → Type 0
IsLonely consumers producers k =
    (dirs : List Text) × In (k, dirs) producers × (is_unconsumed consumers k dirs ≡ true)

unconsumed_in-In :
    (consumers producers : Dict (List Text)) (k : Text)
    → In k (unconsumed_in consumers producers)
    → IsLonely consumers producers k
unfolding unconsumed_in
unconsumed_in-In consumers [] k h = absurd h
unconsumed_in-In consumers ((j, dirs) ∷ producers) k h =
    elim (Bool-cases (is_unconsumed consumers j dirs)) [
      | inl e ↦
          head e (let r : (k ≡ j) ⊎ In k (unconsumed_in consumers producers) = rw e at h in r)
            (unconsumed_in-In consumers producers k)
      | inr n ↦
          let (ds, at, u) = unconsumed_in-In consumers producers k (rw n at h) in (ds, inr at, u)
    ]
  where
    head :
        is_unconsumed consumers j dirs ≡ true
        → (k ≡ j) ⊎ In k (unconsumed_in consumers producers)
        → (In k (unconsumed_in consumers producers) → IsLonely consumers producers k)
        → IsLonely consumers ((j, dirs) ∷ producers) k
    head e (inl same) ih = (dirs, inl (ap (λ y. (y, dirs)) same), rw same e)
    head e (inr m) ih = let (ds, at, u) = ih m in (ds, inr at, u)

In-unconsumed_in :
    (consumers producers : Dict (List Text)) (k : Text) (dirs : List Text)
    → In (k, dirs) producers
    → is_unconsumed consumers k dirs ≡ true
    → In k (unconsumed_in consumers producers)
unfolding unconsumed_in
In-unconsumed_in consumers [] k dirs at u = absurd at
In-unconsumed_in consumers ((j, ds) ∷ producers) k dirs (inl e) u =
    rw (subst (λ y. is_unconsumed consumers y.0 y.1 ≡ true) e u) (inl (ap (λ y. y.0) e))
In-unconsumed_in consumers ((j, ds) ∷ producers) k dirs (inr m) u =
    elim (Bool-cases (is_unconsumed consumers j ds)) [
      | inl e ↦ rw e (inr (In-unconsumed_in consumers producers k dirs m u))
      | inr n ↦ rw n (In-unconsumed_in consumers producers k dirs m u)
    ]

flip : (a b : Text) → (a == b) ≡ false → (b == a) ≡ false
flip a b ne = ground (arith, eq_iff a b, eq_iff b a)

not-false : (b : Bool) → not b ≡ false → b ≡ true
not-false true h = refl
not-false false h = cc

-- The test of the loop is the absence of a pair of directories that differ.
is_unconsumed-true :
    (consumers : Dict (List Text)) (k : Text) (dirs : List Text)
    → is_unconsumed consumers k dirs ≡ true
    → ¬ Apart dirs (dirs_at k consumers)
is_unconsumed-true consumers k dirs h apart = elim (Option-cases (lookup k consumers)) [
  | inl e ↦ let (d, c, m, n, ne) = apart in subst (λ y. In c (get_or [] y)) e n
  | inr (cs, e) ↦ ground (arith, (external_iff dirs cs).1 (rw e at apart), e, h)
]

is_unconsumed-false :
    (consumers : Dict (List Text)) (k : Text) (dirs : List Text)
    → is_unconsumed consumers k dirs ≡ false
    → Apart dirs (dirs_at k consumers)
is_unconsumed-false consumers k dirs h = elim (Option-cases (lookup k consumers)) [
  | inl e ↦ cc (rw (e, is_unconsumed) at h)
  | inr (cs, e) ↦ rw e (
      (external_iff dirs cs).0
        (not-false (has_external_route dirs cs) (rw (e, is_unconsumed) at h)))
]

module _ (eps : List Endpoint) where
  abbrev producers : Dict (List Text)
  producers = index_producers eps []

  abbrev consumers : Dict (List Text)
  consumers = index_consumer_dirs eps []

  -- No derived route has the kind.
  abbrev pub Unrouted : Text → Type 0
  Unrouted k = (r : Route) → In r (derive_routes eps) → r.kind ≢ k

  lookup-Producer :
      (k : Text) (dirs : List Text) → lookup k producers ≡ some dirs → (d : Text) × Producer eps k d
  lookup-Producer k dirs e =
      let (d, at) = (producers-IsIndex eps).has_dir k dirs e in
      (d, (producers_iff eps k d).0 (rw e at))

  Producer-lookup :
      (k d : Text)
      → Producer eps k d
      → (dirs : List Text) × (lookup k producers ≡ some dirs) × In d dirs
  Producer-lookup k d p = elim (Option-cases (lookup k producers)) [
    | inl e ↦ absurd (subst (λ y. In d (get_or [] y)) e ((producers_iff eps k d).1 p))
    | inr (dirs, e) ↦ (dirs, e, subst (λ y. In d (get_or [] y)) e ((producers_iff eps k d).1 p))
  ]

  -- A route joins two directories that differ.
  route-Apart :
      (r : Route)
      → In r (derive_routes eps)
      → Apart (dirs_at r.kind producers) (dirs_at r.kind consumers)
  route-Apart r at =
      let (p, m, ok) = derive_routes-IsRouteOf eps r at in
      let (x, t) = ok.some_target in
      let (c, n, ne, e) = (ok.targets x).0 t in
      (
        p.dir,
        c,
        (producers_iff eps r.kind p.dir).1 (p, m, refl, ok.produced),
        (index_consumer_dirs_iff eps r.kind c).1 n,
        flip c p.dir ne,
      )

  Apart-route :
      (k : Text)
      → Apart (dirs_at k producers) (dirs_at k consumers)
      → (r : Route) × In r (derive_routes eps) × (r.kind ≡ k)
  Apart-route k (d, c, m, n, ne) =
      let (p, at, e, produced) = (producers_iff eps k d).0 m in
      let (r, found, kind, _, _) =
        derive_routes-RouteTo eps p k c at produced ((index_consumer_dirs_iff eps k c).0 n)
          (subst (λ y. (c == y) ≡ false) e (flip d c ne)) in
      (r, found, kind)

-- A kind is reported as unconsumed exactly when some endpoint produces it and no derived route
-- has it.
pub unconsumed_iff :
    (eps : List Endpoint) (k : Text)
    → In k (detect_orphans eps).unconsumed_kinds
      ↔ (((d : Text) × Producer eps k d) × Unrouted eps k)
unfolding detect_orphans
unconsumed_iff eps k = (
  λ h.
      let (dirs, at, u) =
        unconsumed_in-In (consumers eps) (producers eps) k
          ((sort_iff (unconsumed_in (consumers eps) (producers eps)) k).0 h) in
      let e = In-lookup k dirs (producers eps) (producers-IsIndex eps).is_map at in
      (
        lookup-Producer eps k dirs e,
        λ r found kind. is_unconsumed-true (consumers eps) k dirs u (
            subst (λ y. Apart (get_or [] y) (dirs_at k (consumers eps))) e
              (subst (λ y. Apart (dirs_at y (producers eps)) (dirs_at y (consumers eps))) kind
                (route-Apart eps r found))),
      ),
  λ ((d, p), unrouted).
      let (dirs, e, m) = Producer-lookup eps k d p in
      (sort_iff (unconsumed_in (consumers eps) (producers eps)) k).1 (
        In-unconsumed_in (consumers eps) (producers eps) k dirs (lookup-In k dirs (producers eps) e)
          (lonely dirs e unrouted)),
)
  where
    lonely :
        (dirs : List Text)
        → lookup k (producers eps) ≡ some dirs
        → Unrouted eps k
        → is_unconsumed (consumers eps) k dirs ≡ true
    lonely dirs e unrouted = elim (Bool-cases (is_unconsumed (consumers eps) k dirs)) [
      | inl u ↦ u
      | inr n ↦
          let (r, found, kind) =
            Apart-route eps k (rw e (is_unconsumed-false (consumers eps) k dirs n)) in
          absurd (unrouted r found kind)
    ]
