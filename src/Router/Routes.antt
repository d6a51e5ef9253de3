-- ===== src/Router/Routes.antt =====
-- Which routes DeriveRoutes gives.
use mathlib.Core.Path.{subst}
use phonewave.Prelude.{
  ◌≡◌, refl, sym, ap, ◌↔◌, inl, inr, false, List, [], ◌∷◌, ◌++◌, Text, codes, ◌==◌, Bool-cases,
  Dict, In, In-append_left, In-append_right, In-append_cases,
}
use phonewave.FilePath.{join}
use phonewave.Router.Defs.{
  Endpoint, Route, same_repository, index_consumers, inboxes_except, with_targets, route_for,
  routes_of_kinds, routes_of, derive_routes,
}
use phonewave.Router.Index.{dirs_at, Consumer, consumers_iff}

-- `x` is the inbox of a target other than `dir`.
abbrev OtherInbox : Text → List Text → Text → Type 0
OtherInbox dir ts x = (t : Text) × In t ts × ((t == dir) ≡ false) × (x ≡ join t (codes "inbox"))

OtherInbox-cons :
    (dir x t : Text) (ts : List Text) → OtherInbox dir ts x → OtherInbox dir (t ∷ ts) x
OtherInbox-cons dir x t ts (u, at, ne, e) = (u, inr at, ne, e)

inboxes_except-In :
    (dir x : Text) (ts : List Text) → In x (inboxes_except dir ts) → OtherInbox dir ts x
unfolding inboxes_except
inboxes_except-In dir x [] h = absurd h
inboxes_except-In dir x (t ∷ ts) h = elim (Bool-cases (t == dir)) [
  | inl e ↦ OtherInbox-cons dir x t ts (inboxes_except-In dir x ts (rw e at h))
  | inr n ↦ kept (inboxes_except-In dir x ts) n (rw n at h)
]
  where
    kept :
        (In x (inboxes_except dir ts) → OtherInbox dir ts x)
        → (t == dir) ≡ false
        → In x (join t (codes "inbox") ∷ inboxes_except dir ts)
        → OtherInbox dir (t ∷ ts) x
    kept ih n (inl e) = (t, inl refl, n, e)
    kept ih n (inr r) = OtherInbox-cons dir x t ts (ih r)

In-inboxes_except :
    (dir t : Text) (ts : List Text)
    → In t ts
    → (t == dir) ≡ false
    → In (join t (codes "inbox")) (inboxes_except dir ts)
unfolding inboxes_except
In-inboxes_except dir t [] h ne = absurd h
In-inboxes_except dir t (u ∷ ts) (inl e) ne =
    rw (subst (λ y. (y == dir) ≡ false) e ne) (inl (ap (λ y. join y (codes "inbox")) e))
In-inboxes_except dir t (u ∷ ts) (inr h) ne = elim (Bool-cases (u == dir)) [
  | inl e ↦ rw e (In-inboxes_except dir t ts h ne)
  | inr n ↦ rw n (inr (In-inboxes_except dir t ts h ne))
]

-- `to` holds exactly the inboxes of the kind's consumers other than the producer.
pub record IsRouteOf (eps : List Endpoint) (p : Endpoint) (r : Route) : Type 0 where
  pub produced : In r.kind p.produces
  pub from_outbox : r.from ≡ join p.dir (codes "outbox")
  pub scope : r.scope ≡ same_repository
  pub some_target : (x : Text) × In x r.to
  pub targets :
      (x : Text)
      → In x r.to ↔ (
          (c : Text) × Consumer eps r.kind c
          × ((c == p.dir) ≡ false)
          × (x ≡ join c (codes "inbox")))

-- A route made from a list of targets.
with_targets-In :
    (kind dir : Text) (to : List Text) (r : Route)
    → In r (with_targets kind dir to)
    → (r.kind ≡ kind)
      × (r.from ≡ join dir (codes "outbox"))
      × (r.scope ≡ same_repository)
      × (r.to ≡ to)
      × ((x : Text) × In x r.to)
with_targets-In kind dir [] r h = absurd h
with_targets-In kind dir (t ∷ ts) r (inl e) = (
  ap (λ y. y.kind) e,
  ap (λ y. y.from) e,
  ap (λ y. y.scope) e,
  ap (λ y. y.to) e,
  (t, subst (λ y. In t y.to) (sym e) (inl refl)),
)
with_targets-In kind dir (t ∷ ts) r (inr f) = absurd f

-- A target gives a route that holds it.
In-with_targets :
    (kind dir x : Text) (to : List Text)
    → In x to
    → (r : Route) × In r (with_targets kind dir to)
      × (r.kind ≡ kind)
      × (r.from ≡ join dir (codes "outbox"))
      × In x r.to
In-with_targets kind dir x [] h = absurd h
In-with_targets kind dir x (t ∷ ts) h = (
  record { kind = kind; from = join dir (codes "outbox"); to = t ∷ ts; scope = same_repository },
  inl refl,
  refl,
  refl,
  h,
)

-- A route of the list for a kind, an outbox and one target.
abbrev pub RouteTo : Text → Text → Text → List Route → Type 0
RouteTo kind dir c rs =
    (r : Route) × In r rs
    × (r.kind ≡ kind)
    × (r.from ≡ join dir (codes "outbox"))
    × In (join c (codes "inbox")) r.to

RouteTo-left :
    (kind dir c : Text) (xs ys : List Route) → RouteTo kind dir c xs → RouteTo kind dir c (xs ++ ys)
RouteTo-left kind dir c xs ys (r, at, k, f, t) = (r, In-append_left r xs ys at, k, f, t)

RouteTo-right :
    (kind dir c : Text) (xs ys : List Route) → RouteTo kind dir c ys → RouteTo kind dir c (xs ++ ys)
RouteTo-right kind dir c xs ys (r, at, k, f, t) = (r, In-append_right r xs ys at, k, f, t)

module _ (eps : List Endpoint) where
  abbrev consumers : Dict (List Text)
  consumers = index_consumers eps []

  route_for-IsRouteOf :
      (p : Endpoint) (kind : Text) (r : Route)
      → In kind p.produces
      → In r (route_for consumers p.dir kind)
      → IsRouteOf eps p r
  unfolding route_for
  route_for-IsRouteOf p kind r produced h =
      let (k, f, s, t, some_target) =
        with_targets-In kind p.dir (inboxes_except p.dir (dirs_at kind consumers)) r h in
      record {
        produced = rw k produced;
        from_outbox = f;
        scope = s;
        some_target = some_target;
        targets = λ x. (
          λ at.
              let (u, m, ne, e) = inboxes_except-In p.dir x (dirs_at kind consumers) (rw t at at) in
              (u, rw k ((consumers_iff eps kind u).0 m), ne, e),
          λ (c, n, ne, e).
              rw (t, e)
                (In-inboxes_except p.dir c (dirs_at kind consumers)
                  ((consumers_iff eps kind c).1 (subst (λ y. Consumer eps y c) k n)) ne),
        );
      }

  routes_of_kinds-IsRouteOf :
      (p : Endpoint) (kinds : List Text) (r : Route)
      → ((k : Text) → In k kinds → In k p.produces)
      → In r (routes_of_kinds consumers p.dir kinds)
      → IsRouteOf eps p r
  unfolding routes_of_kinds
  routes_of_kinds-IsRouteOf p [] r sub h = absurd h
  routes_of_kinds-IsRouteOf p (kind ∷ kinds) r sub h =
      elim (In-append_cases r (route_for consumers p.dir kind)
        (routes_of_kinds consumers p.dir kinds) h) [
          | inl l ↦ route_for-IsRouteOf p kind r (sub kind (inl refl)) l
          | inr l ↦ routes_of_kinds-IsRouteOf p kinds r (λ k m. sub k (inr m)) l
        ]

  routes_of-IsRouteOf :
      (ps : List Endpoint) (r : Route)
      → In r (routes_of consumers ps)
      → (p : Endpoint) × In p ps × IsRouteOf eps p r
  unfolding routes_of
  routes_of-IsRouteOf [] r h = absurd h
  routes_of-IsRouteOf (p ∷ ps) r h =
      elim (In-append_cases r (routes_of_kinds consumers p.dir p.produces) (routes_of consumers ps)
        h) [
          | inl l ↦ (p, inl refl, routes_of_kinds-IsRouteOf p p.produces r (λ k m. m) l)
          | inr l ↦ let (q, at, good) = routes_of-IsRouteOf ps r l in (q, inr at, good)
        ]

  route_for-RouteTo :
      (kind dir c : Text)
      → Consumer eps kind c
      → (c == dir) ≡ false
      → RouteTo kind dir c (route_for consumers dir kind)
  unfolding route_for
  route_for-RouteTo kind dir c n ne =
      In-with_targets kind dir (join c (codes "inbox"))
        (inboxes_except dir (dirs_at kind consumers))
        (In-inboxes_except dir c (dirs_at kind consumers) ((consumers_iff eps kind c).1 n) ne)

  routes_of_kinds-RouteTo :
      (kind dir c : Text) (kinds : List Text)
      → In kind kinds
      → RouteTo kind dir c (route_for consumers dir kind)
      → RouteTo kind dir c (routes_of_kinds consumers dir kinds)
  unfolding routes_of_kinds
  routes_of_kinds-RouteTo kind dir c [] m t = absurd m
  routes_of_kinds-RouteTo kind dir c (k ∷ kinds) (inl e) t =
      RouteTo-left kind dir c (route_for consumers dir k) (routes_of_kinds consumers dir kinds)
        (subst (λ y. RouteTo kind dir c (route_for consumers dir y)) e t)
  routes_of_kinds-RouteTo kind dir c (k ∷ kinds) (inr m) t =
      RouteTo-right kind dir c (route_for consumers dir k) (routes_of_kinds consumers dir kinds)
        (routes_of_kinds-RouteTo kind dir c kinds m t)

  routes_of-RouteTo :
      (kind c : Text) (p : Endpoint) (ps : List Endpoint)
      → In p ps
      → RouteTo kind p.dir c (routes_of_kinds consumers p.dir p.produces)
      → RouteTo kind p.dir c (routes_of consumers ps)
  unfolding routes_of
  routes_of-RouteTo kind c p [] m t = absurd m
  routes_of-RouteTo kind c p (q ∷ ps) (inl e) t =
      RouteTo-left kind p.dir c (routes_of_kinds consumers q.dir q.produces)
        (routes_of consumers ps)
        (subst (λ y. RouteTo kind p.dir c (routes_of_kinds consumers y.dir y.produces)) e t)
  routes_of-RouteTo kind c p (q ∷ ps) (inr m) t =
      RouteTo-right kind p.dir c (routes_of_kinds consumers q.dir q.produces)
        (routes_of consumers ps) (routes_of-RouteTo kind c p ps m t)

-- Every derived route stands for one endpoint and one kind that it produces: it leads from that
-- endpoint's outbox, has a target, and its targets are exactly the inboxes of the endpoints
-- with another directory that consume the kind.
pub derive_routes-IsRouteOf :
    (eps : List Endpoint) (r : Route)
    → In r (derive_routes eps)
    → (p : Endpoint) × In p eps × IsRouteOf eps p r
unfolding derive_routes
derive_routes-IsRouteOf eps r h = routes_of-IsRouteOf eps eps r h

-- If an endpoint produces a kind and an endpoint with another directory consumes it, some derived
-- route of that kind leads from the producer's outbox to the consumer's inbox.
pub derive_routes-RouteTo :
    (eps : List Endpoint) (p : Endpoint) (kind c : Text)
    → In p eps
    → In kind p.produces
    → Consumer eps kind c
    → (c == p.dir) ≡ false
    → RouteTo kind p.dir c (derive_routes eps)
unfolding derive_routes
derive_routes-RouteTo eps p kind c at m n ne = routes_of-RouteTo eps kind c p eps at (
    routes_of_kinds-RouteTo eps kind p.dir c p.produces m (route_for-RouteTo eps kind p.dir c n ne))
