-- ===== src/Config/Laws.antt =====
-- What the configuration holds after its methods.
use phonewave.Prelude.{
  ◌≡◌, refl, ap, ◌↔◌, inl, inr, true, false, List, [], ◌∷◌, ◌++◌, Text, ◌==◌, eq_refl, In,
  In-append_left, In-append_right, In-append_cases, append-nil,
}
use phonewave.Router.{Endpoint, Route, derive_routes}
use phonewave.Config.Defs.{
  RepoConfig, RouteConfig, Config, add_repository, remove_first, remove_repository, route_config,
  route_configs, all_routes, update_routes,
}

route_configs-In :
    (path : Text) (rs : List Route) (rc : RouteConfig)
    → In rc (route_configs path rs)
    → (r : Route) × In r rs × (rc ≡ route_config path r)
unfolding route_configs
route_configs-In path [] rc h = absurd h
route_configs-In path (r ∷ rs) rc (inl e) = (r, inl refl, e)
route_configs-In path (r ∷ rs) rc (inr m) =
    let (s, at, e) = route_configs-In path rs rc m in (s, inr at, e)

In-route_configs :
    (path : Text) (rs : List Route) (r : Route)
    → In r rs
    → In (route_config path r) (route_configs path rs)
unfolding route_configs
In-route_configs path [] r h = absurd h
In-route_configs path (s ∷ rs) r (inl e) = inl (ap (route_config path) e)
In-route_configs path (s ∷ rs) r (inr m) = inr (In-route_configs path rs r m)

-- The route stands for one repository's derived route.
abbrev pub RouteOfRepo : List RepoConfig → RouteConfig → Type 0
RouteOfRepo repos rc =
    (repo : RepoConfig) × (r : Route) × In repo repos
    × In r (derive_routes repo.endpoints)
    × (rc ≡ route_config repo.path r)

all_routes-In :
    (repos : List RepoConfig) (rc : RouteConfig) → In rc (all_routes repos) → RouteOfRepo repos rc
unfolding all_routes
all_routes-In [] rc h = absurd h
all_routes-In (repo ∷ repos) rc h =
    elim (In-append_cases rc (route_configs repo.path (derive_routes repo.endpoints))
      (all_routes repos) h) [
        | inl l ↦
            let (r, at, e) = route_configs-In repo.path (derive_routes repo.endpoints) rc l in
            (repo, r, inl refl, at, e)
        | inr l ↦ let (other, r, m, at, e) = all_routes-In repos rc l in (other, r, inr m, at, e)
      ]

In-all_routes :
    (repos : List RepoConfig) (repo : RepoConfig) (r : Route)
    → In repo repos
    → In r (derive_routes repo.endpoints)
    → In (route_config repo.path r) (all_routes repos)
unfolding all_routes
In-all_routes [] repo r m at = absurd m
In-all_routes (x ∷ repos) repo r (inl e) at =
    In-append_left (route_config repo.path r) (route_configs x.path (derive_routes x.endpoints))
      (all_routes repos) (rw (← e) (In-route_configs repo.path (derive_routes repo.endpoints) r at))
In-all_routes (x ∷ repos) repo r (inr m) at =
    In-append_right (route_config repo.path r) (route_configs x.path (derive_routes x.endpoints))
      (all_routes repos) (In-all_routes repos repo r m at)

-- After UpdateRoutes the routes are exactly those derived within single repositories, each
-- marked with its repository's path; the repositories stay as they were.
pub update_routes_iff :
    (c : Config) (rc : RouteConfig)
    → ((update_routes c).repositories ≡ c.repositories)
      × (In rc (update_routes c).routes ↔ RouteOfRepo c.repositories rc)
unfolding update_routes
update_routes_iff c rc = (
  refl,
  (
    all_routes-In c.repositories rc,
    λ (repo, r, m, at, e). rw e (In-all_routes c.repositories repo r m at),
  ),
)

-- The path is not configured.
abbrev pub Absent : Text → List RepoConfig → Type 0
Absent path repos = (repo : RepoConfig) → In repo repos → (repo.path == path) ≡ false

remove_first-Absent :
    (path : Text) (repos : List RepoConfig)
    → Absent path repos
    → remove_first path repos ≡ (repos, false)
unfolding remove_first
remove_first-Absent path [] h = refl
remove_first-Absent path (repo ∷ repos) h =
    rw (h repo (inl refl), remove_first-Absent path repos (λ r m. h r (inr m)))

remove_first-append :
    (path : Text) (repos : List RepoConfig) (repo : RepoConfig) (rest : List RepoConfig)
    → Absent path repos
    → (repo.path == path) ≡ true
    → remove_first path (repos ++ repo ∷ rest) ≡ (repos ++ rest, true)
unfolding remove_first
remove_first-append path [] repo rest h e = rw e
remove_first-append path (x ∷ repos) repo rest h e =
    rw (h x (inl refl), remove_first-append path repos repo rest (λ r m. h r (inr m)) e)

-- Removing the path of the first repository that has it cuts out that one and keeps the others
-- in order; of a path that no repository has, nothing is removed and `false` is returned.
pub remove_repository_cases :
    (path : Text) (c : Config)
    → (Absent path c.repositories → remove_repository path c ≡ (c, false))
      × ((before : List RepoConfig) (repo : RepoConfig) (after : List RepoConfig)
          → c.repositories ≡ before ++ repo ∷ after
          → Absent path before
          → (repo.path == path) ≡ true
          → remove_repository path c ≡ (record c { repositories = before ++ after }, true))
unfolding remove_repository
remove_repository_cases path c = (
  λ h. rw (remove_first-Absent path c.repositories h),
  λ before repo after e h same. rw (e, remove_first-append path before repo after h same),
)

-- Removing a repository just added, under a path not configured before, gives the configuration
-- back.
pub remove-add_repository :
    (path : Text) (endpoints : List Endpoint) (c : Config)
    → Absent path c.repositories
    → remove_repository path (add_repository path endpoints c) ≡ (c, true)
unfolding add_repository remove_repository
remove-add_repository path endpoints c h =
    rw
      (remove_first-append path c.repositories (record { path = path; endpoints = endpoints }) [] h
        (eq_refl path))
      (rw (append-nil))
