-- ===== src/Setup/Resolve.antt =====
-- ResolveRoutes and CollectOutboxDirs: the configuration as absolute paths, for the daemon.
use phonewave.Prelude.{
  Bool, false, ◌||◌, Option, none, some, List, [], ◌∷◌, ◌++◌, Text, codes, ◌==◌, nat_eq,
  if◌then◌else◌,
}
use phonewave.FilePath.{slash, join, join_all}
use phonewave.Router.{Endpoint}
use phonewave.Config.{RepoConfig, RouteConfig, Config}
use phonewave.Delivery.{ResolvedRoute}

-- strings.SplitN(path, "/", 2)[0]
unfoldable pub first_part : Text → Text
first_part [] = []
first_part (c ∷ cs) = let rest = first_part cs in if nat_eq c slash then [] else c ∷ rest

unfoldable pub has_dir : Text → List Endpoint → Bool
has_dir dir [] = false
has_dir dir (ep ∷ eps) = ep.dir == dir || has_dir dir eps

-- The loop of findRepoForRoute.
unfoldable pub find_repo : Text → List RepoConfig → Option RepoConfig
unfolding has_dir
find_repo dir [] = none
find_repo dir (repo ∷ repos) = if has_dir dir repo.endpoints then some repo else find_repo dir repos

unfoldable pub find_repo_for_route : Config → Text → Option RepoConfig
unfolding find_repo first_part
find_repo_for_route cfg from_path = find_repo (first_part from_path) cfg.repositories

-- The repository of a route: none is an error.
unfoldable pub repo_path_of : Config → RouteConfig → Option Text
unfolding find_repo_for_route
repo_path_of cfg route =
    if route.repo_path == []
    then elim (find_repo_for_route cfg route.from) [ none ↦ none | some repo ↦ some repo.path ]
    else some route.repo_path

unfoldable pub join_each : Text → List Text → List Text
join_each repo_path [] = []
join_each repo_path (to ∷ tos) = join repo_path to ∷ join_each repo_path tos

abbrev pub resolved_route : Text → RouteConfig → ResolvedRoute
resolved_route repo_path route = record {
  kind = route.kind;
  from_outbox = join repo_path route.from;
  to_inboxes = join_each repo_path route.to;
}

-- The loop of ResolveRoutes.
unfoldable pub resolve_all : Config → List RouteConfig → Option (List ResolvedRoute)
unfolding repo_path_of
resolve_all cfg [] = some []
resolve_all cfg (route ∷ routes) =
    let rest = resolve_all cfg routes in
    elim (repo_path_of cfg route) [
      | none ↦ none
      | some repo_path ↦ elim rest [
        | none ↦ none
        | some resolved ↦ some (resolved_route repo_path route ∷ resolved)
      ]
    ]

-- ResolveRoutes
unfoldable pub resolve_routes : Config → Option (List ResolvedRoute)
unfolding resolve_all
resolve_routes cfg = resolve_all cfg cfg.routes

abbrev pub outbox_dir : Text → Text → Text
outbox_dir repo_path dir = join_all (repo_path ∷ dir ∷ codes "outbox" ∷ [])

-- The directory goes to the list if something is produced.
abbrev pub if_produces : List Text → Text → List Text → List Text
if_produces [] dir rest = rest
if_produces (kind ∷ kinds) dir rest = dir ∷ rest

-- The outboxes of one repository.
unfoldable pub outboxes_of : Text → List Endpoint → List Text
outboxes_of repo_path [] = []
outboxes_of repo_path (ep ∷ eps) =
    if_produces ep.produces (outbox_dir repo_path ep.dir) (outboxes_of repo_path eps)

unfoldable pub collect_all : List RepoConfig → List Text
unfolding outboxes_of
collect_all [] = []
collect_all (repo ∷ repos) = outboxes_of repo.path repo.endpoints ++ collect_all repos

-- CollectOutboxDirs
unfoldable pub collect_outbox_dirs : Config → List Text
unfolding collect_all
collect_outbox_dirs cfg = collect_all cfg.repositories
