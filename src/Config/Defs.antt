-- ===== src/Config/Defs.antt =====
-- Config and its three methods. EndpointConfig has the fields of Endpoint, in their order, and
-- Go converts between the two: both are `Endpoint`.
use phonewave.Prelude.{ℕ, Bool, true, false, List, [], ◌∷◌, ◌++◌, Text, ◌==◌, if◌then◌else◌}
use phonewave.Router.{Endpoint, Route, derive_routes}

pub record RepoConfig : Type 0 where
  pub path : Text
  pub endpoints : List Endpoint

pub record RouteConfig : Type 0 where
  pub kind : Text
  pub from : Text
  pub to : List Text
  pub scope : Text
  pub repo_path : Text

pub record Config : Type 0 where
  pub last_synced : ℕ
  pub repositories : List RepoConfig
  pub routes : List RouteConfig

unfoldable pub add_repository : Text → List Endpoint → Config → Config
add_repository path endpoints c = record c {
  repositories = c.repositories ++ record { path = path; endpoints = endpoints } ∷ [];
}

-- The loop: the first repository with the path is cut out.
unfoldable pub remove_first : Text → List RepoConfig → List RepoConfig × Bool
remove_first path [] = ([], false)
remove_first path (repo ∷ repos) =
    let (rest, found) = remove_first path repos in
    if repo.path == path then (repos, true) else (repo ∷ rest, found)

unfoldable pub remove_repository : Text → Config → Config × Bool
unfolding remove_first
remove_repository path c =
    let (repos, found) = remove_first path c.repositories in
    (record c { repositories = repos }, found)

abbrev pub route_config : Text → Route → RouteConfig
route_config repo_path r = record {
  kind = r.kind;
  from = r.from;
  to = r.to;
  scope = r.scope;
  repo_path = repo_path;
}

unfoldable pub route_configs : Text → List Route → List RouteConfig
route_configs repo_path [] = []
route_configs repo_path (r ∷ rs) = route_config repo_path r ∷ route_configs repo_path rs

unfoldable pub all_routes : List RepoConfig → List RouteConfig
all_routes [] = []
all_routes (repo ∷ repos) =
    route_configs repo.path (derive_routes repo.endpoints) ++ all_routes repos

unfoldable pub update_routes : Config → Config
update_routes c = record c { routes = all_routes c.repositories }
