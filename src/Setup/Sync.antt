-- ===== src/Setup/Sync.antt =====
-- Init, Add, Remove and Sync. filepath.Abs is an argument, and none is an error of it; the repositories
-- are scanned at once, and taken in the order of their submission. The warnings of the skills are
-- left out.
use phonewave.Prelude.{
  ℕ, Bool, true, false, not, Option, none, some, List, [], ◌∷◌, Text, ◌==◌, length, if◌then◌else◌,
}
use phonewave.Router.{Endpoint, OrphanReport, detect_orphans_per_repo}
use phonewave.Config.{RepoConfig, Config, add_repository, remove_repository, update_routes}
use phonewave.Setup.Scanner.{Tree, scan_repository}
use phonewave.Setup.Diff.{
  EndpointDiff, RouteDiff, snapshot_endpoints, snapshot_routes, diff_endpoints, diff_routes,
}

pub data SetupError : Type 0 where
  invalid_path scan_failed : Text → SetupError
  already_exists not_found : Text → SetupError

pub data Outcome (A : Type 0) : Type 0 where
  done : A → Outcome A
  refused : SetupError → Outcome A

unfoldable pub endpoint_lists : List RepoConfig → List (List Endpoint)
endpoint_lists [] = []
endpoint_lists (repo ∷ repos) = repo.endpoints ∷ endpoint_lists repos

-- DetectOrphansPerRepo of a configuration
unfoldable pub orphans_of : Config → OrphanReport
unfolding endpoint_lists
orphans_of cfg = detect_orphans_per_repo (endpoint_lists cfg.repositories)

-- The task for one path.
unfoldable pub scan_path : (Text → Option Text) → Tree → Text → Outcome (Text × List Endpoint)
scan_path abs tree repo_path = elim (abs repo_path) [
  | none ↦ refused (invalid_path repo_path)
  | some abs_path ↦ elim (scan_repository tree abs_path) [
    | none ↦ refused (scan_failed abs_path)
    | some endpoints ↦ done (abs_path, endpoints)
  ]
]

-- The loop over the results.
unfoldable pub add_scanned : (Text → Option Text) → Tree → List Text → Config → Outcome Config
unfolding scan_path
add_scanned abs tree [] cfg = done cfg
add_scanned abs tree (path ∷ paths) cfg = elim (scan_path abs tree path) [
  | refused e ↦ refused e
  | done (abs_path, endpoints) ↦ add_scanned abs tree paths (add_repository abs_path endpoints cfg)
]

pub record InitResult : Type 0 where
  pub config : Config
  pub orphans : OrphanReport
  pub repo_count : ℕ

-- Init
unfoldable pub init_config : ℕ → (Text → Option Text) → Tree → List Text → Outcome InitResult
unfolding add_scanned orphans_of
init_config now abs tree paths =
    elim (add_scanned abs tree paths
      (record { last_synced = now; repositories = []; routes = [] })) [
        | refused e ↦ refused e
        | done cfg ↦
            let cfg' = update_routes cfg in
            done (record { config = cfg'; orphans = orphans_of cfg'; repo_count = length paths })
      ]

unfoldable pub has_repository : Text → List RepoConfig → Bool
has_repository path [] = false
has_repository path (repo ∷ repos) = if repo.path == path then true else has_repository path repos

abbrev pub synced : ℕ → Config → Config
synced now cfg = record (update_routes cfg) { last_synced = now }

-- Add
unfoldable pub add_repo :
    ℕ → (Text → Option Text) → Tree → Text → Config → Outcome (Config × OrphanReport)
unfolding has_repository
add_repo now abs tree path cfg = elim (abs path) [
  | none ↦ refused (invalid_path path)
  | some abs_path ↦
      if has_repository abs_path cfg.repositories
      then refused (already_exists abs_path)
      else elim (scan_repository tree abs_path) [
        | none ↦ refused (scan_failed abs_path)
        | some endpoints ↦
            let cfg' = synced now (add_repository abs_path endpoints cfg) in
            done (cfg', orphans_of cfg')
      ]
]

-- Remove
unfoldable pub remove_repo :
    ℕ → (Text → Option Text) → Text → Config → Outcome (Config × OrphanReport)
remove_repo now abs path cfg = elim (abs path) [
  | none ↦ refused (invalid_path path)
  | some abs_path ↦
      let (cfg', found) = remove_repository abs_path cfg in
      if not found
      then refused (not_found abs_path)
      else let cfg'' = synced now cfg' in done (cfg'', orphans_of cfg'')
]

-- The repositories scanned again, none where a scan fails.
unfoldable pub rescan : Tree → List RepoConfig → Outcome (List RepoConfig)
rescan tree [] = done []
rescan tree (repo ∷ repos) =
    let rest = rescan tree repos in
    elim (scan_repository tree repo.path) [
      | none ↦ refused (scan_failed repo.path)
      | some endpoints ↦ elim rest [
        | refused e ↦ refused e
        | done scanned ↦ done (record { path = repo.path; endpoints = endpoints } ∷ scanned)
      ]
    ]

pub record SyncReport : Type 0 where
  pub orphans : OrphanReport
  pub endpoint_changes : List EndpointDiff
  pub route_changes : List RouteDiff
  pub repo_count : ℕ
  pub total_routes : ℕ

-- Sync
unfoldable pub sync : ℕ → Tree → Config → Outcome (Config × SyncReport)
unfolding rescan
sync now tree cfg = elim (rescan tree cfg.repositories) [
  | refused e ↦ refused e
  | done repos ↦
      let cfg' = synced now (record cfg { repositories = repos }) in
      done (
        cfg',
        record {
          orphans = orphans_of cfg';
          endpoint_changes = diff_endpoints (snapshot_endpoints cfg) (snapshot_endpoints cfg');
          route_changes = diff_routes (snapshot_routes cfg) (snapshot_routes cfg');
          repo_count = length cfg'.repositories;
          total_routes = length cfg'.routes;
        },
      )
]
