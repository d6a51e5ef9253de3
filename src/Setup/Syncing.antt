-- ===== src/Setup/Syncing.antt =====
-- What Sync does and reports.
use phonewave.Prelude.{ℕ, ◌≡◌, refl, ◌↔◌, inl, inr, Option, none, some, List, [], ◌∷◌, In}
use phonewave.Router.{Endpoint}
use phonewave.Config.{RepoConfig, Config, all_routes, update_routes}
use phonewave.Setup.Scanner.{Tree, scan_repository}
use phonewave.Setup.Diff.{snapshot_endpoints, diff_endpoints}
use phonewave.Setup.Sync.{SetupError, scan_failed, Outcome, done, refused, rescan, SyncReport, sync}
use phonewave.Setup.Changes.{Reports, snapshot-IsMap, diff_endpoints_iff}

-- The same paths, each with what its scan gives.
abbrev pub Rescanned : Tree → List RepoConfig → List RepoConfig → Type 0
Rescanned tree [] [] = Unit
Rescanned tree [] (s ∷ ss) = ⊥
Rescanned tree (r ∷ rs) [] = ⊥
Rescanned tree (r ∷ rs) (s ∷ ss) =
    ((s.path ≡ r.path) × (scan_repository tree r.path ≡ some s.endpoints)) × Rescanned tree rs ss

-- A repository whose scan fails.
abbrev pub Unscanned : Tree → List RepoConfig → SetupError → Type 0
Unscanned tree repos e =
    (repo : RepoConfig) × In repo repos
    × (scan_repository tree repo.path ≡ none)
    × (e ≡ scan_failed repo.path)

abbrev RescannedAs : Tree → List RepoConfig → Outcome (List RepoConfig) → Type 0
RescannedAs tree repos (refused e) = Unscanned tree repos e
RescannedAs tree repos (done scanned) = Rescanned tree repos scanned

rescan_lem : (tree : Tree) (repos : List RepoConfig) → RescannedAs tree repos (rescan tree repos)
unfolding rescan
rescan_lem tree [] = tt
rescan_lem tree (repo ∷ repos) =
    by_scan (scan_repository tree repo.path) refl (rescan tree repos) refl (rescan_lem tree repos)
  where
    by_scan :
        (scan : Option (List Endpoint))
        → scan_repository tree repo.path ≡ scan
        → (rest : Outcome (List RepoConfig)) → rescan tree repos ≡ rest
        → RescannedAs tree repos rest
        → RescannedAs tree (repo ∷ repos) (rescan tree (repo ∷ repos))
    by_scan none eq rest r h = rw (eq, rescan) (repo, inl refl, eq, refl)
    by_scan (some eps) eq (refused e) r (bad, at, gone, same) =
        rw (eq, rescan) (rw (r, rescan) (bad, inr at, gone, same))
    by_scan (some eps) eq (done scanned) r h = rw (eq, rescan) (rw (r, rescan) ((refl, eq), h))

-- What a synchronisation gives.
abbrev pub SyncedAs : ℕ → Tree → Config → Outcome (Config × SyncReport) → Type 0
SyncedAs now tree cfg (refused e) = Unscanned tree cfg.repositories e
SyncedAs now tree cfg (done (cfg', report)) =
    (cfg'.last_synced ≡ now)
    × Rescanned tree cfg.repositories cfg'.repositories
    × (cfg'.routes ≡ all_routes cfg'.repositories)
    × ((d : phonewave.Setup.Diff.EndpointDiff)
        → In d report.endpoint_changes
          ↔ Reports (snapshot_endpoints cfg) (snapshot_endpoints cfg') d)

-- Sync is refused because the scan of some repository of the configuration fails; or the new
-- configuration has the same paths in their order, each with the endpoints that its scan gives, the
-- routes derived from them and the time, and the report of endpoints names exactly the keys that
-- only the new configuration has as added, those that only the old one has as removed, and those
-- of both whose endpoints differ in the kinds they produce or consume as changed.
pub sync_cases : (now : ℕ) (tree : Tree) (cfg : Config) → SyncedAs now tree cfg (sync now tree cfg)
unfolding sync
sync_cases now tree cfg =
    by_rescan (rescan tree cfg.repositories) refl (rescan_lem tree cfg.repositories)
  where
    by_rescan :
        (r : Outcome (List RepoConfig))
        → rescan tree cfg.repositories ≡ r
        → RescannedAs tree cfg.repositories r
        → SyncedAs now tree cfg (sync now tree cfg)
    by_rescan (refused e) eq h = rw (eq, sync) h
    by_rescan (done repos) eq h =
        rw (eq, sync)
          (
            refl,
            unfold update_routes in h,
            unfold update_routes in refl,
            λ d.
                diff_endpoints_iff (snapshot_endpoints cfg) (snapshot_endpoints _) d
                  (snapshot-IsMap cfg) (snapshot-IsMap _),
          )
