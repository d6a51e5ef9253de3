-- ===== src/Setup/Watched.antt =====
-- The routes that the daemon delivers by, and the outboxes that it watches.
use phonewave.Prelude.{◌≡◌, false, [], ◌==◌, In}
use phonewave.FilePath.{IsName}
use phonewave.Router.{Endpoint}
use phonewave.Config.{RepoConfig, Config}

-- A repository as a scan gives it: its path is not empty, and the directories of its endpoints are
-- names.
abbrev pub IsScanned : RepoConfig → Type 0
IsScanned repo =
    ((repo.path == []) ≡ false) × ((ep : Endpoint) → In ep repo.endpoints → IsName ep.dir)
