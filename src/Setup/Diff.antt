-- ===== src/Setup/Diff.antt =====
-- The comparison of two configurations. A Go map's order is not fixed: the changes are listed in
-- that of the dictionary.
use phonewave.Prelude.{
  Bool, true, false, not, ◌&&◌, none, some, List, [], ◌∷◌, ◌++◌, Text, codes, ◌==◌, nat_eq,
  has_rune, length, if◌then◌else◌, Dict, lookup, insert,
}
use phonewave.FilePath.{slash, base, after_last}
use phonewave.Router.{Endpoint, sort}
use phonewave.Config.{RepoConfig, RouteConfig, Config}

pub record EndpointDiff : Type 0 where
  pub repo : Text
  pub dir : Text
  pub change : Text

pub record RouteDiff : Type 0 where
  pub kind : Text
  pub from : Text
  pub change : Text

-- repo.Path + "/" + ep.Dir
abbrev pub endpoint_key : Text → Text → Text
endpoint_key path dir = path ++ slash ∷ dir

unfoldable pub add_endpoints : Text → List Endpoint → Dict Endpoint → Dict Endpoint
add_endpoints path [] snap = snap
add_endpoints path (ep ∷ eps) snap =
    add_endpoints path eps (insert (endpoint_key path ep.dir) ep snap)

unfoldable pub snapshot_repos : List RepoConfig → Dict Endpoint → Dict Endpoint
unfolding add_endpoints
snapshot_repos [] snap = snap
snapshot_repos (repo ∷ repos) snap =
    snapshot_repos repos (add_endpoints repo.path repo.endpoints snap)

unfoldable pub snapshot_endpoints : Config → Dict Endpoint
unfolding snapshot_repos
snapshot_endpoints cfg = snapshot_repos cfg.repositories []

abbrev pub route_key : RouteConfig → Text
route_key r = (r.repo_path ++ b':' ∷ r.kind) ++ b':' ∷ r.from

unfoldable pub add_routes : List RouteConfig → Dict RouteConfig → Dict RouteConfig
add_routes [] snap = snap
add_routes (r ∷ rs) snap = add_routes rs (insert (route_key r) r snap)

unfoldable pub snapshot_routes : Config → Dict RouteConfig
unfolding add_routes
snapshot_routes cfg = add_routes cfg.routes []

-- key[:strings.LastIndex(key, "/")] of a key with a slash
unfoldable pub before_last : Text → Text
before_last [] = []
before_last (c ∷ cs) = let rest = before_last cs in if has_rune slash cs then c ∷ rest else []

unfoldable pub split_endpoint_key : Text → Text × Text
unfolding before_last
split_endpoint_key key =
    if has_rune slash key then (base (before_last key), after_last key) else (key, [])

-- The loop that compares the sorted copies.
unfoldable pub same_texts : List Text → List Text → Bool
same_texts [] ys = true
same_texts (x ∷ xs) [] = false
same_texts (x ∷ xs) (y ∷ ys) = x == y && same_texts xs ys

unfoldable pub slices_equal : List Text → List Text → Bool
unfolding same_texts
slices_equal a b =
    if not (nat_eq (length a) (length b)) then false else same_texts (sort a) (sort b)

unfoldable pub endpoint_equal : Endpoint → Endpoint → Bool
unfolding slices_equal
endpoint_equal a b = slices_equal a.produces b.produces && slices_equal a.consumes b.consumes

abbrev pub endpoint_diff : Text → Text → EndpointDiff
endpoint_diff key change =
    let (repo, dir) = split_endpoint_key key in record { repo = repo; dir = dir; change = change }

-- What one endpoint of the new configuration gives: none or one change.
unfoldable pub change_of : Dict Endpoint → Text → Endpoint → List EndpointDiff
unfolding endpoint_equal
change_of old key ep = elim (lookup key old) [
  | none ↦ endpoint_diff key (codes "added") ∷ []
  | some before ↦
      if not (endpoint_equal before ep) then endpoint_diff key (codes "changed") ∷ [] else []
]

unfoldable pub added_or_changed : Dict Endpoint → Dict Endpoint → List EndpointDiff
unfolding change_of
added_or_changed old [] = []
added_or_changed old ((key, ep) ∷ latest) = change_of old key ep ++ added_or_changed old latest

unfoldable pub removed : Dict Endpoint → Dict Endpoint → List EndpointDiff
removed latest [] = []
removed latest ((key, ep) ∷ old) =
    let rest = removed latest old in
    elim (lookup key latest) [ none ↦ endpoint_diff key (codes "removed") ∷ rest | some now ↦ rest ]

unfoldable pub diff_endpoints : Dict Endpoint → Dict Endpoint → List EndpointDiff
unfolding added_or_changed removed
diff_endpoints old latest = added_or_changed old latest ++ removed latest old

-- The routes of the second map whose keys the first has not.
unfoldable pub routes_only : Text → Dict RouteConfig → Dict RouteConfig → List RouteDiff
routes_only change other [] = []
routes_only change other ((key, r) ∷ rs) =
    let rest = routes_only change other rs in
    elim (lookup key other) [
      | none ↦ record { kind = r.kind; from = r.from; change = change } ∷ rest
      | some known ↦ rest
    ]

unfoldable pub diff_routes : Dict RouteConfig → Dict RouteConfig → List RouteDiff
unfolding routes_only
diff_routes old latest =
    routes_only (codes "added") old latest ++ routes_only (codes "removed") latest old
