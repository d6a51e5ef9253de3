-- ===== src/Tests/Routing.antt =====
-- Three tools in one repository: routes, orphans and the configuration.
use phonewave.Prelude.{
  ◌≡◌, refl, ◌↔◌, inl, inr, List, [], ◌∷◌, Text, codes, ◌==◌, In, lookup, insert, split_on,
}
use phonewave.FilePath.{render, unwind, pieces, push, join, clean}
use phonewave.Router.{Endpoint, Route, derive_routes, detect_orphans}
use phonewave.Router.Index.{Producer}
use phonewave.Router.Routes.{IsRouteOf, RouteTo, derive_routes-IsRouteOf, derive_routes-RouteTo}
use phonewave.Router.Orphans.{unconsumed_iff, Unrouted}
use phonewave.Config.{Config, RepoConfig, update_routes, route_config}
use phonewave.Config.Laws.{update_routes_iff, Absent, RouteOfRepo}

abbrev report : Text
report = codes "report"

abbrev spec : Text
spec = codes "specification"

abbrev coder : Endpoint
coder = record { dir = codes "/r/.expedition"; produces = report ∷ []; consumes = spec ∷ [] }

abbrev checker : Endpoint
checker = record { dir = codes "/r/.gate"; produces = []; consumes = report ∷ [] }

abbrev tools : List Endpoint
tools = coder ∷ checker ∷ []

abbrev report_route : Route
report_route = record {
  kind = report;
  from = codes "/r/.expedition/outbox";
  to = codes "/r/.gate/inbox" ∷ [];
  scope = codes "same_repository";
}

tools-routes : derive_routes tools ≡ report_route ∷ []
unfolding derive_routes lookup insert ◌==◌ join clean render unwind pieces split_on push
tools-routes = refl

report_route-In : In report_route (derive_routes tools)
report_route-In = rw tools-routes (inl refl)

derive_routes-IsRouteOf_example : (p : Endpoint) × In p tools × IsRouteOf tools p report_route
derive_routes-IsRouteOf_example = derive_routes-IsRouteOf tools report_route report_route-In

derive_routes-RouteTo_example : RouteTo report coder.dir checker.dir (derive_routes tools)
unfolding ◌==◌
derive_routes-RouteTo_example =
    derive_routes-RouteTo tools coder report checker.dir (inl refl) (inl refl)
      (checker, inr (inl refl), refl, inl refl) refl

-- Nothing is made that is not consumed; the specification comes from elsewhere.
tools-orphans : (detect_orphans tools).unconsumed_kinds ≡ []
unfolding detect_orphans lookup insert ◌==◌
tools-orphans = refl

tools-unproduced : (detect_orphans tools).unproduced_kinds ≡ spec ∷ []
unfolding detect_orphans lookup insert ◌==◌
tools-unproduced = refl

unconsumed_iff_example :
    In report (detect_orphans tools).unconsumed_kinds
    ↔ (((d : Text) × Producer tools report d) × Unrouted tools report)
unconsumed_iff_example = unconsumed_iff tools report

abbrev repo : RepoConfig
repo = record { path = codes "/r"; endpoints = tools }

abbrev config : Config
config = record { last_synced = 0; repositories = repo ∷ []; routes = [] }

update_routes_iff_example :
    ((update_routes config).repositories ≡ repo ∷ [])
    × (In (route_config repo.path report_route) (update_routes config).routes
        ↔ RouteOfRepo (repo ∷ []) (route_config repo.path report_route))
update_routes_iff_example = update_routes_iff config (route_config repo.path report_route)

config-Absent : Absent (codes "/s") config.repositories
unfolding ◌==◌
config-Absent r (inl e) = rw e refl
config-Absent r (inr f) = absurd f
