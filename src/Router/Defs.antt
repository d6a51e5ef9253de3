-- ===== src/Router/Defs.antt =====
-- DeriveRoutes and DetectOrphans. A Go map from kinds to directories is a dictionary; a set of
-- directories or of kinds is a list without repetitions.
use phonewave.Prelude.{
  Bool, true, false, Option, none, some, List, [], ◌∷◌, ◌++◌, Text, codes, ◌==◌, contains,
  if◌then◌else◌, Dict, lookup, insert, get_or, not, nat_eq, ltb, ◌&&◌, ◌||◌,
}
use phonewave.FilePath.{join}

pub record Endpoint : Type 0 where
  pub dir : Text
  pub produces : List Text
  pub consumes : List Text

pub record Route : Type 0 where
  pub kind : Text
  pub from : Text
  pub to : List Text
  pub scope : Text

pub record OrphanReport : Type 0 where
  pub unconsumed_kinds : List Text
  pub unproduced_kinds : List Text

abbrev pub same_repository : Text
same_repository = codes "same_repository"

-- consumers[kind] = append(consumers[kind], dir), for each kind of one endpoint
unfoldable pub add_consumers : Text → List Text → Dict (List Text) → Dict (List Text)
add_consumers dir [] m = m
add_consumers dir (kind ∷ kinds) m =
    add_consumers dir kinds (insert kind (get_or [] (lookup kind m) ++ dir ∷ []) m)

unfoldable pub index_consumers : List Endpoint → Dict (List Text) → Dict (List Text)
unfolding add_consumers
index_consumers [] m = m
index_consumers (ep ∷ eps) m = index_consumers eps (add_consumers ep.dir ep.consumes m)

-- The inboxes of the targets other than the producer itself.
unfoldable pub inboxes_except : Text → List Text → List Text
inboxes_except dir [] = []
inboxes_except dir (target ∷ targets) =
    let rest = inboxes_except dir targets in
    if target == dir then rest else join target (codes "inbox") ∷ rest

-- A route, unless it has no target.
abbrev pub with_targets : Text → Text → List Text → List Route
with_targets kind dir [] = []
with_targets kind dir (to ∷ tos) =
    record { kind = kind; from = join dir (codes "outbox"); to = to ∷ tos; scope = same_repository }
    ∷ []

-- The routes that one endpoint and one kind give: none or one.
unfoldable pub route_for : Dict (List Text) → Text → Text → List Route
unfolding inboxes_except
route_for consumers dir kind =
    with_targets kind dir (inboxes_except dir (get_or [] (lookup kind consumers)))

unfoldable pub routes_of_kinds : Dict (List Text) → Text → List Text → List Route
unfolding route_for
routes_of_kinds consumers dir [] = []
routes_of_kinds consumers dir (kind ∷ kinds) =
    route_for consumers dir kind ++ routes_of_kinds consumers dir kinds

unfoldable pub routes_of : Dict (List Text) → List Endpoint → List Route
unfolding routes_of_kinds
routes_of consumers [] = []
routes_of consumers (ep ∷ eps) =
    routes_of_kinds consumers ep.dir ep.produces ++ routes_of consumers eps

unfoldable pub derive_routes : List Endpoint → List Route
unfolding routes_of index_consumers
derive_routes endpoints = routes_of (index_consumers endpoints []) endpoints

-- set[t] = true
unfoldable pub add_once : Text → List Text → List Text
unfolding contains
add_once t ts = if contains ts t then ts else ts ++ t ∷ []

-- index[kind][dir] = true, for each kind of one list
unfoldable pub add_dir : Text → List Text → Dict (List Text) → Dict (List Text)
unfolding add_once
add_dir dir [] m = m
add_dir dir (kind ∷ kinds) m =
    add_dir dir kinds (insert kind (add_once dir (get_or [] (lookup kind m))) m)

unfoldable pub index_producers : List Endpoint → Dict (List Text) → Dict (List Text)
unfolding add_dir
index_producers [] m = m
index_producers (ep ∷ eps) m = index_producers eps (add_dir ep.dir ep.produces m)

unfoldable pub index_consumer_dirs : List Endpoint → Dict (List Text) → Dict (List Text)
unfolding add_dir
index_consumer_dirs [] m = m
index_consumer_dirs (ep ∷ eps) m = index_consumer_dirs eps (add_dir ep.dir ep.consumes m)

-- Some directory of the list differs from `dir`.
unfoldable pub any_other : Text → List Text → Bool
any_other dir [] = false
any_other dir (c ∷ cs) = if dir == c then any_other dir cs else true

unfoldable pub has_external_route : List Text → List Text → Bool
unfolding any_other
has_external_route [] consumer_dirs = false
has_external_route (p ∷ ps) consumer_dirs =
    if any_other p consumer_dirs then true else has_external_route ps consumer_dirs

abbrev pub is_unconsumed : Dict (List Text) → Text → List Text → Bool
is_unconsumed consumers kind producer_dirs = elim (lookup kind consumers) [
  | none ↦ true
  | some consumer_dirs ↦ not (has_external_route producer_dirs consumer_dirs)
]

-- The loop over the producers.
unfoldable pub unconsumed_in : Dict (List Text) → Dict (List Text) → List Text
unfolding has_external_route
unconsumed_in consumers [] = []
unconsumed_in consumers ((kind, dirs) ∷ producers) =
    let rest = unconsumed_in consumers producers in
    if is_unconsumed consumers kind dirs then kind ∷ rest else rest

abbrev pub is_missing {ℓ} : {V : Type ℓ} → Option V → Bool
is_missing none = true
is_missing (some v) = false

-- The loop over the consumers.
unfoldable pub unproduced_in : Dict (List Text) → Dict (List Text) → List Text
unproduced_in producers [] = []
unproduced_in producers ((kind, dirs) ∷ consumers) =
    let rest = unproduced_in producers consumers in
    if is_missing (lookup kind producers) then kind ∷ rest else rest

-- a <= b, on strings
unfoldable pub text_le : Text → Text → Bool
text_le [] t = true
text_le (x ∷ xs) [] = false
text_le (x ∷ xs) (y ∷ ys) = ltb x y || (nat_eq x y && text_le xs ys)

unfoldable pub insert_sorted : Text → List Text → List Text
unfolding text_le
insert_sorted t [] = t ∷ []
insert_sorted t (x ∷ xs) =
    let rest = insert_sorted t xs in if text_le t x then t ∷ x ∷ xs else x ∷ rest

-- sort.Strings. Texts have a total order, so every sorting algorithm gives this list.
unfoldable pub sort : List Text → List Text
unfolding insert_sorted
sort [] = []
sort (t ∷ ts) = insert_sorted t (sort ts)

unfoldable pub detect_orphans : List Endpoint → OrphanReport
unfolding index_producers index_consumer_dirs unconsumed_in unproduced_in sort
detect_orphans endpoints =
    let producers = index_producers endpoints [] in
    let consumers = index_consumer_dirs endpoints [] in
    record {
      unconsumed_kinds = sort (unconsumed_in consumers producers);
      unproduced_kinds = sort (unproduced_in producers consumers);
    }

-- The union over the repositories, each kept as a set.
unfoldable pub add_all : List Text → List Text → List Text
unfolding add_once
add_all [] set = set
add_all (t ∷ ts) set = add_all ts (add_once t set)

unfoldable pub union_reports : List (List Endpoint) → OrphanReport → OrphanReport
union_reports [] sets = sets
union_reports (endpoints ∷ repos) sets =
    let report = detect_orphans endpoints in
    union_reports repos (record {
      unconsumed_kinds = add_all report.unconsumed_kinds sets.unconsumed_kinds;
      unproduced_kinds = add_all report.unproduced_kinds sets.unproduced_kinds;
    })

unfoldable pub detect_orphans_per_repo : List (List Endpoint) → OrphanReport
detect_orphans_per_repo repos =
    let sets = union_reports repos (record { unconsumed_kinds = []; unproduced_kinds = [] }) in
    record {
      unconsumed_kinds = sort sets.unconsumed_kinds;
      unproduced_kinds = sort sets.unproduced_kinds;
    }
