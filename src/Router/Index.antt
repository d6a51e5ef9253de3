-- ===== src/Router/Index.antt =====
-- What the indexes by kind hold: the directories of the endpoints that name the kind.
mod Grow
pub use Grow.{dirs_at, Names, Consumer, Producer}
use mathlib.Core.Path.{subst}
use phonewave.Prelude.{
  ◌≡◌, refl, ◌⊎◌, ◌↔◌, inl, inr, List, [], ◌∷◌, ◌++◌, Text, contains, contains-In, Bool-cases, Dict,
  lookup, insert, In, In-append_left, In-append_right, In-append_cases, Bool, ◌==◌,
}
use phonewave.Router.Defs.{
  Endpoint, add_consumers, index_consumers, add_once, add_dir, index_producers, index_consumer_dirs,
}
use Grow.{
  Grows, Adds, update_all, update_all-In, update_all-old, update_all-new, index_by, index_by-In,
  index_by-new,
}

append-In : (dir d : Text) (xs : List Text) → In d (xs ++ dir ∷ []) → In d xs ⊎ (d ≡ dir)
append-In dir d xs h = elim (In-append_cases d xs (dir ∷ []) h) [
  | inl old ↦ inl old
  | inr (inl e) ↦ inr e
  | inr (inr f) ↦ absurd f
]

append_self : (dir : Text) (xs : List Text) → In dir (xs ++ dir ∷ [])
append_self dir xs = In-append_right dir xs (dir ∷ []) (inl refl)

pub add_once-In : (dir d : Text) (xs : List Text) → In d (add_once dir xs) → In d xs ⊎ (d ≡ dir)
unfolding add_once
add_once-In dir d xs h = elim (Bool-cases (contains xs dir)) [
  | inl old ↦ inl (rw old at h)
  | inr new ↦ append-In dir d xs (rw new at h)
]

pub In-add_once : (dir d : Text) (xs : List Text) → In d xs → In d (add_once dir xs)
unfolding add_once
In-add_once dir d xs h = elim (Bool-cases (contains xs dir)) [
  | inl old ↦ rw old h
  | inr new ↦ rw new (In-append_left d xs (dir ∷ []) h)
]

pub add_once_self : (dir : Text) (xs : List Text) → In dir (add_once dir xs)
unfolding add_once
add_once_self dir xs = elim (Bool-cases (contains xs dir)) [
  | inl old ↦ rw old (contains-In xs dir old)
  | inr new ↦ rw new (append_self dir xs)
]

appending-Grows : (dir : Text) → Grows dir (λ xs. xs ++ dir ∷ [])
appending-Grows dir = record {
  grow-In = append-In dir;
  In-grow = λ d xs h. In-append_left d xs (dir ∷ []) h;
  grow-self = append_self dir;
}

add_once-Grows : (dir : Text) → Grows dir (add_once dir)
add_once-Grows dir = record {
  grow-In = add_once-In dir;
  In-grow = In-add_once dir;
  grow-self = add_once_self dir;
}

add_consumers-eq :
    (dir : Text) (kinds : List Text) (m : Dict (List Text))
    → add_consumers dir kinds m ≡ update_all (λ xs. xs ++ dir ∷ []) kinds m
unfolding add_consumers
add_consumers-eq dir [] m = refl
add_consumers-eq dir (kind ∷ kinds) m =
    add_consumers-eq dir kinds (insert kind (dirs_at kind m ++ dir ∷ []) m)

add_dir-eq :
    (dir : Text) (kinds : List Text) (m : Dict (List Text))
    → add_dir dir kinds m ≡ update_all (add_once dir) kinds m
unfolding add_dir
add_dir-eq dir [] m = refl
add_dir-eq dir (kind ∷ kinds) m =
    add_dir-eq dir kinds (insert kind (add_once dir (dirs_at kind m)) m)

add_consumers-Adds : Adds add_consumers
add_consumers-Adds = record {
  add-In = λ dir kinds k d m h.
      update_all-In dir (λ xs. xs ++ dir ∷ []) (appending-Grows dir) kinds k d m
        (rw (add_consumers-eq dir kinds m) at h);
  add-old = λ dir kinds k d m h.
      rw (add_consumers-eq dir kinds m)
        (update_all-old dir (λ xs. xs ++ dir ∷ []) (appending-Grows dir) kinds k d m h);
  add-new = λ dir kinds k m h.
      rw (add_consumers-eq dir kinds m)
        (update_all-new dir (λ xs. xs ++ dir ∷ []) (appending-Grows dir) kinds k m h);
}

add_dir-Adds : Adds add_dir
add_dir-Adds = record {
  add-In = λ dir kinds k d m h.
      update_all-In dir (add_once dir) (add_once-Grows dir) kinds k d m
        (rw (add_dir-eq dir kinds m) at h);
  add-old = λ dir kinds k d m h.
      rw (add_dir-eq dir kinds m)
        (update_all-old dir (add_once dir) (add_once-Grows dir) kinds k d m h);
  add-new = λ dir kinds k m h.
      rw (add_dir-eq dir kinds m)
        (update_all-new dir (add_once dir) (add_once-Grows dir) kinds k m h);
}

index_consumers-eq :
    (eps : List Endpoint) (m : Dict (List Text))
    → index_consumers eps m ≡ index_by add_consumers (λ ep. ep.consumes) eps m
unfolding index_consumers
index_consumers-eq [] m = refl
index_consumers-eq (ep ∷ eps) m = index_consumers-eq eps (add_consumers ep.dir ep.consumes m)

index_consumer_dirs-eq :
    (eps : List Endpoint) (m : Dict (List Text))
    → index_consumer_dirs eps m ≡ index_by add_dir (λ ep. ep.consumes) eps m
unfolding index_consumer_dirs
index_consumer_dirs-eq [] m = refl
index_consumer_dirs-eq (ep ∷ eps) m = index_consumer_dirs-eq eps (add_dir ep.dir ep.consumes m)

index_producers-eq :
    (eps : List Endpoint) (m : Dict (List Text))
    → index_producers eps m ≡ index_by add_dir (λ ep. ep.produces) eps m
unfolding index_producers
index_producers-eq [] m = refl
index_producers-eq (ep ∷ eps) m = index_producers-eq eps (add_dir ep.dir ep.produces m)

module _ (add : Text → List Text → Dict (List Text) → Dict (List Text)) (laws : Adds add)
    (select : Endpoint → List Text) (index : List Endpoint → Dict (List Text))
    (eq : (eps : List Endpoint) → index eps ≡ index_by add select eps []) where
  -- An index that starts empty holds exactly the named directories.
  index_iff :
      (eps : List Endpoint) (k d : Text) → In d (dirs_at k (index eps)) ↔ Names select eps k d
  unfolding lookup
  index_iff eps k d = (
    λ h. elim (index_by-In add laws select eps k d [] (rw (eq eps) at h)) [
      | inl f ↦ absurd f
      | inr n ↦ n
    ],
    λ (ep, at, e, f). rw (eq eps) (index_by-new add laws select eps k d [] ep at e f),
  )

pub consumers_iff :
    (eps : List Endpoint) (k d : Text)
    → In d (dirs_at k (index_consumers eps [])) ↔ Consumer eps k d
consumers_iff =
    index_iff add_consumers add_consumers-Adds (λ ep. ep.consumes) (λ eps. index_consumers eps [])
      (λ eps. index_consumers-eq eps [])

pub index_consumer_dirs_iff :
    (eps : List Endpoint) (k d : Text)
    → In d (dirs_at k (index_consumer_dirs eps [])) ↔ Consumer eps k d
index_consumer_dirs_iff =
    index_iff add_dir add_dir-Adds (λ ep. ep.consumes) (λ eps. index_consumer_dirs eps [])
      (λ eps. index_consumer_dirs-eq eps [])

pub producers_iff :
    (eps : List Endpoint) (k d : Text)
    → In d (dirs_at k (index_producers eps [])) ↔ Producer eps k d
producers_iff =
    index_iff add_dir add_dir-Adds (λ ep. ep.produces) (λ eps. index_producers eps [])
      (λ eps. index_producers-eq eps [])
