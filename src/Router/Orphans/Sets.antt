-- ===== src/Router/Orphans/Sets.antt =====
-- The sets and the sorting behind DetectOrphans.
use mathlib.Core.Path.{subst}
use phonewave.Prelude.{
  ◌≡◌, refl, ◌↔◌, ◌⊎◌, inl, inr, true, false, some, List, [], ◌∷◌, Text, ◌==◌, Bool-cases, Dict,
  lookup, insert, lookup-insert, get_or, In, IsMap, insert-IsMap,
}
use phonewave.Router.Defs.{
  Endpoint, add_once, add_dir, index_producers, index_consumer_dirs, any_other, has_external_route,
  text_le, insert_sorted, sort,
}
use phonewave.Router.Index.{dirs_at, add_once_self}

insert_sorted-In :
    (t : Text) (xs : List Text) (k : Text) → In k (insert_sorted t xs) → (k ≡ t) ⊎ In k xs
unfolding insert_sorted
insert_sorted-In t [] k h = h
insert_sorted-In t (x ∷ xs) k h = elim (Bool-cases (text_le t x)) [
  | inl e ↦ rw e at h
  | inr n ↦ elim (let r : (k ≡ x) ⊎ In k (insert_sorted t xs) = rw n at h in r) [
    | inl e ↦ inr (inl e)
    | inr r ↦ elim (insert_sorted-In t xs k r) [ inl e ↦ inl e | inr m ↦ inr (inr m) ]
  ]
]

In-insert_sorted :
    (t : Text) (xs : List Text) (k : Text) → (k ≡ t) ⊎ In k xs → In k (insert_sorted t xs)
unfolding insert_sorted
In-insert_sorted t [] k h = h
In-insert_sorted t (x ∷ xs) k h = elim (Bool-cases (text_le t x)) [
  | inl e ↦ rw e h
  | inr n ↦ rw n (elim h [
    | inl e ↦ inr (In-insert_sorted t xs k (inl e))
    | inr (inl e) ↦ inl e
    | inr (inr m) ↦ inr (In-insert_sorted t xs k (inr m))
  ])
]

sort-In : (xs : List Text) (k : Text) → In k (sort xs) → In k xs
unfolding sort
sort-In [] k h = h
sort-In (x ∷ xs) k h = elim (insert_sorted-In x (sort xs) k h) [
  | inl e ↦ inl e
  | inr m ↦ inr (sort-In xs k m)
]

In-sort : (xs : List Text) (k : Text) → In k xs → In k (sort xs)
unfolding sort
In-sort [] k h = h
In-sort (x ∷ xs) k (inl e) = In-insert_sorted x (sort xs) k (inl e)
In-sort (x ∷ xs) k (inr m) = In-insert_sorted x (sort xs) k (inr (In-sort xs k m))

-- Sorting keeps the members.
pub sort_iff : (xs : List Text) (k : Text) → In k (sort xs) ↔ In k xs
sort_iff xs k = (sort-In xs k, In-sort xs k)

any_other-In :
    (p : Text) (cs : List Text) → any_other p cs ≡ true → (c : Text) × In c cs × ((p == c) ≡ false)
unfolding any_other
any_other-In p [] h = cc
any_other-In p (c ∷ cs) h = elim (Bool-cases (p == c)) [
  | inl e ↦ let (d, at, ne) = any_other-In p cs (rw e at h) in (d, inr at, ne)
  | inr n ↦ (c, inl refl, n)
]

In-any_other : (p c : Text) (cs : List Text) → In c cs → (p == c) ≡ false → any_other p cs ≡ true
unfolding any_other
In-any_other p c [] h ne = absurd h
In-any_other p c (d ∷ cs) (inl e) ne = rw (← e, ne)
In-any_other p c (d ∷ cs) (inr h) ne = elim (Bool-cases (p == d)) [
  | inl e ↦ rw e (In-any_other p c cs h ne)
  | inr n ↦ rw n
]

-- Some producer and some consumer differ.
abbrev pub Apart : List Text → List Text → Type 0
Apart ps cs = (p : Text) × (c : Text) × In p ps × In c cs × ((p == c) ≡ false)

has_external_route-Apart : (ps cs : List Text) → has_external_route ps cs ≡ true → Apart ps cs
unfolding has_external_route
has_external_route-Apart [] cs h = cc
has_external_route-Apart (p ∷ ps) cs h = elim (Bool-cases (any_other p cs)) [
  | inl e ↦ let (c, at, ne) = any_other-In p cs e in (p, c, inl refl, at, ne)
  | inr n ↦
      let (q, c, m, at, ne) = has_external_route-Apart ps cs (rw n at h) in (q, c, inr m, at, ne)
]

Apart-has_external_route :
    (ps cs : List Text) (p c : Text)
    → In p ps
    → In c cs
    → (p == c) ≡ false
    → has_external_route ps cs ≡ true
unfolding has_external_route
Apart-has_external_route [] cs p c m at ne = absurd m
Apart-has_external_route (q ∷ ps) cs p c (inl e) at ne =
    rw (In-any_other q c cs at (subst (λ y. (y == c) ≡ false) e ne))
Apart-has_external_route (q ∷ ps) cs p c (inr m) at ne = elim (Bool-cases (any_other q cs)) [
  | inl e ↦ rw e
  | inr n ↦ rw n (Apart-has_external_route ps cs p c m at ne)
]

pub external_iff : (ps cs : List Text) → (has_external_route ps cs ≡ true) ↔ Apart ps cs
external_iff ps cs = (
  has_external_route-Apart ps cs,
  λ (p, c, m, at, ne). Apart-has_external_route ps cs p c m at ne,
)

-- The sets of an index are not empty, and no kind has two entries.
pub record IsIndex (m : Dict (List Text)) : Type 0 where
  pub is_map : IsMap m
  pub has_dir : (k : Text) (dirs : List Text) → lookup k m ≡ some dirs → (d : Text) × In d dirs

IsIndex-nil : IsIndex []
unfolding lookup
IsIndex-nil = record { is_map = tt; has_dir = λ k dirs e. cc }

add_dir-IsIndex :
    (dir : Text) (kinds : List Text) (m : Dict (List Text))
    → IsIndex m
    → IsIndex (add_dir dir kinds m)
unfolding add_dir
add_dir-IsIndex dir [] m h = h
add_dir-IsIndex dir (kind ∷ kinds) m h =
    add_dir-IsIndex dir kinds (insert kind dirs m)
      (record { is_map = insert-IsMap kind dirs m h.is_map; has_dir = has })
  where
    dirs : List Text
    dirs = add_once dir (dirs_at kind m)

    has :
        (k : Text) (ds : List Text) → lookup k (insert kind dirs m) ≡ some ds → (d : Text) × In d ds
    has k ds e = elim (Bool-cases (kind == k)) [
      | inl same ↦ (
        dir,
        subst (λ y. In dir (get_or [] y)) (rw (lookup-insert kind k dirs m, same) at e)
            (add_once_self dir (dirs_at kind m)),
      )
      | inr other ↦ h.has_dir k ds (rw (lookup-insert kind k dirs m, other) at e)
    ]

index_producers-IsIndex :
    (eps : List Endpoint) (m : Dict (List Text)) → IsIndex m → IsIndex (index_producers eps m)
unfolding index_producers
index_producers-IsIndex [] m h = h
index_producers-IsIndex (ep ∷ eps) m h =
    index_producers-IsIndex eps (add_dir ep.dir ep.produces m)
      (add_dir-IsIndex ep.dir ep.produces m h)

index_consumer_dirs-IsIndex :
    (eps : List Endpoint) (m : Dict (List Text)) → IsIndex m → IsIndex (index_consumer_dirs eps m)
unfolding index_consumer_dirs
index_consumer_dirs-IsIndex [] m h = h
index_consumer_dirs-IsIndex (ep ∷ eps) m h =
    index_consumer_dirs-IsIndex eps (add_dir ep.dir ep.consumes m)
      (add_dir-IsIndex ep.dir ep.consumes m h)

pub producers-IsIndex : (eps : List Endpoint) → IsIndex (index_producers eps [])
producers-IsIndex eps = index_producers-IsIndex eps [] IsIndex-nil

pub consumers-IsIndex : (eps : List Endpoint) → IsIndex (index_consumer_dirs eps [])
consumers-IsIndex eps = index_consumer_dirs-IsIndex eps [] IsIndex-nil
