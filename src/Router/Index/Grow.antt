-- ===== src/Router/Index/Grow.antt =====
-- Dictionaries from kinds to lists that grow by one directory at a time.
use mathlib.Core.Path.{subst}
use phonewave.Prelude.{
  ◌≡◌, refl, sym, ap, ◌∙◌, ◌⊎◌, inl, inr, List, [], ◌∷◌, arith, Text, ◌==◌, eq_iff, eq_refl,
  eq_cases, if◌then◌else◌, Dict, lookup, insert, lookup-insert, get_or, In,
}
use phonewave.Router.Defs.{Endpoint}

-- The directories under a kind.
abbrev pub dirs_at : Text → Dict (List Text) → List Text
dirs_at k m = get_or [] (lookup k m)

-- `dir` is the directory of an endpoint that names the kind.
abbrev pub Names : (Endpoint → List Text) → List Endpoint → Text → Text → Type 0
Names select eps kind dir = (ep : Endpoint) × In ep eps × (dir ≡ ep.dir) × In kind (select ep)

abbrev pub Consumer : List Endpoint → Text → Text → Type 0
Consumer = Names (λ ep. ep.consumes)

abbrev pub Producer : List Endpoint → Text → Text → Type 0
Producer = Names (λ ep. ep.produces)

pub dirs_at-insert :
    (kind k : Text) (v : List Text) (m : Dict (List Text))
    → dirs_at k (insert kind v m) ≡ (if kind == k then v else dirs_at k m)
dirs_at-insert kind k v m = rw lookup-insert (ground arith)

-- `grow` adds one directory to a list.
pub record Grows (dir : Text) (grow : List Text → List Text) : Type 0 where
  pub grow-In : (d : Text) (xs : List Text) → In d (grow xs) → In d xs ⊎ (d ≡ dir)
  pub In-grow : (d : Text) (xs : List Text) → In d xs → In d (grow xs)
  pub grow-self : (xs : List Text) → In dir (grow xs)

-- `add` puts one directory under each kind of a list.
pub record Adds (add : Text → List Text → Dict (List Text) → Dict (List Text)) : Type 0 where
  pub add-In :
      (dir : Text) (kinds : List Text) (k d : Text) (m : Dict (List Text))
      → In d (dirs_at k (add dir kinds m))
      → In d (dirs_at k m) ⊎ ((d ≡ dir) × In k kinds)
  pub add-old :
      (dir : Text) (kinds : List Text) (k d : Text) (m : Dict (List Text))
      → In d (dirs_at k m)
      → In d (dirs_at k (add dir kinds m))
  pub add-new :
      (dir : Text) (kinds : List Text) (k : Text) (m : Dict (List Text))
      → In k kinds
      → In dir (dirs_at k (add dir kinds m))

-- m[kind] = grow(m[kind])
abbrev pub update : (List Text → List Text) → Text → Dict (List Text) → Dict (List Text)
update grow kind m = insert kind (grow (dirs_at kind m)) m

-- The same for each kind of a list.
abbrev pub update_all : (List Text → List Text) → List Text → Dict (List Text) → Dict (List Text)
update_all grow [] m = m
update_all grow (kind ∷ kinds) m = update_all grow kinds (update grow kind m)

-- The same for each endpoint.
abbrev pub index_by :
    (Text → List Text → Dict (List Text) → Dict (List Text))
    → (Endpoint → List Text)
    → List Endpoint
    → Dict (List Text)
    → Dict (List Text)
index_by add select [] m = m
index_by add select (ep ∷ eps) m = index_by add select eps (add ep.dir (select ep) m)

module _ (dir : Text) (grow : List Text → List Text) (g : Grows dir grow) where
  open g use {grow-In, In-grow, grow-self}

  dirs_at-update :
      (kind k d : Text) (m : Dict (List Text))
      → In d (dirs_at k (update grow kind m))
      → In d (dirs_at k m) ⊎ ((d ≡ dir) × (k ≡ kind))
  dirs_at-update kind k d m h = elim (eq_cases kind k) [
    | inl e ↦ elim (grow-In d (dirs_at kind m) (at_same e)) [
      | inl old ↦ inl (subst (λ x. In d (dirs_at x m)) e old)
      | inr new ↦ inr (new, sym e)
    ]
    | inr n ↦ inl (rw (dirs_at-insert kind k (grow (dirs_at kind m)) m, n) at h)
  ]
    where
      at_same : kind ≡ k → In d (grow (dirs_at kind m))
      at_same e = rw (dirs_at-insert kind k (grow (dirs_at kind m)) m, (eq_iff kind k).1 e) at h

  update-old :
      (kind k d : Text) (m : Dict (List Text))
      → In d (dirs_at k m)
      → In d (dirs_at k (update grow kind m))
  update-old kind k d m h =
      rw (dirs_at-insert kind k (grow (dirs_at kind m)) m) (elim (eq_cases kind k) [
        | inl e ↦
            rw ((eq_iff kind k).1 e)
              (In-grow d (dirs_at kind m) (subst (λ x. In d (dirs_at x m)) (sym e) h))
        | inr n ↦ rw n h
      ])

  update-new : (kind : Text) (m : Dict (List Text)) → In dir (dirs_at kind (update grow kind m))
  update-new kind m =
      rw (dirs_at-insert kind kind (grow (dirs_at kind m)) m, eq_refl kind)
        (grow-self (dirs_at kind m))

  pub update_all-In :
      (kinds : List Text) (k d : Text) (m : Dict (List Text))
      → In d (dirs_at k (update_all grow kinds m))
      → In d (dirs_at k m) ⊎ ((d ≡ dir) × In k kinds)
  update_all-In [] k d m h = inl h
  update_all-In (kind ∷ kinds) k d m h = elim (update_all-In kinds k d (update grow kind m) h) [
    | inl old ↦ elim (dirs_at-update kind k d m old) [
      | inl older ↦ inl older
      | inr (e, f) ↦ inr (e, inl f)
    ]
    | inr (e, f) ↦ inr (e, inr f)
  ]

  pub update_all-old :
      (kinds : List Text) (k d : Text) (m : Dict (List Text))
      → In d (dirs_at k m)
      → In d (dirs_at k (update_all grow kinds m))
  update_all-old [] k d m h = h
  update_all-old (kind ∷ kinds) k d m h =
      update_all-old kinds k d (update grow kind m) (update-old kind k d m h)

  pub update_all-new :
      (kinds : List Text) (k : Text) (m : Dict (List Text))
      → In k kinds
      → In dir (dirs_at k (update_all grow kinds m))
  update_all-new [] k m h = absurd h
  update_all-new (kind ∷ kinds) k m (inl e) =
      update_all-old kinds k dir (update grow kind m)
        (subst (λ x. In dir (dirs_at x (update grow kind m))) (sym e) (update-new kind m))
  update_all-new (kind ∷ kinds) k m (inr h) = update_all-new kinds k (update grow kind m) h

-- An index of all endpoints, from what it adds for one.
module _ (add : Text → List Text → Dict (List Text) → Dict (List Text)) (laws : Adds add)
    (select : Endpoint → List Text) where
  open laws use {add-In, add-old, add-new}

  pub index_by-In :
      (eps : List Endpoint) (k d : Text) (m : Dict (List Text))
      → In d (dirs_at k (index_by add select eps m))
      → In d (dirs_at k m) ⊎ Names select eps k d
  index_by-In [] k d m h = inl h
  index_by-In (ep ∷ eps) k d m h = elim (index_by-In eps k d (add ep.dir (select ep) m) h) [
    | inl old ↦ elim (add-In ep.dir (select ep) k d m old) [
      | inl older ↦ inl older
      | inr (e, f) ↦ inr (ep, inl refl, e, f)
    ]
    | inr (other, at, e, f) ↦ inr (other, inr at, e, f)
  ]

  pub index_by-old :
      (eps : List Endpoint) (k d : Text) (m : Dict (List Text))
      → In d (dirs_at k m)
      → In d (dirs_at k (index_by add select eps m))
  index_by-old [] k d m h = h
  index_by-old (ep ∷ eps) k d m h =
      index_by-old eps k d (add ep.dir (select ep) m) (add-old ep.dir (select ep) k d m h)

  pub index_by-new :
      (eps : List Endpoint) (k d : Text) (m : Dict (List Text)) (ep : Endpoint)
      → In ep eps
      → d ≡ ep.dir
      → In k (select ep)
      → In d (dirs_at k (index_by add select eps m))
  index_by-new [] k d m ep at e f = absurd at
  index_by-new (x ∷ eps) k d m ep (inl same) e f =
      subst (λ y. In y (dirs_at k (index_by add select (x ∷ eps) m)))
        (ap (λ y. y.dir) (sym same) ∙ sym e)
        (index_by-old eps k x.dir (add x.dir (select x) m)
          (add-new x.dir (select x) k m (subst (λ y. In k (select y)) same f)))
  index_by-new (x ∷ eps) k d m ep (inr at) e f =
      index_by-new eps k d (add x.dir (select x) m) ep at e f
