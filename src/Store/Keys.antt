-- ===== src/Store/Keys.antt =====
-- The primary key: no two rows have the same path and target.
use phonewave.Prelude.{
  ◌≡◌, refl, ◌∙◌, ◌⊎◌, inl, inr, Bool, true, false, [], ◌∷◌, arith, Text, eq_iff, eq_refl,
  Bool-cases, All, In,
}
use phonewave.Store.Defs.{Row, Table, has_key, update_rows, select}

-- No row has the key.
abbrev pub Fresh : Text → Text → Table → Type 0
Fresh path target rows = All (λ r. has_key path target r ≡ false) rows

abbrev pub UniqueKeys : Table → Type 0
UniqueKeys [] = Unit
UniqueKeys (r ∷ rows) = Fresh r.dmail_path r.target rows × UniqueKeys rows

pub has_key_self : (r : Row) → has_key r.dmail_path r.target r ≡ true
unfolding has_key
has_key_self r = ground (arith, eq_refl r.dmail_path, eq_refl r.target)

pub has_key-sym : (r s : Row) → has_key r.dmail_path r.target s ≡ has_key s.dmail_path s.target r
unfolding has_key
has_key-sym r s = ground (
  arith,
  eq_iff r.dmail_path s.dmail_path,
  eq_iff s.dmail_path r.dmail_path,
  eq_iff r.target s.target,
  eq_iff s.target r.target,
)

-- A change that keeps a row's key.
abbrev pub KeepsKey : (Row → Row) → Type 0
KeepsKey change =
    (r : Row) → ((change r).dmail_path ≡ r.dmail_path) × ((change r).target ≡ r.target)

pub has_key-change :
    (change : Row → Row)
    → KeepsKey change
    → (path target : Text) (r : Row) → has_key path target (change r) ≡ has_key path target r
unfolding has_key
has_key-change change keeps path target r = ground (arith, keeps r)

pub Fresh-update_rows :
    (change : Row → Row)
    → KeepsKey change
    → (path target p t : Text) (rows : Table) → Fresh p t rows
    → Fresh p t (update_rows change path target rows)
unfolding update_rows
Fresh-update_rows change keeps path target p t [] h = tt
Fresh-update_rows change keeps path target p t (r ∷ rows) h = (
  elim (Bool-cases (has_key path target r)) [
    | inl e ↦ rw e (has_key-change change keeps p t r ∙ h.0)
    | inr n ↦ rw n h.0
  ],
  Fresh-update_rows change keeps path target p t rows h.1,
)

pub UniqueKeys-update_rows :
    (change : Row → Row)
    → KeepsKey change
    → (path target : Text) (rows : Table) → UniqueKeys rows
    → UniqueKeys (update_rows change path target rows)
unfolding update_rows
UniqueKeys-update_rows change keeps path target [] h = tt
UniqueKeys-update_rows change keeps path target (r ∷ rows) h = (
  elim (Bool-cases (has_key path target r)) [
    | inl e ↦ rw e (
        rw ((keeps r).0, (keeps r).1)
          (Fresh-update_rows change keeps path target r.dmail_path r.target rows h.0))
    | inr n ↦ rw n (Fresh-update_rows change keeps path target r.dmail_path r.target rows h.0)
  ],
  UniqueKeys-update_rows change keeps path target rows h.1,
)

-- A row of the selection is one of the table.
pub All-select {κ} :
    (P : Row → Type κ) (test : Row → Bool) (rows : Table) → All P rows → All P (select test rows)
unfolding select
All-select P test [] h = tt
All-select P test (r ∷ rows) h = elim (Bool-cases (test r)) [
  | inl e ↦ rw e (h.0, All-select P test rows h.1)
  | inr n ↦ rw n (All-select P test rows h.1)
]

pub UniqueKeys-select :
    (test : Row → Bool) (rows : Table) → UniqueKeys rows → UniqueKeys (select test rows)
unfolding select
UniqueKeys-select test [] h = tt
UniqueKeys-select test (r ∷ rows) h = elim (Bool-cases (test r)) [
  | inl e ↦ rw e (
    All-select (λ s. has_key r.dmail_path r.target s ≡ false) test rows h.0,
    UniqueKeys-select test rows h.1,
  )
  | inr n ↦ rw n (UniqueKeys-select test rows h.1)
]

pub update_rows-Fresh :
    (change : Row → Row) (path target : Text) (rows : Table)
    → Fresh path target rows
    → update_rows change path target rows ≡ rows
unfolding update_rows
update_rows-Fresh change path target [] h = refl
update_rows-Fresh change path target (r ∷ rows) h =
    rw (h.0, update_rows-Fresh change path target rows h.1)

pub select-In :
    (test : Row → Bool) (rows : Table) (r : Row)
    → In r (select test rows)
    → In r rows × (test r ≡ true)
unfolding select
select-In test [] r h = absurd h
select-In test (s ∷ rows) r h = elim (Bool-cases (test s)) [
  | inl e ↦ head e (rw e at h) (select-In test rows r)
  | inr n ↦ let (at, t) = select-In test rows r (rw n at h) in (inr at, t)
]
  where
    head :
        test s ≡ true
        → (r ≡ s) ⊎ In r (select test rows)
        → (In r (select test rows) → In r rows × (test r ≡ true))
        → In r (s ∷ rows) × (test r ≡ true)
    head e (inl same) ih = (inl same, rw same e)
    head e (inr m) ih = let (at, t) = ih m in (inr at, t)

pub In-select :
    (test : Row → Bool) (rows : Table) (r : Row)
    → In r rows
    → test r ≡ true
    → In r (select test rows)
unfolding select
In-select test [] r h t = absurd h
In-select test (s ∷ rows) r (inl e) t = rw (← e, t) (inl refl)
In-select test (s ∷ rows) r (inr m) t = elim (Bool-cases (test s)) [
  | inl e ↦ rw e (inr (In-select test rows r m t))
  | inr n ↦ rw n (In-select test rows r m t)
]
