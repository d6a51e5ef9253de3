-- ===== src/Store/Staging.antt =====
-- What StageDelivery leaves in the table.
use phonewave.Prelude.{
  ◌≡◌, refl, ◌≢◌, ◌⊎◌, inl, inr, Bool, true, false, ◌&&◌, Option, none, some, List, [], ◌∷◌, arith,
  Text, ◌==◌, eq_iff, eq_refl, contains, Bool-cases, Option-cases, if◌then◌else◌,
}
use phonewave.Store.Defs.{
  Row, Table, Tx, StoreError, has_key, restage, new_row, upsert, stage_targets, stage_delivery,
  transact,
}

-- The row with a key.
unfoldable pub find : Text → Text → Table → Option Row
find path target [] = none
find path target (r ∷ rows) = if has_key path target r then some r else find path target rows

-- What staging makes of the row that stood under the key.
abbrev pub staged : Text → Text → Text → Option Row → Row
staged path target content none = new_row path target content
staged path target content (some r) = restage content r

has_key-new :
    (path target p t content : Text)
    → has_key p t (new_row path target content) ≡ (path == p && target == t)
unfolding has_key
has_key-new path target p t content = refl

has_key-restage : (p t content : Text) (r : Row) → has_key p t (restage content r) ≡ has_key p t r
unfolding has_key restage
has_key-restage p t content r = ground arith

-- Two keys of one row are the same.
has_key-same :
    (path target p t : Text) (r : Row)
    → has_key path target r ≡ true
    → has_key p t r ≡ (path == p && target == t)
unfolding has_key
has_key-same path target p t r h = ground (
  arith,
  eq_iff r.dmail_path path,
  eq_iff r.target target,
  eq_iff r.dmail_path p,
  eq_iff r.target t,
  eq_iff path p,
  eq_iff target t,
)

has_key-differ :
    (path target p t : Text) (r : Row)
    → has_key path target r ≡ false
    → (has_key p t r ≡ false) ⊎ ((path == p && target == t) ≡ false)
unfolding has_key
has_key-differ path target p t r h = ground (
  arith,
  eq_iff r.dmail_path path,
  eq_iff r.target target,
  eq_iff r.dmail_path p,
  eq_iff r.target t,
  eq_iff path p,
  eq_iff target t,
)

find-upsert :
    (path content target p t : Text) (rows : Table)
    → find p t (upsert path content target rows) ≡ (
        if path == p && target == t
        then some (staged path target content (find path target rows))
        else find p t rows)
unfolding find upsert
find-upsert path content target p t [] = rw (has_key-new path target p t content)
find-upsert path content target p t (r ∷ rows) = elim (Bool-cases (has_key path target r)) [
  | inl e ↦ ground (arith, has_key-restage p t content r, has_key-same path target p t r)
  | inr n ↦
      ground (arith, find-upsert path content target p t rows, has_key-differ path target p t r n)
]

-- Staging the same content again changes nothing.
staged-staged :
    (path target content : Text) (o : Option Row)
    → staged path target content (some (staged path target content o))
      ≡ staged path target content o
unfolding restage
staged-staged path target content none = ground arith
staged-staged path target content (some r) = ground arith

find-stage_targets :
    (exec : Text → Bool) (path content : Text) (targets : List Text) (rows rows' : Table)
    (p t : Text)
    → stage_targets exec path content targets rows ≡ some rows'
    → find p t rows' ≡ (
        if path == p && contains targets t
        then some (staged path t content (find path t rows))
        else find p t rows)
unfolding stage_targets contains
find-stage_targets exec path content [] rows rows' p t h = ground arith
find-stage_targets exec path content (target ∷ targets) rows rows' p t h =
    let next = upsert path content target rows in
    elim (Bool-cases (exec target)) [
      | inl e ↦ ground (
        arith,
        find-stage_targets exec path content targets next rows' p t (rw e at h),
        find-upsert path content target path t rows,
        find-upsert path content target p t rows,
        eq_refl path,
        eq_iff target t,
        eq_iff path p,
        staged-staged path t content (find path t rows),
      )
      | inr n ↦ cc (rw n at h)
    ]

-- A transaction without an error has its effect, one with an error has none.
pub transact-none :
    (tx : Tx) (old new : Table) → (transact tx old new).1 ≡ none → (transact tx old new).0 ≡ new
unfolding transact
transact-none tx old new h = ground arith

pub transact-some :
    (tx : Tx) (old new : Table) (e : StoreError)
    → (transact tx old new).1 ≡ some e
    → (transact tx old new).0 ≡ old
unfolding transact
transact-some tx old new e h = ground arith

transact-not_executed :
    (tx : Tx) (old new : Table) → (transact (record tx { exec = false }) old new).1 ≢ none
unfolding transact
transact-not_executed tx old new h = ground arith

pub stage_delivery_cases :
    (tx : Tx) (exec : Text → Bool) (path content : Text) (targets : List Text) (rows : Table)
    → ((stage_delivery tx exec path content targets rows).1 ≡ none
        → (p t : Text)
        → find p t (stage_delivery tx exec path content targets rows).0 ≡ (
            if path == p && contains targets t
            then some (staged path t content (find path t rows))
            else find p t rows))
      × ((e : StoreError)
          → (stage_delivery tx exec path content targets rows).1 ≡ some e
          → (stage_delivery tx exec path content targets rows).0 ≡ rows)
unfolding stage_delivery
stage_delivery_cases tx exec path content targets rows = (
  λ h p t. ok h p t (Option-cases (stage_targets exec path content targets rows)),
  λ e h. failed e h (Option-cases (stage_targets exec path content targets rows)),
)
  where
    result : Table × Option StoreError
    result = stage_delivery tx exec path content targets rows

    ok :
        (result.1 ≡ none)
        → (p t : Text)
        → (stage_targets exec path content targets rows ≡ none)
          ⊎ ((rows' : Table) × (stage_targets exec path content targets rows ≡ some rows'))
        → find p t result.0 ≡ (
            if path == p && contains targets t
            then some (staged path t content (find path t rows))
            else find p t rows)
    ok h p t (inl e) = absurd (transact-not_executed tx rows rows (rw (e, stage_delivery) at h))
    ok h p t (inr (rows', e)) =
        rw (e, stage_delivery)
          (rw (transact-none (record tx { exec = true }) rows rows' (rw (e, stage_delivery) at h))
            (find-stage_targets exec path content targets rows rows' p t e))

    failed :
        (err : StoreError)
        → result.1 ≡ some err
        → (stage_targets exec path content targets rows ≡ none)
          ⊎ ((rows' : Table) × (stage_targets exec path content targets rows ≡ some rows'))
        → result.0 ≡ rows
    failed err h (inl e) =
        rw (e, stage_delivery)
          (transact-some (record tx { exec = false }) rows rows err (rw (e, stage_delivery) at h))
    failed err h (inr (rows', e)) =
        rw (e, stage_delivery)
          (transact-some (record tx { exec = true }) rows rows' err (rw (e, stage_delivery) at h))
