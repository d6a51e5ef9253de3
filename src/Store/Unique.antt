-- ===== src/Store/Unique.antt =====
-- Staging keeps keys unique, as the primary key of the table does.
use phonewave.Prelude.{
  ◌≡◌, refl, inl, inr, Bool, true, false, ◌&&◌, none, some, List, [], ◌∷◌, arith, Text, ◌==◌,
  eq_iff, Bool-cases,
}
use phonewave.Store.Defs.{
  Row, Table, Tx, has_key, restage, upsert, stage_targets, stage_delivery, transact,
}
use phonewave.Store.Keys.{Fresh, UniqueKeys}
use phonewave.Store.Flushing.{IsDone}

restage-key :
    (content : Text) (r : Row)
    → ((restage content r).dmail_path ≡ r.dmail_path) × ((restage content r).target ≡ r.target)
unfolding restage
restage-key content r = (ground arith, ground arith)

Fresh-upsert :
    (path content target p t : Text) (rows : Table)
    → (path == p && target == t) ≡ false
    → Fresh p t rows
    → Fresh p t (upsert path content target rows)
unfolding upsert has_key
Fresh-upsert path content target p t [] n h = (n, tt)
Fresh-upsert path content target p t (r ∷ rows) n h =
    elim (Bool-cases (r.dmail_path == path && r.target == target)) [
      | inl e ↦ rw e (rw ((restage-key content r).0, (restage-key content r).1) (h.0, h.1))
      | inr f ↦ rw f (h.0, Fresh-upsert path content target p t rows n h.1)
    ]

differ :
    (path target : Text) (r : Row)
    → has_key path target r ≡ false
    → (path == r.dmail_path && target == r.target) ≡ false
unfolding has_key
differ path target r h = ground (
  arith,
  eq_iff path r.dmail_path,
  eq_iff r.dmail_path path,
  eq_iff target r.target,
  eq_iff r.target target,
)

UniqueKeys-upsert :
    (path content target : Text) (rows : Table)
    → UniqueKeys rows
    → UniqueKeys (upsert path content target rows)
unfolding upsert
UniqueKeys-upsert path content target [] u = (tt, tt)
UniqueKeys-upsert path content target (r ∷ rows) u = elim (Bool-cases (has_key path target r)) [
  | inl e ↦ rw e (rw ((restage-key content r).0, (restage-key content r).1) u.0, u.1)
  | inr n ↦ rw n (
    Fresh-upsert path content target r.dmail_path r.target rows (differ path target r n) u.0,
    UniqueKeys-upsert path content target rows u.1,
  )
]

-- Where every statement succeeds, the targets are staged.
pub staged_all :
    (exec : Text → Bool) (path content : Text) (targets : List Text) (rows : Table)
    → ((t : Text) → exec t ≡ true)
    → UniqueKeys rows
    → (rows' : Table) × (stage_targets exec path content targets rows ≡ some rows')
      × UniqueKeys rows'
unfolding stage_targets
staged_all exec path content [] rows h u = (rows, refl, u)
staged_all exec path content (t ∷ ts) rows h u =
    let (rows', e, k) =
      staged_all exec path content ts (upsert path content t rows) h
        (UniqueKeys-upsert path content t rows u) in
    (rows', rw (h t) e, k)

transact-IsDone : (tx : Tx) (old new : Table) → IsDone tx → transact tx old new ≡ (new, none)
unfolding transact
transact-IsDone tx old new h = rw (h.0, h.1, h.2, h.3) refl

pub stage_delivery-UniqueKeys :
    (tx : Tx) (exec : Text → Bool) (path content : Text) (targets : List Text) (rows : Table)
    → IsDone tx
    → ((t : Text) → exec t ≡ true)
    → UniqueKeys rows
    → ((stage_delivery tx exec path content targets rows).1 ≡ none)
      × UniqueKeys (stage_delivery tx exec path content targets rows).0
unfolding stage_delivery
stage_delivery-UniqueKeys tx exec path content targets rows d h u =
    let (rows', e, k) = staged_all exec path content targets rows h u in
    let ok_tx : Tx = record tx { exec = true } in
    let t = transact-IsDone ok_tx rows rows' (d.0, d.1, refl, d.3) in
    rw (e, stage_delivery) (rw t (refl, k))
