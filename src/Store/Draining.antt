-- ===== src/Store/Draining.antt =====
-- The end of a staged delivery: a row is flushed, or its retries run out.
use phonewave.Prelude.{
  ℕ, ◌-◌, ◌≤◌, ◌≡◌, refl, ap, ◌∙◌, inl, inr, Bool, true, false, [], ◌∷◌, map, arith, Text,
  Bool-cases, if◌then◌else◌, All, Dict,
}
use phonewave.Store.Defs.{
  Row, Table, has_key, is_pending, collect_unflushed, max_delivery_retry_count,
}
use phonewave.Store.Flush.{ItemOutcome, flush_deliveries}
use phonewave.Store.Keys.{Fresh, UniqueKeys, has_key-change}
use phonewave.Store.Flushing.{change, written, flush_row, IsDone}
use phonewave.Store.Advance.{flush_deliveries-map, change-KeepsKey}

pub flush_row-has_key :
    (world : Row → ItemOutcome) (path target : Text) (r : Row)
    → has_key path target (flush_row world r) ≡ has_key path target r
flush_row-has_key world path target r = elim (Bool-cases (is_pending r)) [
  | inl e ↦
      rw e (
        has_key-change (change (written world r)) (change-KeepsKey (written world r)) path target r)
  | inr n ↦ rw n
]

Fresh-map :
    (world : Row → ItemOutcome) (path target : Text) (rows : Table)
    → Fresh path target rows
    → Fresh path target (map (flush_row world) rows)
Fresh-map world path target [] h = tt
Fresh-map world path target (r ∷ rows) h =
    (flush_row-has_key world path target r ∙ h.0, Fresh-map world path target rows h.1)

UniqueKeys-map :
    (world : Row → ItemOutcome) (rows : Table)
    → UniqueKeys rows
    → UniqueKeys (map (flush_row world) rows)
UniqueKeys-map world [] h = tt
UniqueKeys-map world (r ∷ rows) h = (
  elim (Bool-cases (is_pending r)) [
    | inl e ↦ rw e (same (written world r))
    | inr n ↦ rw n (Fresh-map world r.dmail_path r.target rows h.0)
  ],
  UniqueKeys-map world rows h.1,
)
  where
    same :
        (w : Bool) → Fresh (change w r).dmail_path (change w r).target (map (flush_row world) rows)
    same w =
        rw ((change-KeepsKey w r).0, (change-KeepsKey w r).1)
          (Fresh-map world r.dmail_path r.target rows h.0)

-- A flush without errors of the database, for every row.
abbrev pub AllDone : (Row → ItemOutcome) → Type 0
AllDone world = (r : Row) → IsDone (world r).tx

pub All-IsDone :
    (world : Row → ItemOutcome) (rows : Table) → AllDone world → All (λ r. IsDone (world r).tx) rows
All-IsDone world [] d = tt
All-IsDone world (r ∷ rows) d = (d r, All-IsDone world rows d)

-- The table after one flush of the others' choosing.
abbrev pub flushed_table : (Row → ItemOutcome) → Dict Text → Table → Table
flushed_table world files rows = (flush_deliveries true world rows files).0.rows

pub flushed_table-map :
    (world : Row → ItemOutcome) (files : Dict Text) (rows : Table)
    → UniqueKeys rows
    → AllDone world
    → flushed_table world files rows ≡ map (flush_row world) rows
flushed_table-map world files rows u d =
    ap (λ x. x.0.rows) (flush_deliveries-map world rows files u (All-IsDone world rows d))

-- How many more flushes a row can take part in.
rank : Row → ℕ
rank r = if r.flushed then 0 else max_delivery_retry_count - r.retry_count

rank-flush_row : (world : Row → ItemOutcome) (r : Row) → rank (flush_row world r) ≤ rank r - 1
unfolding rank
rank-flush_row world r = elim (Bool-cases (written world r)) [
  | inl e ↦ rw e (ground arith)
  | inr n ↦ rw n (ground arith)
]

rank-pending : (r : Row) → rank r ≡ 0 → is_pending r ≡ false
unfolding rank
rank-pending r h = ground arith

rank-le : (r : Row) → rank r ≤ 3
unfolding rank
rank-le r = ground arith

none_pending : (rows : Table) → All (λ r. rank r ≡ 0) rows → collect_unflushed rows ≡ []
unfolding collect_unflushed
none_pending [] h = refl
none_pending (r ∷ rows) h = rw (rank-pending r h.0) (none_pending rows h.1)

All-rank-map :
    (world : Row → ItemOutcome) (k : ℕ) (rows : Table)
    → All (λ r. rank r ≤ k) rows
    → All (λ r. rank r ≤ k - 1) (map (flush_row world) rows)
All-rank-map world k [] h = tt
All-rank-map world k (r ∷ rows) h =
    (omega (arith, h.0, rank-flush_row world r), All-rank-map world k rows h.1)

All-rank : (rows : Table) → All (λ r. rank r ≤ 3) rows
All-rank [] = tt
All-rank (r ∷ rows) = (rank-le r, All-rank rows)

All-zero : (rows : Table) → All (λ r. rank r ≤ 3 - 1 - 1 - 1) rows → All (λ r. rank r ≡ 0) rows
All-zero [] h = tt
All-zero (r ∷ rows) h = (omega (arith, h.0), All-zero rows h.1)

-- After three flushes without errors of the database nothing is pending, whatever was staged before
-- and whichever writes fail: every row is flushed or a dead letter. The keys of the table must be
-- unique.
pub three_flushes :
    (w₁ w₂ w₃ : Row → ItemOutcome) (f₁ f₂ f₃ : Dict Text) (rows : Table)
    → UniqueKeys rows
    → AllDone w₁
    → AllDone w₂
    → AllDone w₃
    → collect_unflushed (flushed_table w₃ f₃ (flushed_table w₂ f₂ (flushed_table w₁ f₁ rows))) ≡ []
three_flushes w₁ w₂ w₃ f₁ f₂ f₃ rows u d₁ d₂ d₃ =
    let rows₁ = map (flush_row w₁) rows in
    let rows₂ = map (flush_row w₂) rows₁ in
    let u₁ = UniqueKeys-map w₁ rows u in
    let u₂ = UniqueKeys-map w₂ rows₁ u₁ in
    rw (flushed_table-map w₁ f₁ rows u d₁) (
      rw (flushed_table-map w₂ f₂ rows₁ u₁ d₂) (
        rw (flushed_table-map w₃ f₃ rows₂ u₂ d₃) (
          none_pending (map (flush_row w₃) rows₂) (
            All-zero (map (flush_row w₃) rows₂) (
              All-rank-map w₃ (3 - 1 - 1) rows₂
                (All-rank-map w₂ (3 - 1) rows₁ (All-rank-map w₁ 3 rows (All-rank rows))))))))
