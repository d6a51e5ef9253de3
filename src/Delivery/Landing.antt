-- ===== src/Delivery/Landing.antt =====
-- What a delivery leaves when nothing fails.
use phonewave.Prelude.{
  ◌≡◌, refl, ap, ◌∙◌, ◌⊎◌, inl, inr, Bool, true, false, Option, none, some, List, [], ◌∷◌, map,
  arith, Text, ◌==◌, eq_iff, eq_refl, Bool-cases, In, In-contains,
}
use phonewave.FilePath.{base, join}
use phonewave.Store.{Row, Table, has_key, restage, is_pending, ItemOutcome}
use phonewave.Store.Keys.{UniqueKeys}
use phonewave.Store.Staging.{find, staged, stage_delivery_cases}
use phonewave.Store.Flushing.{IsDone, flush_row, written}
use phonewave.Store.Draining.{AllDone, flushed_table-map, flush_row-has_key}
use phonewave.Store.Unique.{stage_delivery-UniqueKeys}
use phonewave.Delivery.Dmail.{ok}
use phonewave.Delivery.Defs.{
  Env, World, State, DedupLog, has_delivered, target_paths, remaining_inboxes, delivery_plan,
  deliver_remaining, deliver_planned, deliver_data,
}
use phonewave.Delivery.Keeping.{staging, flushing, flushed_state, flushed_result}
use phonewave.Delivery.Recording.{remaining-known}
use phonewave.Delivery.Removal.{conclude-rows}

-- Nothing fails: the dedup store is read, rows are staged, every file is written and every row of
-- the table updated.
pub record Smooth (w : World) : Type 0 where
  pub read : (x : Text) → w.read x ≡ true
  pub stage : IsDone w.stage
  pub stage_row : (t : Text) → w.stage_row t ≡ true
  pub selected : w.selected ≡ true
  pub done : AllDone w.item
  pub writes : (r : Row) → written w.item r ≡ true

-- The target has a row that is flushed and has the content.
abbrev pub Landed : Text → Text → Text → Table → Type 0
Landed path content target rows =
    (r : Row) × (find path target rows ≡ some r) × (r.flushed ≡ true) × (r.content ≡ content)

find-map-none :
    (world : Row → ItemOutcome) (path target : Text) (rows : Table) (r : Row)
    → find path target rows ≡ some r
    → find path target (map (flush_row world) rows) ≡ some (flush_row world r)
unfolding find
find-map-none world path target [] r h = absurd (nothing h)
  where
    nothing : none ≡ some r → ⊥
    nothing e = cc
find-map-none world path target (s ∷ rows) r h = elim (Bool-cases (has_key path target s)) [
  | inl e ↦
      rw (flush_row-has_key world path target s)
        (rw e (ap some (ap (flush_row world) (inner (rw e at h)))))
  | inr n ↦
      rw (flush_row-has_key world path target s)
        (rw n (find-map-none world path target rows r (rw n at h)))
]
  where
    inner : some s ≡ some r → s ≡ r
    inner e = cc

-- A row just staged is flushed with the content, or pending with it.
staged-row :
    (path target content : Text) (o : Option Row)
    → ((staged path target content o).content ≡ content)
      × (((staged path target content o).flushed ≡ true)
          ⊎ (is_pending (staged path target content o) ≡ true))
unfolding restage
staged-row path target content none = (refl, inr refl)
staged-row path target content (some r) = elim (Bool-cases (r.content == content)) [
  | inl e ↦ ground (arith, eq_iff r.content content)
  | inr n ↦ rw n (ground arith)
]

flush-lands :
    (world : Row → ItemOutcome) (r : Row)
    → written world r ≡ true
    → (r.flushed ≡ true) ⊎ (is_pending r ≡ true)
    → ((flush_row world r).flushed ≡ true) × ((flush_row world r).content ≡ r.content)
flush-lands world r w (inr p) = rw (p, w) (refl, refl)
flush-lands world r w (inl f) = rw f (refl, refl)

In-target_paths :
    (name : Text) (inboxes : List Text) (x : Text)
    → In x inboxes
    → In (join x name) (target_paths name inboxes)
unfolding target_paths
In-target_paths name [] x at = absurd at
In-target_paths name (y ∷ ys) x (inl e) = inl (ap (λ z. join z name) e)
In-target_paths name (y ∷ ys) x (inr m) = inr (In-target_paths name ys x m)

flushing-lands :
    (w : World) (path content : Text) (inboxes : List Text) (s : State)
    → Smooth w
    → UniqueKeys s.rows
    → (x : Text) → In x inboxes
    → ((staging w path content inboxes s).1 ≡ none)
      × Landed path content (join x (base path)) (flushing w path content inboxes s).rows
flushing-lands w path content inboxes s smooth u x at =
    let targets = target_paths (base path) inboxes in
    let target = join x (base path) in
    let (okay, keys) =
      stage_delivery-UniqueKeys w.stage w.stage_row path content targets s.rows smooth.stage
        smooth.stage_row u in
    let found =
      (stage_delivery_cases w.stage w.stage_row path content targets s.rows).0 okay path target in
    let old = find path target s.rows in
    let r = staged path target content old in
    let (same, ready) = staged-row path target content old in
    let rows = (staging w path content inboxes s).0 in
    let here : find path target rows ≡ some r =
      found
      ∙ (rw (eq_refl path, In-contains targets target (In-target_paths (base path) inboxes x at))
          refl) in
    let (flushed, kept) = flush-lands w.item r (smooth.writes r) ready in
    (
      okay,
      (
        flush_row w.item r,
        rw smooth.selected (
            rw (flushed_table-map w.item s.files rows keys smooth.done)
              (find-map-none w.item path target rows r here)),
        flushed,
        kept ∙ same,
      ),
    )

remaining-lands :
    (dedup : Bool) (w : World) (key path content kind : Text) (inboxes : List Text) (s : State)
    → Smooth w
    → UniqueKeys s.rows
    → (x : Text) → In x inboxes
    → Landed path content
        (join x (base path))
        (deliver_remaining dedup w key path content kind inboxes s).0.rows
unfolding deliver_remaining
remaining-lands dedup w key path content kind inboxes s smooth u x at =
    let (okay, landed) = flushing-lands w path content inboxes s smooth u x at in
    rw (okay, deliver_remaining)
      (rw
        (conclude-rows dedup w key path (flushed_result w path content kind inboxes s) inboxes
          (flushed_state w path content inboxes s))
        landed)

remaining-readable :
    (read : Text → Bool) (key : Text) (log : DedupLog) (inboxes : List Text)
    → ((x : Text) → read x ≡ true)
    → (rest : List Text) × (remaining_inboxes read key log inboxes ≡ some rest)
unfolding remaining_inboxes
remaining-readable read key log [] r = ([], refl)
remaining-readable read key log (x ∷ xs) r =
    let (rest, e) = remaining-readable read key log xs r in
    elim (Bool-cases (has_delivered key x log)) [
      | inl d ↦ (rest, rw (r x, d) e)
      | inr n ↦ (x ∷ rest, rw (r x, n) (rw e refl))
    ]

planned-lands :
    (dedup : Bool) (w : World) (key path content kind : Text) (inboxes : List Text) (s : State)
    → Smooth w
    → UniqueKeys s.rows
    → (x : Text) → In x inboxes
    → ((dedup ≡ true) × (has_delivered key x s.log ≡ true))
      ⊎ Landed path content
          (join x (base path))
          (deliver_planned dedup w key path content kind inboxes s).0.rows
unfolding deliver_planned
planned-lands false w key path content kind inboxes s smooth u x at =
    inr (remaining-lands false w key path content kind inboxes s smooth u x at)
planned-lands true w key path content kind inboxes s smooth u x at =
    let (rest, e) = remaining-readable w.read key s.log inboxes smooth.read in
    elim (remaining-known w.read key s.log inboxes rest e x at) [
      | inl d ↦ inl (refl, d)
      | inr m ↦ inr (by_rest rest e m)
    ]
  where
    by_rest :
        (rest : List Text)
        → remaining_inboxes w.read key s.log inboxes ≡ some rest
        → In x rest
        → Landed path content
            (join x (base path))
            (deliver_planned true w key path content kind inboxes s).0.rows
    by_rest [] e m = absurd m
    by_rest (y ∷ ys) e m =
        rw (e, deliver_planned)
          (remaining-lands true w key path content kind (y ∷ ys) s smooth u x m)

-- Where nothing fails, each inbox of the plan had the content before, as the dedup store knows, or the
-- target in it has a row afterwards that is flushed and has the content. The keys of the table must
-- be unique.
pub deliver_data-lands :
    (env : Env) (dedup : Bool) (w : World) (path content kind : Text) (inboxes : List Text)
    (s : State)
    → Smooth w
    → UniqueKeys s.rows
    → delivery_plan env path content ≡ ok (kind, inboxes)
    → (x : Text) → In x inboxes
    → ((dedup ≡ true) × (has_delivered (env.idempotency_key content) x s.log ≡ true))
      ⊎ Landed path content (join x (base path)) (deliver_data env dedup w path content s).0.rows
unfolding deliver_data
deliver_data-lands env dedup w path content kind inboxes s smooth u plan x at =
    rw (plan, deliver_data)
      (planned-lands dedup w (env.idempotency_key content) path content kind inboxes s smooth u x
        at)
