-- ===== src/Store/Defs.antt =====
-- The table staged_delivery and the SQL statements on it. A transaction takes effect whole or not
-- at all; the records of outcomes say which of its calls on the database succeed. SQL leaves the
-- order of a SELECT's rows open: here it is that of the table, and tables are taken in any order.
use phonewave.Prelude.{
  ℕ, ◌+◌, Bool, true, false, not, ◌&&◌, ◌||◌, Option, none, some, List, [], ◌∷◌, Text, ◌==◌, leb,
  ltb, if◌then◌else◌, length,
}

-- One row; its primary key is the pair of path and target.
pub record Row : Type 0 where
  pub dmail_path : Text
  pub target : Text
  pub content : Text
  pub flushed : Bool
  pub retry_count : ℕ

abbrev pub Table : Type 0
Table = List Row

pub data StoreError : Type 0 where
  conn_failed begin_failed exec_failed commit_failed select_failed : StoreError
  rows_affected_failed vacuum_failed : StoreError

-- Which calls of one transaction succeed.
pub record Tx : Type 0 where
  pub conn : Bool
  pub begin : Bool
  pub exec : Bool
  pub commit : Bool

abbrev pub max_delivery_retry_count : ℕ
max_delivery_retry_count = 3

unfoldable pub has_key : Text → Text → Row → Bool
has_key path target r = r.dmail_path == path && r.target == target

-- Get a connection, begin, run one statement, commit: the new table, or the old one and an error.
unfoldable pub transact : {A : Type 0} → Tx → A → A → A × Option StoreError
transact tx old new =
    if not tx.conn
    then (old, some conn_failed)
    else if not tx.begin
    then (old, some begin_failed)
    else if not tx.exec
    then (old, some exec_failed)
    else if not tx.commit
    then (old, some commit_failed)
    else (new, none)

-- DO UPDATE SET data = excluded.data, flushed = 0, retry_count = 0
-- WHERE flushed = 0 OR data != excluded.data
unfoldable pub restage : Text → Row → Row
restage content r =
    if not r.flushed || not (r.content == content)
    then record r { content = content; flushed = false; retry_count = 0 }
    else r

abbrev pub new_row : Text → Text → Text → Row
new_row path target content = record {
  dmail_path = path;
  target = target;
  content = content;
  flushed = false;
  retry_count = 0;
}

-- INSERT INTO staged_delivery ... ON CONFLICT(dmail_path, target) ...
unfoldable pub upsert : Text → Text → Text → Table → Table
unfolding has_key restage
upsert path content target [] = new_row path target content ∷ []
upsert path content target (r ∷ rows) =
    let rest = upsert path content target rows in
    if has_key path target r then restage content r ∷ rows else r ∷ rest

-- The loop over the targets; `exec` says for which the statement succeeds.
unfoldable pub stage_targets : (Text → Bool) → Text → Text → List Text → Table → Option Table
unfolding upsert
stage_targets exec path content [] rows = some rows
stage_targets exec path content (target ∷ targets) rows =
    let rest = stage_targets exec path content targets (upsert path content target rows) in
    if exec target then rest else none

-- StageDelivery
unfoldable pub stage_delivery :
    Tx → (Text → Bool) → Text → Text → List Text → Table → Table × Option StoreError
stage_delivery tx exec path content targets rows =
    elim (stage_targets exec path content targets rows) [
      | none ↦ transact (record tx { exec = false }) rows rows
      | some staged ↦ transact (record tx { exec = true }) rows staged
    ]

-- UPDATE staged_delivery SET ... WHERE dmail_path = ? AND target = ?
unfoldable pub update_rows : (Row → Row) → Text → Text → Table → Table
unfolding has_key
update_rows change path target [] = []
update_rows change path target (r ∷ rows) =
    (if has_key path target r then change r else r) ∷ update_rows change path target rows

abbrev pub set_flushed : Row → Row
set_flushed r = record r { flushed = true }

abbrev pub add_retry : Row → Row
add_retry r = record r { retry_count = r.retry_count + 1 }

unfoldable pub mark_flushed : Tx → Text → Text → Table → Table × Option StoreError
mark_flushed tx path target rows = transact tx rows (update_rows set_flushed path target rows)

unfoldable pub increment_retry_count : Tx → Text → Text → Table → Table × Option StoreError
increment_retry_count tx path target rows =
    transact tx rows (update_rows add_retry path target rows)

unfoldable pub select : (Row → Bool) → Table → Table
select test [] = []
select test (r ∷ rows) = let rest = select test rows in if test r then r ∷ rest else rest

-- WHERE flushed = 0 AND retry_count < ?
abbrev pub is_pending : Row → Bool
is_pending r = not r.flushed && ltb r.retry_count max_delivery_retry_count

-- WHERE flushed = 0 AND retry_count >= ?
abbrev pub is_dead : Row → Bool
is_dead r = not r.flushed && leb max_delivery_retry_count r.retry_count

unfoldable pub collect_unflushed : Table → Table
unfolding select
collect_unflushed = select is_pending

unfoldable pub recover_unflushed : Table → Table
unfolding select
recover_unflushed = select (λ r. not r.flushed)

unfoldable pub all_flushed_for : Text → Table → Bool
unfolding select
all_flushed_for path rows =
    leb (length (select (λ r. r.dmail_path == path && not r.flushed) rows)) 0

-- deleteFlushedRows, and with it PruneFlushed: the rows left, the error and how many went.
-- `counted` and `vacuumed` say whether RowsAffected and the vacuum afterwards succeed.
unfoldable pub prune_flushed : Tx → Bool → Bool → Table → Table × Option StoreError × ℕ
unfolding select transact
prune_flushed tx counted vacuumed rows =
    let (left, error) = transact tx rows (select (λ r. not r.flushed) rows) in
    let affected = if counted then length (select (λ r. r.flushed) rows) else 0 in
    elim error [
      | some e ↦ (left, some e, 0)
      | none ↦ (left, if vacuumed then none else some vacuum_failed, affected)
    ]

unfoldable pub dead_letter_count : Table → ℕ
unfolding select
dead_letter_count rows = length (select is_dead rows)

-- `executed` and `counted` say whether the DELETE and RowsAffected succeed.
unfoldable pub purge_dead_letters : Bool → Bool → Table → Table × Option StoreError × ℕ
unfolding select
purge_dead_letters executed counted rows =
    let left = select (λ r. not (is_dead r)) rows in
    if not executed
    then (rows, some exec_failed, 0)
    else if not counted
    then (left, some rows_affected_failed, 0)
    else (left, none, length (select is_dead rows))
