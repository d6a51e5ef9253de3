-- ===== src/ErrorQueue/Defs.antt =====
-- The table error_queue and the SQL statements on it. Times are in seconds, as datetime('now')
-- gives them; text comparison of such times is that of the numbers. The time '' is none, and it
-- comes before all others. A limit of retries below 0 acts as 0.
use phonewave.Prelude.{
  ℕ, ◌+◌, Bool, true, false, not, ◌&&◌, ◌||◌, Option, none, some, List, [], ◌∷◌, ◌++◌, Text, ◌==◌,
  ltb, if◌then◌else◌,
}
use phonewave.Store.{
  StoreError, conn_failed, begin_failed, exec_failed, commit_failed, select_failed, Tx, transact,
}

-- One row; its primary key is the name.
pub record Entry : Type 0 where
  pub name : Text
  pub content : Text
  pub source_outbox : Text
  pub kind : Text
  pub original_name : Text
  pub error_message : Text
  pub retry_count : ℕ
  pub resolved : Bool
  pub claimed_by : Text
  pub claimed_at : Option ℕ

abbrev pub Queue : Type 0
Queue = List Entry

-- domain.ErrorMetadata; the time stamp is not stored.
pub record ErrorMetadata : Type 0 where
  pub source_outbox : Text
  pub kind : Text
  pub original_name : Text
  pub attempts : ℕ
  pub error : Text

abbrev pub new_entry : Text → Text → ErrorMetadata → Entry
new_entry name content meta = record {
  name = name;
  content = content;
  source_outbox = meta.source_outbox;
  kind = meta.kind;
  original_name = meta.original_name;
  error_message = meta.error;
  retry_count = meta.attempts;
  resolved = false;
  claimed_by = [];
  claimed_at = none;
}

unfoldable pub has_name : Text → Queue → Bool
has_name name [] = false
has_name name (r ∷ rows) = r.name == name || has_name name rows

-- INSERT OR IGNORE
unfoldable pub insert_or_ignore : Entry → Queue → Queue
unfolding has_name
insert_or_ignore e rows = if has_name e.name rows then rows else rows ++ e ∷ []

unfoldable pub enqueue : Tx → Text → Text → ErrorMetadata → Queue → Queue × Option StoreError
enqueue tx name content meta rows =
    transact tx rows (insert_or_ignore (new_entry name content meta) rows)

-- Five minutes
abbrev pub claim_lifetime : ℕ
claim_lifetime = 300

-- claimed_at < datetime('now', '-5 minutes')
unfoldable pub is_expired : ℕ → Option ℕ → Bool
is_expired now none = true
is_expired now (some t) = ltb (t + claim_lifetime) now

-- WHERE resolved = 0 AND retry_count < ? AND (claimed_by = '' OR claimed_at < ...)
unfoldable pub is_claimable : ℕ → ℕ → Entry → Bool
unfolding is_expired
is_claimable now max_retries r =
    not r.resolved
    && (ltb r.retry_count max_retries && (r.claimed_by == [] || is_expired now r.claimed_at))

unfoldable pub claim_row : Text → ℕ → ℕ → Entry → Entry
unfolding is_claimable
claim_row claimer now max_retries r =
    if is_claimable now max_retries r
    then record r { claimed_by = claimer; claimed_at = some now }
    else r

unfoldable pub claim_rows : Text → ℕ → ℕ → Queue → Queue
unfolding claim_row
claim_rows claimer now max_retries [] = []
claim_rows claimer now max_retries (r ∷ rows) =
    claim_row claimer now max_retries r ∷ claim_rows claimer now max_retries rows

-- SELECT ... WHERE claimed_by = ? AND resolved = 0
unfoldable pub claimed_entries : Text → Queue → List Entry
claimed_entries claimer [] = []
claimed_entries claimer (r ∷ rows) =
    let rest = claimed_entries claimer rows in
    if r.claimed_by == claimer && not r.resolved then r ∷ rest else rest

-- ClaimPendingRetries: the queue, the error and the entries; `queried` says whether reading the
-- claimed rows succeeds.
unfoldable pub claim_pending_retries :
    Tx → Bool → Text → ℕ → ℕ → Queue → Queue × Option StoreError × List Entry
unfolding claim_rows claimed_entries
claim_pending_retries tx queried claimer now max_retries rows =
    let claimed = claim_rows claimer now max_retries rows in
    if not tx.conn
    then (rows, some conn_failed, [])
    else if not tx.begin
    then (rows, some begin_failed, [])
    else if not tx.exec
    then (rows, some exec_failed, [])
    else if not queried
    then (rows, some select_failed, [])
    else if not tx.commit
    then (rows, some commit_failed, [])
    else (claimed, none, claimed_entries claimer claimed)

unfoldable pub pending_count : ℕ → Queue → ℕ
pending_count max_retries [] = 0
pending_count max_retries (r ∷ rows) =
    let rest = pending_count max_retries rows in
    if not r.resolved && ltb r.retry_count max_retries then rest + 1 else rest

-- UPDATE error_queue SET ... WHERE name = ?
unfoldable pub update_named : (Entry → Entry) → Text → Queue → Queue
update_named change name [] = []
update_named change name (r ∷ rows) =
    (if r.name == name then change r else r) ∷ update_named change name rows

abbrev pub retried : Text → Entry → Entry
retried message r = record r {
  retry_count = r.retry_count + 1;
  error_message = message;
  claimed_by = [];
  claimed_at = none;
}

unfoldable pub increment_retry : Tx → Text → Text → Queue → Queue × Option StoreError
increment_retry tx name message rows = transact tx rows (update_named (retried message) name rows)

abbrev pub resolve : Entry → Entry
resolve r = record r { resolved = true }

unfoldable pub mark_resolved : Tx → Text → Queue → Queue × Option StoreError
mark_resolved tx name rows = transact tx rows (update_named resolve name rows)

-- A call of one of the operations by some daemon.
pub data Step : Type 0 where
  enqueued : Tx → Text → Text → ErrorMetadata → Step
  claimed : Tx → Bool → Text → ℕ → ℕ → Step
  incremented : Tx → Text → Text → Step
  marked : Tx → Text → Step

unfoldable pub step : Step → Queue → Queue
step (enqueued tx name content meta) rows = (enqueue tx name content meta rows).0
step (claimed tx queried claimer now max_retries) rows =
    (claim_pending_retries tx queried claimer now max_retries rows).0
step (incremented tx name message) rows = (increment_retry tx name message rows).0
step (marked tx name) rows = (mark_resolved tx name rows).0

unfoldable pub steps : List Step → Queue → Queue
steps [] rows = rows
steps (s ∷ rest) rows = steps rest (step s rows)
