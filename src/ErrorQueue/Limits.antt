-- ===== src/ErrorQueue/Limits.antt =====
-- How often an entry is tried.
use mathlib.Core.Path.{subst}
use phonewave.Prelude.{
  ℕ, ◌≤◌, ◌<◌, ◌≡◌, refl, sym, ◌∙◌, inl, inr, Bool, false, List, [], ◌∷◌, arith, Text, ◌==◌, eq_iff,
  Bool-cases, All, All-append, In,
}
use phonewave.Store.{Tx, transact}
use phonewave.ErrorQueue.Defs.{
  Entry, Queue, new_entry, insert_or_ignore, enqueue, has_name, is_claimable, claim_row, claim_rows,
  claim_pending_retries, update_named, resolve, retried, increment_retry, mark_resolved, Step,
  enqueued, claimed, incremented, marked, step, steps,
}
use phonewave.ErrorQueue.Known.{claim-cases}
use phonewave.ErrorQueue.Claims.{returned-In, claim_row-not}
use phonewave.ErrorQueue.Returns.{claim_row-claimable}

-- A claimed entry that is unresolved is below the limit.
abbrev Below : ℕ → Entry → Type 0
Below m r = r.resolved ≡ false → (r.claimed_by == []) ≡ false → r.retry_count < m

-- A step that claims with this limit at most, if it claims.
abbrev pub UsesLimit : ℕ → Step → Type 0
UsesLimit m (claimed tx queried claimer now max_retries) = max_retries ≤ m
UsesLimit m _ = Unit

claim_row-Below :
    (m : ℕ) (claimer : Text) (now max_retries : ℕ) (r : Entry)
    → max_retries ≤ m
    → Below m r
    → Below m (claim_row claimer now max_retries r)
claim_row-Below m claimer now l r le h = elim (Bool-cases (is_claimable now l r)) [
  | inl t ↦ rw (claim_row-claimable claimer now l r t) (λ _ _. unfold is_claimable in ground arith)
  | inr f ↦ rw (claim_row-not claimer now l r f) h
]

All-Below-claim_rows :
    (m : ℕ) (claimer : Text) (now max_retries : ℕ) (rows : Queue)
    → max_retries ≤ m
    → All (Below m) rows
    → All (Below m) (claim_rows claimer now max_retries rows)
unfolding claim_rows
All-Below-claim_rows m claimer now l [] le h = tt
All-Below-claim_rows m claimer now l (r ∷ rows) le h =
    (claim_row-Below m claimer now l r le h.0, All-Below-claim_rows m claimer now l rows le h.1)

All-Below-update_named :
    (m : ℕ) (change : Entry → Entry) (name : Text)
    → ((r : Entry) → Below m r → Below m (change r))
    → (rows : Queue) → All (Below m) rows
    → All (Below m) (update_named change name rows)
unfolding update_named
All-Below-update_named m change name keeps [] h = tt
All-Below-update_named m change name keeps (r ∷ rows) h = (
  elim (Bool-cases (r.name == name)) [ inl e ↦ rw e (keeps r h.0) | inr f ↦ rw f h.0 ],
  All-Below-update_named m change name keeps rows h.1,
)

All-transact :
    (Q : Entry → Type 0) (tx : Tx) (old new : Queue)
    → All Q old
    → All Q new
    → All Q (transact tx old new).0
unfolding transact
All-transact Q tx old new h k = ground arith

no_claimer : (m : ℕ) (r : Entry) → r.claimed_by ≡ [] → Below m r
no_claimer m r e o c = cc (sym c ∙ (eq_iff r.claimed_by []).1 e)

All-Below-insert :
    (m : ℕ) (e : Entry) (rows : Queue)
    → e.claimed_by ≡ []
    → All (Below m) rows
    → All (Below m) (insert_or_ignore e rows)
unfolding insert_or_ignore
All-Below-insert m e rows c h = elim (Bool-cases (has_name e.name rows)) [
  | inl t ↦ rw t h
  | inr f ↦ rw f (All-append (Below m) rows (e ∷ []) h (no_claimer m e c, tt))
]

All-Below-step :
    (m : ℕ) (s : Step) (rows : Queue)
    → UsesLimit m s
    → All (Below m) rows
    → All (Below m) (step s rows)
unfolding step enqueue increment_retry mark_resolved
All-Below-step m (enqueued tx name content meta) rows l h =
    All-transact (Below m) tx rows (insert_or_ignore (new_entry name content meta) rows) h
      (All-Below-insert m (new_entry name content meta) rows refl h)
All-Below-step m (claimed tx queried claimer now max_retries) rows l h =
    elim (claim-cases tx queried claimer now max_retries rows) [
      | inl (same, _) ↦ rw (same.0) h
      | inr (e, _) ↦ rw e (All-Below-claim_rows m claimer now max_retries rows l h)
    ]
All-Below-step m (incremented tx name message) rows l h =
    All-transact (Below m) tx rows (update_named (retried message) name rows) h (
      All-Below-update_named m (retried message) name (λ r _. no_claimer m (retried message r) refl)
        rows h)
All-Below-step m (marked tx name) rows l h =
    All-transact (Below m) tx rows (update_named resolve name rows) h
      (All-Below-update_named m resolve name (λ r _ o. cc) rows h)

All-Below-steps :
    (m : ℕ) (ss : List Step) (rows : Queue)
    → All (UsesLimit m) ss
    → All (Below m) rows
    → All (Below m) (steps ss rows)
unfolding steps
All-Below-steps m [] rows l h = h
All-Below-steps m (s ∷ ss) rows l h =
    All-Below-steps m ss (step s rows) l.1 (All-Below-step m s rows l.0 h)

All-In : (Q : Entry → Type 0) (rows : Queue) (r : Entry) → All Q rows → In r rows → Q r
All-In Q [] r h at = absurd at
All-In Q (x ∷ rows) r h (inl same) = subst Q (sym same) h.0
All-In Q (x ∷ rows) r h (inr k) = All-In Q rows r h.1 k

-- If the queue was empty at first and no claim used a limit above m, each entry that a claim
-- returns has been tried fewer than m times, whatever was done to the queue in whatever
-- order. The empty text is no claimer.
pub retries_below :
    (m : ℕ) (ss : List Step)
    → All (UsesLimit m) ss
    → (tx : Tx) (queried : Bool) (claimer : Text) (now max_retries : ℕ) → (claimer == []) ≡ false
    → max_retries ≤ m
    → (e : Entry) → In e (claim_pending_retries tx queried claimer now max_retries (steps ss [])).2
    → e.retry_count < m
retries_below m ss l tx queried claimer now max_retries c le e h =
    let rows = steps ss [] in
    let (_, at, mine, unsolved) = returned-In tx queried claimer now max_retries rows e h in
    All-In (Below m) (claim_rows claimer now max_retries rows) e
      (All-Below-claim_rows m claimer now max_retries rows le (All-Below-steps m ss [] l tt)) at
      unsolved (rw mine c)
