-- ===== src/Tests/Queueing.antt =====
-- Two daemons and one failed D-Mail in the queue.
use phonewave.Prelude.{
  ◌<◌, ◌≡◌, refl, ◌↔◌, inl, true, false, none, some, List, [], ◌∷◌, arith, Text, codes, ◌==◌, In,
}
use phonewave.Store.{Tx, transact}
use phonewave.ErrorQueue.{
  Entry, Queue, ErrorMetadata, new_entry, has_name, enqueue, insert_or_ignore,
  claim_pending_retries, claim_rows, claim_row, is_claimable, is_expired, claimed_entries,
  mark_resolved, update_named, Step, enqueued, claimed, step, steps,
}
use phonewave.ErrorQueue.Claims.{UniqueNames, claims_apart}
use phonewave.ErrorQueue.Resolved.{resolved_for_good}
use phonewave.ErrorQueue.Returns.{IsClaimOf, claim_iff}
use phonewave.ErrorQueue.Limits.{retries_below}

abbrev one : Text
one = codes "daemon-1"

abbrev two : Text
two = codes "daemon-2"

abbrev good_tx : Tx
good_tx = record { conn = true; begin = true; exec = true; commit = true }

abbrev meta : ErrorMetadata
meta = record {
  source_outbox = codes "/r/a/outbox";
  kind = codes "report";
  original_name = codes "m.md";
  attempts = 1;
  error = [];
}

abbrev queued : Entry
queued = new_entry (codes "e") (codes "x") meta

-- The entry after daemon-1 claimed it at 1000.
abbrev taken : Entry
taken = record queued { claimed_by = one; claimed_at = some 1000 }

abbrev queue : Queue
queue = queued ∷ []

-- An entry that daemon-2 can claim later.
abbrev other : Entry
other = new_entry (codes "f") (codes "y") meta

abbrev meanwhile : List Step
meanwhile = enqueued good_tx (codes "f") (codes "y") meta ∷ claimed good_tx true two 1100 10 ∷ []

queue-UniqueNames : UniqueNames queue
unfolding has_name
queue-UniqueNames = (refl, tt)

one-set : (one == []) ≡ false
unfolding ◌==◌
one-set = refl

one-two : (one == two) ≡ false
unfolding ◌==◌
one-two = refl

taken-In : In taken (claim_pending_retries good_tx true one 1000 10 queue).2
unfolding claim_pending_retries claim_rows claim_row is_claimable is_expired claimed_entries ◌==◌
taken-In = inl refl

abbrev other_taken : Entry
other_taken = record other { claimed_by = two; claimed_at = some 1100 }

other-In :
    In other_taken
      (claim_pending_retries good_tx true two 1200 10
        (steps meanwhile (claim_pending_retries good_tx true one 1000 10 queue).0)).2
unfolding steps step enqueue insert_or_ignore has_name transact claim_pending_retries claim_rows
    claim_row is_claimable is_expired claimed_entries ◌==◌
other-In = inl refl

claims_apart_example : (other_taken.name == taken.name) ≡ false
claims_apart_example =
    claims_apart queue one two queue-UniqueNames one-set one-two good_tx true 1000 10 taken taken-In
      1000 refl meanwhile (tt, (omega arith, tt)) good_tx true 1200 10 (omega arith) other_taken
      other-In

abbrev both : Queue
both = queued ∷ other ∷ []

queued-named : has_name (codes "e") both ≡ true
unfolding has_name ◌==◌
queued-named = refl

both-done : (mark_resolved good_tx (codes "e") both).1 ≡ none
unfolding mark_resolved transact
both-done = refl

other-left :
    In
      (record other { claimed_by = two; claimed_at = some 1200 })
      (claim_pending_retries good_tx true two 1200 10
        (steps [] (mark_resolved good_tx (codes "e") both).0)).2
unfolding steps mark_resolved update_named transact claim_pending_retries claim_rows claim_row
    is_claimable is_expired claimed_entries ◌==◌
other-left = inl refl

resolved_for_good_example : (other.name == codes "e") ≡ false
resolved_for_good_example =
    resolved_for_good both good_tx (codes "e") queued-named both-done [] good_tx true two 1200 10
      (record other { claimed_by = two; claimed_at = some 1200 }) other-left

claim-done : (claim_pending_retries good_tx true one 1000 10 queue).1 ≡ none
unfolding claim_pending_retries
claim-done = refl

claim_iff_example :
    In taken (claim_pending_retries good_tx true one 1000 10 queue).2
    ↔ ((r : Entry) × In r queue × IsClaimOf one 1000 10 r taken)
claim_iff_example = claim_iff good_tx true one 1000 10 queue taken claim-done

first-In :
    In taken
      (claim_pending_retries good_tx true one 1000 10
        (steps (enqueued good_tx (codes "e") (codes "x") meta ∷ []) [])).2
unfolding steps step enqueue insert_or_ignore has_name transact claim_pending_retries claim_rows
    claim_row is_claimable is_expired claimed_entries ◌==◌
first-In = inl refl

retries_below_example : taken.retry_count < 10
retries_below_example =
    retries_below 10 (enqueued good_tx (codes "e") (codes "x") meta ∷ []) (tt, tt) good_tx true one
      1000 10 one-set (omega arith) taken first-In
