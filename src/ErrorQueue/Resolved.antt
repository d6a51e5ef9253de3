-- ===== src/ErrorQueue/Resolved.antt =====
-- What MarkResolved settles for good.
use phonewave.Prelude.{
  ℕ, ◌≡◌, refl, sym, ◌∙◌, inl, inr, Bool, true, false, none, List, [], ◌∷◌, arith, Text, ◌==◌,
  Bool-cases, All, In,
}
use phonewave.Store.{Tx, transact}
use phonewave.ErrorQueue.Defs.{
  Entry, Queue, has_name, is_claimable, claim_row, claim_rows, claim_pending_retries, update_named,
  resolve, mark_resolved, Step, enqueued, claimed, incremented, marked, steps,
}
use phonewave.ErrorQueue.Names.{AllNamed, Known, Keeps}
use phonewave.ErrorQueue.Known.{Known-steps, Known-claim_rows}
use phonewave.ErrorQueue.Claims.{returned-In, claim_row-not, AllNamed-In}

abbrev IsResolved : Entry → Type 0
IsResolved r = r.resolved ≡ true

claim_row-IsResolved :
    (claimer : Text) (now max_retries : ℕ) (r : Entry)
    → IsResolved r
    → IsResolved (claim_row claimer now max_retries r)
unfolding is_claimable
claim_row-IsResolved claimer now m r h = rw (claim_row-not claimer now m r (ground arith)) h

All-Keeps-IsResolved : (n : Text) (ss : List Step) → All (Keeps IsResolved n) ss
All-Keeps-IsResolved n [] = tt
All-Keeps-IsResolved n (enqueued tx name content meta ∷ ss) = (tt, All-Keeps-IsResolved n ss)
All-Keeps-IsResolved n (claimed tx queried claimer now m ∷ ss) =
    (claim_row-IsResolved claimer now m, All-Keeps-IsResolved n ss)
All-Keeps-IsResolved n (incremented tx name message ∷ ss) = (λ e r h. h, All-Keeps-IsResolved n ss)
All-Keeps-IsResolved n (marked tx name ∷ ss) = (λ r h. refl, All-Keeps-IsResolved n ss)

has_name-resolve :
    (n : Text) (rows : Queue)
    → has_name n rows ≡ true
    → has_name n (update_named resolve n rows) ≡ true
unfolding has_name update_named
has_name-resolve n [] h = h
has_name-resolve n (r ∷ rows) h = ground (arith, has_name-resolve n rows)

AllNamed-resolve : (n : Text) (rows : Queue) → AllNamed IsResolved n (update_named resolve n rows)
unfolding update_named
AllNamed-resolve n [] = tt
AllNamed-resolve n (r ∷ rows) = elim (Bool-cases (r.name == n)) [
  | inl e ↦ rw e (λ _. refl, AllNamed-resolve n rows)
  | inr f ↦ rw f (λ t. cc (sym t ∙ f), AllNamed-resolve n rows)
]

IsResolved-Known :
    (n : Text) (rows : Queue)
    → has_name n rows ≡ true
    → Known IsResolved n (update_named resolve n rows)
IsResolved-Known n rows h = record {
  named = has_name-resolve n rows h;
  holds = AllNamed-resolve n rows;
}

transact-done :
    (tx : Tx) (old new : Queue) → (transact tx old new).1 ≡ none → (transact tx old new).0 ≡ new
unfolding transact
transact-done tx old new h = ground arith

-- Once MarkResolved has returned nil for a name in the queue, no later claim by any daemon returns an
-- entry of that name, whatever else is done to the queue.
pub resolved_for_good :
    (rows : Queue) (tx : Tx) (n : Text)
    → has_name n rows ≡ true
    → (mark_resolved tx n rows).1 ≡ none
    → (ss : List Step) (tx' : Tx) (queried : Bool) (claimer : Text) (now max_retries : ℕ)
      (e : Entry)
    → In e
        (claim_pending_retries tx' queried claimer now max_retries
          (steps ss (mark_resolved tx n rows).0)).2
    → (e.name == n) ≡ false
unfolding mark_resolved
resolved_for_good rows tx n known done ss tx' queried claimer now m e h =
    let rows' = (mark_resolved tx n rows).0 in
    let k₁ : Known IsResolved n rows' =
      rw (transact-done tx rows (update_named resolve n rows) done)
        (IsResolved-Known n rows known) in
    let k₂ = Known-steps IsResolved n ss rows' (All-Keeps-IsResolved n ss) k₁ in
    let k₃ =
      Known-claim_rows IsResolved n claimer now m (claim_row-IsResolved claimer now m)
        (steps ss rows') k₂ in
    let (_, at, _, unsolved) = returned-In tx' queried claimer now m (steps ss rows') e h in
    elim (Bool-cases (e.name == n)) [
      | inr f ↦ f
      | inl same ↦ cc (
          sym unsolved
          ∙ AllNamed-In IsResolved n (claim_rows claimer now m (steps ss rows')) e k₃.holds at same)
    ]
