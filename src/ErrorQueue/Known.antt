-- ===== src/ErrorQueue/Known.antt =====
-- What single steps and many keep of the entries with a given name, and what a claim reads back.
use phonewave.Prelude.{
  ℕ, ◌≡◌, refl, ◌∙◌, ◌≢◌, ◌↔◌, ◌⊎◌, inl, inr, Bool, true, false, not, ◌&&◌, none, List, [], ◌∷◌,
  arith, Text, ◌==◌, eq_iff, Bool-cases, All, In,
}
use phonewave.Store.{Tx, transact}
use phonewave.ErrorQueue.Defs.{
  Entry, Queue, new_entry, insert_or_ignore, enqueue, claim_row, claim_rows, claimed_entries,
  claim_pending_retries, update_named, retried, resolve, increment_retry, mark_resolved, Step,
  enqueued, claimed, incremented, marked, step, steps,
}
use phonewave.ErrorQueue.Names.{
  Known, Keeps, KeepsName, has_name-claim_rows, has_name-update_named, AllNamed-claim_rows,
  AllNamed-update_named, Known-insert, Known-transact,
}

-- A claim fails and changes nothing, or it returns the entries of the new queue.
pub claim-cases :
    (tx : Tx) (queried : Bool) (claimer : Text) (now max_retries : ℕ) (rows : Queue)
    → ((((claim_pending_retries tx queried claimer now max_retries rows).0 ≡ rows)
          × ((claim_pending_retries tx queried claimer now max_retries rows).1 ≢ none))
        × ((claim_pending_retries tx queried claimer now max_retries rows).2 ≡ []))
      ⊎ (((claim_pending_retries tx queried claimer now max_retries rows).0
            ≡ claim_rows claimer now max_retries rows)
          × ((claim_pending_retries tx queried claimer now max_retries rows).2
              ≡ claimed_entries claimer (claim_rows claimer now max_retries rows)))
unfolding claim_pending_retries
claim-cases tx queried claimer now m rows = elim (Bool-cases tx.conn) [
  | inr n ↦ rw n (inl ((refl, λ h. cc), refl))
  | inl c ↦ rw c (elim (Bool-cases tx.begin) [
    | inr n ↦ rw n (inl ((refl, λ h. cc), refl))
    | inl b ↦ rw b (elim (Bool-cases tx.exec) [
      | inr n ↦ rw n (inl ((refl, λ h. cc), refl))
      | inl x ↦ rw x (elim (Bool-cases queried) [
        | inr n ↦ rw n (inl ((refl, λ h. cc), refl))
        | inl q ↦ rw q (elim (Bool-cases tx.commit) [
          | inr n ↦ rw n (inl ((refl, λ h. cc), refl))
          | inl k ↦ rw k (inr (refl, refl))
        ])
      ])
    ])
  ])
]

Known-claim :
    (Q : Entry → Type 0) (n : Text) (tx : Tx) (queried : Bool) (claimer : Text)
    (now max_retries : ℕ)
    → ((r : Entry) → Q r → Q (claim_row claimer now max_retries r))
    → (rows : Queue) → Known Q n rows
    → Known Q n (claim_pending_retries tx queried claimer now max_retries rows).0
Known-claim Q n tx queried claimer now m keeps rows k =
    elim (claim-cases tx queried claimer now m rows) [
      | inl (same, _) ↦ rw (same.0) k
      | inr (e, _) ↦ rw e (record {
        named = has_name-claim_rows n claimer now m rows ∙ k.named;
        holds = AllNamed-claim_rows Q n claimer now m keeps rows k.holds;
      })
    ]

Known-update :
    (Q : Entry → Type 0) (n : Text) (tx : Tx) (change : Entry → Entry) (name : Text)
    → KeepsName change
    → ((name == n) ≡ true → (r : Entry) → Q r → Q (change r))
    → (rows : Queue) → Known Q n rows
    → Known Q n (transact tx rows (update_named change name rows)).0
Known-update Q n tx change name named keeps rows k =
    Known-transact Q n tx rows (update_named change name rows) k (record {
      named = has_name-update_named change named n name rows ∙ k.named;
      holds = AllNamed-update_named Q n change name named keeps rows k.holds;
    })

Known-step :
    (Q : Entry → Type 0) (n : Text) (s : Step) (rows : Queue)
    → Keeps Q n s
    → Known Q n rows
    → Known Q n (step s rows)
unfolding step enqueue increment_retry mark_resolved
Known-step Q n (enqueued tx name content meta) rows h k =
    Known-transact Q n tx rows (insert_or_ignore (new_entry name content meta) rows) k
      (Known-insert Q n (new_entry name content meta) rows k)
Known-step Q n (claimed tx queried claimer now m) rows h k =
    Known-claim Q n tx queried claimer now m h rows k
Known-step Q n (incremented tx name message) rows h k =
    Known-update Q n tx (retried message) name (λ r. refl) h rows k
Known-step Q n (marked tx name) rows h k =
    Known-update Q n tx resolve name (λ r. refl) (λ _. h) rows k

-- Steps that keep a property of the entries of a name, keep them known with it.
pub Known-steps :
    (Q : Entry → Type 0) (n : Text) (ss : List Step) (rows : Queue)
    → All (Keeps Q n) ss
    → Known Q n rows
    → Known Q n (steps ss rows)
unfolding steps
Known-steps Q n [] rows h k = k
Known-steps Q n (s ∷ ss) rows h k =
    Known-steps Q n ss (step s rows) h.1 (Known-step Q n s rows h.0 k)

pub Known-claim_rows :
    (Q : Entry → Type 0) (n claimer : Text) (now max_retries : ℕ)
    → ((r : Entry) → Q r → Q (claim_row claimer now max_retries r))
    → (rows : Queue) → Known Q n rows
    → Known Q n (claim_rows claimer now max_retries rows)
Known-claim_rows Q n claimer now m keeps rows k = record {
  named = has_name-claim_rows n claimer now m rows ∙ k.named;
  holds = AllNamed-claim_rows Q n claimer now m keeps rows k.holds;
}

-- What a claim reads back.
pub claimed_entries_iff :
    (claimer : Text) (rows : Queue) (e : Entry)
    → In e (claimed_entries claimer rows)
      ↔ (In e rows × (e.claimed_by ≡ claimer) × (e.resolved ≡ false))
unfolding claimed_entries
claimed_entries_iff claimer [] e = (λ h. absurd h, λ h. h.0)
claimed_entries_iff claimer (r ∷ rows) e =
    elim (Bool-cases (r.claimed_by == claimer && not r.resolved)) [
      | inl t ↦ rw t (
        λ h. elim h [
          | inl same ↦ (inl same, rw same (tested r t).0, rw same (tested r t).1)
          | inr m ↦ let (at, c, o) = (claimed_entries_iff claimer rows e).0 m in (inr at, c, o)
        ],
        λ (at, c, o). elim at [
          | inl same ↦ inl same
          | inr m ↦ inr ((claimed_entries_iff claimer rows e).1 (m, c, o))
        ],
      )
      | inr f ↦ rw f (
        λ h. let (at, c, o) = (claimed_entries_iff claimer rows e).0 h in (inr at, c, o),
        λ (at, c, o). elim at [
          | inl same ↦ absurd (failed r f (rw same at c) (rw same at o))
          | inr m ↦ (claimed_entries_iff claimer rows e).1 (m, c, o)
        ],
      )
    ]
  where
    tested :
        (x : Entry)
        → (x.claimed_by == claimer && not x.resolved) ≡ true
        → (x.claimed_by ≡ claimer) × (x.resolved ≡ false)
    tested x t = ground (arith, eq_iff x.claimed_by claimer)

    failed :
        (x : Entry)
        → (x.claimed_by == claimer && not x.resolved) ≡ false
        → x.claimed_by ≡ claimer
        → x.resolved ≡ false
        → ⊥
    failed x f c o = ground (arith, eq_iff x.claimed_by claimer)
