-- ===== src/ErrorQueue/Returns.antt =====
-- What a claim returns.
use phonewave.Prelude.{
  ℕ, ◌≡◌, refl, sym, ap, ◌∙◌, ◌↔◌, ◌⊎◌, inl, inr, Bool, true, false, none, some, [], ◌∷◌, arith,
  Text, Bool-cases, In,
}
use phonewave.Store.{Tx}
use phonewave.ErrorQueue.Defs.{
  Entry, Queue, is_claimable, claim_row, claim_rows, claimed_entries, claim_pending_retries,
}
use phonewave.ErrorQueue.Known.{claim-cases, claimed_entries_iff}
use phonewave.ErrorQueue.Claims.{claim_row-not}

-- Which entry of the queue before a claim one that it returns is.
abbrev pub IsClaimOf : Text → ℕ → ℕ → Entry → Entry → Type 0
IsClaimOf claimer now max_retries r e =
    (r.resolved ≡ false)
    × (((is_claimable now max_retries r ≡ true)
          × (e ≡ record r { claimed_by = claimer; claimed_at = some now }))
        ⊎ ((is_claimable now max_retries r ≡ false) × (r.claimed_by ≡ claimer) × (e ≡ r)))

pub claim_row-claimable :
    (claimer : Text) (now max_retries : ℕ) (r : Entry)
    → is_claimable now max_retries r ≡ true
    → claim_row claimer now max_retries r ≡ record r { claimed_by = claimer; claimed_at = some now }
unfolding claim_row
claim_row-claimable claimer now m r h = rw h

claimable-unresolved :
    (now max_retries : ℕ) (r : Entry) → is_claimable now max_retries r ≡ true → r.resolved ≡ false
unfolding is_claimable
claimable-unresolved now m r h = ground arith

claim_row_iff :
    (claimer : Text) (now max_retries : ℕ) (r e : Entry)
    → ((e ≡ claim_row claimer now max_retries r) × (e.claimed_by ≡ claimer) × (e.resolved ≡ false))
      ↔ IsClaimOf claimer now max_retries r e
claim_row_iff claimer now m r e = elim (Bool-cases (is_claimable now m r)) [
  | inl t ↦ rw (claim_row-claimable claimer now m r t) (
    λ (same, c, o). (claimable-unresolved now m r t, inl (t, same)),
    λ (o, h). elim h [
      | inl (_, same) ↦ (same, ap (λ y. y.claimed_by) same, ap (λ y. y.resolved) same ∙ o)
      | inr (f, _, _) ↦ cc (sym t ∙ f)
    ],
  )
  | inr f ↦ rw (claim_row-not claimer now m r f) (
    λ (same, c, o).
        (ap (λ y. y.resolved) (sym same) ∙ o, inr (f, ap (λ y. y.claimed_by) (sym same) ∙ c, same)),
    λ (o, h). elim h [
      | inl (t, _) ↦ cc (sym t ∙ f)
      | inr (_, c, same) ↦ (same, ap (λ y. y.claimed_by) same ∙ c, ap (λ y. y.resolved) same ∙ o)
    ],
  )
]

In-claim_rows :
    (claimer : Text) (now max_retries : ℕ) (rows : Queue) (e : Entry)
    → In e (claim_rows claimer now max_retries rows)
      ↔ ((r : Entry) × In r rows × (e ≡ claim_row claimer now max_retries r))
unfolding claim_rows
In-claim_rows claimer now m [] e = (λ h. absurd h, λ (r, at, _). absurd at)
In-claim_rows claimer now m (x ∷ rows) e = (
  λ h. elim h [
    | inl same ↦ (x, inl refl, same)
    | inr k ↦ let (r, at, same) = (In-claim_rows claimer now m rows e).0 k in (r, inr at, same)
  ],
  λ (r, at, same). elim at [
    | inl here ↦ inl (same ∙ ap (claim_row claimer now m) here)
    | inr k ↦ inr ((In-claim_rows claimer now m rows e).1 (r, k, same))
  ],
)

claim-returned :
    (tx : Tx) (queried : Bool) (claimer : Text) (now max_retries : ℕ) (rows : Queue)
    → (claim_pending_retries tx queried claimer now max_retries rows).1 ≡ none
    → (claim_pending_retries tx queried claimer now max_retries rows).2
      ≡ claimed_entries claimer (claim_rows claimer now max_retries rows)
claim-returned tx queried claimer now m rows ok = elim (claim-cases tx queried claimer now m rows) [
  | inl ((_, failed), _) ↦ absurd (failed ok)
  | inr (_, got) ↦ got
]

-- ClaimPendingRetries with no error returns exactly these entries: each unresolved one that is below
-- the limit and has no claim, or one that has expired, now claimed by the caller at this time; and
-- each other unresolved one that the caller had claimed before, as it is.
pub claim_iff :
    (tx : Tx) (queried : Bool) (claimer : Text) (now max_retries : ℕ) (rows : Queue) (e : Entry)
    → (claim_pending_retries tx queried claimer now max_retries rows).1 ≡ none
    → In e (claim_pending_retries tx queried claimer now max_retries rows).2
      ↔ ((r : Entry) × In r rows × IsClaimOf claimer now max_retries r e)
claim_iff tx queried claimer now m rows e ok =
    rw (claim-returned tx queried claimer now m rows ok) (
      λ h.
          let (at, c, o) = (claimed_entries_iff claimer (claim_rows claimer now m rows) e).0 h in
          let (r, was, same) = (In-claim_rows claimer now m rows e).0 at in
          (r, was, (claim_row_iff claimer now m r e).0 (same, c, o)),
      λ (r, was, k).
          let (same, c, o) = (claim_row_iff claimer now m r e).1 k in
          (claimed_entries_iff claimer (claim_rows claimer now m rows) e).1
            ((In-claim_rows claimer now m rows e).1 (r, was, same), c, o),
    )
