-- ===== src/Store/Cleaning.antt =====
-- Flushed and dead rows are deleted, and nothing else is.
use phonewave.Prelude.{
  ◌≡◌, refl, sym, ap, ◌∙◌, ◌↔◌, ◌⊎◌, inl, inr, Bool, true, false, not, ◌&&◌, [], ◌∷◌, arith, Text,
  ◌==◌, eq_iff, Bool-cases, Option-cases, In, length, leb,
}
use phonewave.Store.Defs.{
  Row, Table, Tx, select, is_pending, is_dead, collect_unflushed, all_flushed_for, transact,
  prune_flushed, purge_dead_letters, dead_letter_count,
}
use phonewave.Store.Keys.{select-In, In-select}

no_rows : (rows : Table) → leb (length rows) 0 ≡ true → (r : Row) → ¬ In r rows
no_rows [] h r at = at
no_rows (s ∷ rows) h r at = ground arith

empty_rows : (rows : Table) → ((r : Row) → ¬ In r rows) → leb (length rows) 0 ≡ true
empty_rows [] h = ground arith
empty_rows (s ∷ rows) h = absurd (h s (inl refl))

-- AllFlushedFor answers true exactly when every row of the path is flushed.
pub all_flushed_for_iff :
    (path : Text) (rows : Table)
    → (all_flushed_for path rows ≡ true)
      ↔ ((r : Row) → In r rows → r.dmail_path ≡ path → r.flushed ≡ true)
unfolding all_flushed_for
all_flushed_for_iff path rows = (
  λ h r at e. elim (Bool-cases r.flushed) [
    | inl f ↦ f
    | inr n ↦ absurd (no_rows (select waits rows) h r (In-select waits rows r at (pending r e n)))
  ],
  λ all.
      empty_rows (select waits rows)
        λ r at. let (m, t) = select-In waits rows r at in clash r t (all r m (path_of r t)),
)
  where
    waits : Row → Bool
    waits r = r.dmail_path == path && not r.flushed

    pending : (r : Row) → r.dmail_path ≡ path → r.flushed ≡ false → waits r ≡ true
    pending r e n = ground (arith, eq_iff r.dmail_path path)

    path_of : (r : Row) → waits r ≡ true → r.dmail_path ≡ path
    path_of r t = ground (arith, eq_iff r.dmail_path path)

    clash : (r : Row) → waits r ≡ true → r.flushed ≡ true → ⊥
    clash r t f = ground arith

select-select :
    (p q : Row → Bool)
    → ((r : Row) → p r ≡ true → q r ≡ true)
    → (rows : Table) → select p (select q rows) ≡ select p rows
unfolding select
select-select p q sub [] = refl
select-select p q sub (r ∷ rows) = elim (Bool-cases (q r)) [
  | inl e ↦ rw e (ground (arith, select-select p q sub rows))
  | inr n ↦ elim (Bool-cases (p r)) [
    | inl t ↦ cc (sym n ∙ sub r t)
    | inr f ↦ rw (n, f) (select-select p q sub rows)
  ]
]

select-none :
    (p q : Row → Bool)
    → ((r : Row) → q r ≡ true → p r ≡ false)
    → (rows : Table) → select p (select q rows) ≡ []
unfolding select
select-none p q sub [] = refl
select-none p q sub (r ∷ rows) = elim (Bool-cases (q r)) [
  | inl e ↦ rw e (rw (sub r e) (select-none p q sub rows))
  | inr n ↦ rw n (select-none p q sub rows)
]

transact-cases :
    (tx : Tx) (old new : Table) → ((transact tx old new).0 ≡ old) ⊎ ((transact tx old new).0 ≡ new)
unfolding transact
transact-cases tx old new = ground arith

-- The rows that a prune leaves.
prune-cases :
    (tx : Tx) (counted vacuumed : Bool) (rows : Table)
    → ((prune_flushed tx counted vacuumed rows).0 ≡ rows)
      ⊎ ((prune_flushed tx counted vacuumed rows).0 ≡ select (λ r. not r.flushed) rows)
unfolding prune_flushed
prune-cases tx counted vacuumed rows =
    let left = transact tx rows (select (λ r. not r.flushed) rows) in
    elim (Option-cases left.1) [
      | inl n ↦ rw (n, prune_flushed) (transact-cases tx rows (select (λ r. not r.flushed) rows))
      | inr (e, h) ↦
          rw (h, prune_flushed) (transact-cases tx rows (select (λ r. not r.flushed) rows))
    ]

purge-cases :
    (executed counted : Bool) (rows : Table)
    → ((purge_dead_letters executed counted rows).0 ≡ rows)
      ⊎ ((purge_dead_letters executed counted rows).0 ≡ select (λ r. not (is_dead r)) rows)
unfolding purge_dead_letters
purge-cases executed counted rows = ground arith

purge-executed :
    (counted : Bool) (rows : Table)
    → (purge_dead_letters true counted rows).0 ≡ select (λ r. not (is_dead r)) rows
unfolding purge_dead_letters
purge-executed counted rows = ground arith

-- A selection that a smaller table does not change.
either :
    (p q : Row → Bool) (rows left : Table)
    → ((r : Row) → p r ≡ true → q r ≡ true)
    → (left ≡ rows) ⊎ (left ≡ select q rows)
    → select p left ≡ select p rows
either p q rows left sub (inl e) = ap (select p) e
either p q rows left sub (inr e) = ap (select p) e ∙ select-select p q sub rows

-- Pruning flushed rows and purging dead letters, with whatever fails, leaves what is pending, and a
-- purge that is executed leaves no dead letter. Pruning does not change what AllFlushedFor answers.
pub cleaning_pending :
    (tx : Tx) (counted vacuumed executed : Bool) (path : Text) (rows : Table)
    → (collect_unflushed (prune_flushed tx counted vacuumed rows).0 ≡ collect_unflushed rows)
      × (all_flushed_for path (prune_flushed tx counted vacuumed rows).0
          ≡ all_flushed_for path rows)
      × (collect_unflushed (purge_dead_letters executed counted rows).0 ≡ collect_unflushed rows)
      × (dead_letter_count (purge_dead_letters true counted rows).0 ≡ 0)
unfolding collect_unflushed all_flushed_for dead_letter_count
cleaning_pending tx counted vacuumed executed path rows = (
  either is_pending (λ r. not r.flushed) rows (prune_flushed tx counted vacuumed rows).0
      (λ r t. ground arith) (prune-cases tx counted vacuumed rows),
  ap (λ l. leb (length l) 0)
      (either (λ r. r.dmail_path == path && not r.flushed) (λ r. not r.flushed) rows
        (prune_flushed tx counted vacuumed rows).0 (λ r t. ground arith)
        (prune-cases tx counted vacuumed rows)),
  either is_pending (λ r. not (is_dead r)) rows (purge_dead_letters executed counted rows).0
      (λ r t. ground arith) (purge-cases executed counted rows),
  rw (purge-executed counted rows)
      (rw (select-none is_dead (λ r. not (is_dead r)) (λ r t. ground arith) rows)),
)
