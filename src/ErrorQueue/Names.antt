-- ===== src/ErrorQueue/Names.antt =====
-- What the operations leave of the entries with a given name.
use phonewave.Prelude.{
  ℕ, ◌≡◌, refl, inl, inr, true, false, ◌||◌, [], ◌∷◌, ◌++◌, arith, Text, ◌==◌, eq_iff, Bool-cases,
  All, All-append,
}
use phonewave.Store.{Tx, transact}
use phonewave.ErrorQueue.Defs.{
  Entry, Queue, has_name, insert_or_ignore, claim_row, claim_rows, update_named, retried, resolve,
  Step, enqueued, claimed, incremented, marked,
}

-- The property holds of every entry of the name.
abbrev pub AllNamed : (Entry → Type 0) → Text → Queue → Type 0
AllNamed Q n rows = All (λ r. (r.name == n) ≡ true → Q r) rows

-- There is an entry of the name, and the property holds of every such entry.
pub record Known (Q : Entry → Type 0) (n : Text) (rows : Queue) : Type 0 where
  pub named : has_name n rows ≡ true
  pub holds : AllNamed Q n rows

-- What a step has to keep of an entry of the name.
abbrev pub Keeps : (Entry → Type 0) → Text → Step → Type 0
Keeps Q n (enqueued tx name content meta) = Unit
Keeps Q n (claimed tx queried claimer now max_retries) =
    (r : Entry) → Q r → Q (claim_row claimer now max_retries r)
Keeps Q n (incremented tx name message) =
    (name == n) ≡ true → (r : Entry) → Q r → Q (retried message r)
Keeps Q n (marked tx name) = (r : Entry) → Q r → Q (resolve r)

pub claim_row-name :
    (claimer : Text) (now max_retries : ℕ) (r : Entry)
    → (claim_row claimer now max_retries r).name ≡ r.name
unfolding claim_row
claim_row-name claimer now max_retries r = ground arith

pub has_name-claim_rows :
    (n claimer : Text) (now max_retries : ℕ) (rows : Queue)
    → has_name n (claim_rows claimer now max_retries rows) ≡ has_name n rows
unfolding has_name claim_rows
has_name-claim_rows n claimer now m [] = refl
has_name-claim_rows n claimer now m (r ∷ rows) =
    rw (claim_row-name claimer now m r, has_name-claim_rows n claimer now m rows)

-- A change that keeps names.
abbrev pub KeepsName : (Entry → Entry) → Type 0
KeepsName change = (r : Entry) → (change r).name ≡ r.name

pub has_name-update_named :
    (change : Entry → Entry)
    → KeepsName change
    → (n name : Text) (rows : Queue) → has_name n (update_named change name rows) ≡ has_name n rows
unfolding has_name update_named
has_name-update_named change keeps n name [] = refl
has_name-update_named change keeps n name (r ∷ rows) = elim (Bool-cases (r.name == name)) [
  | inl e ↦ rw (e, keeps r, has_name-update_named change keeps n name rows)
  | inr f ↦ rw (f, has_name-update_named change keeps n name rows)
]

pub has_name-append :
    (n : Text) (xs : Queue) (e : Entry) → has_name n (xs ++ e ∷ []) ≡ (has_name n xs || e.name == n)
unfolding has_name
has_name-append n [] e = ground arith
has_name-append n (x ∷ xs) e = ground (arith, has_name-append n xs e)

pub has_name-insert :
    (n : Text) (e : Entry) (rows : Queue)
    → has_name n rows ≡ true
    → has_name n (insert_or_ignore e rows) ≡ true
unfolding insert_or_ignore
has_name-insert n e rows h = ground (arith, has_name-append n rows e)

pub AllNamed-claim_rows :
    (Q : Entry → Type 0) (n claimer : Text) (now max_retries : ℕ)
    → ((r : Entry) → Q r → Q (claim_row claimer now max_retries r))
    → (rows : Queue) → AllNamed Q n rows
    → AllNamed Q n (claim_rows claimer now max_retries rows)
unfolding claim_rows
AllNamed-claim_rows Q n claimer now m keeps [] h = tt
AllNamed-claim_rows Q n claimer now m keeps (r ∷ rows) h = (
  λ e. keeps r (h.0 (rw (claim_row-name claimer now m r) at e)),
  AllNamed-claim_rows Q n claimer now m keeps rows h.1,
)

pub AllNamed-update_named :
    (Q : Entry → Type 0) (n : Text) (change : Entry → Entry) (name : Text)
    → KeepsName change
    → ((name == n) ≡ true → (r : Entry) → Q r → Q (change r))
    → (rows : Queue) → AllNamed Q n rows
    → AllNamed Q n (update_named change name rows)
unfolding update_named
AllNamed-update_named Q n change name named keeps [] h = tt
AllNamed-update_named Q n change name named keeps (r ∷ rows) h = (
  elim (Bool-cases (r.name == name)) [
    | inl e ↦ rw e λ s.
        let same : (r.name == n) ≡ true = rw (named r) at s in keeps (through e same) r (h.0 same)
    | inr f ↦ rw f h.0
  ],
  AllNamed-update_named Q n change name named keeps rows h.1,
)
  where
    through : (r.name == name) ≡ true → (r.name == n) ≡ true → (name == n) ≡ true
    through e s = ground (arith, eq_iff r.name name, eq_iff r.name n, eq_iff name n)

-- An entry is ignored if its name is known, and is not of the name if it is not ignored.
pub Known-insert :
    (Q : Entry → Type 0) (n : Text) (e : Entry) (rows : Queue)
    → Known Q n rows
    → Known Q n (insert_or_ignore e rows)
Known-insert Q n e rows k = elim (Bool-cases (has_name e.name rows)) [
  | inl h ↦ unfold insert_or_ignore in rw h k
  | inr f ↦ record {
    named = has_name-insert n e rows k.named;
    holds =
        unfold insert_or_ignore in
        rw f (
          All-append (λ r. (r.name == n) ≡ true → Q r) rows (e ∷ []) k.holds
            (λ s. absurd (other f s), tt));
  }
]
  where
    other : has_name e.name rows ≡ false → (e.name == n) ≡ true → ⊥
    other f s = let same : e.name ≡ n = (eq_iff e.name n).0 s in ground (arith, k.named)

pub Known-transact :
    (Q : Entry → Type 0) (n : Text) (tx : Tx) (old new : Queue)
    → Known Q n old
    → Known Q n new
    → Known Q n (transact tx old new).0
unfolding transact
Known-transact Q n tx old new h k = ground arith
