-- ===== src/ErrorQueue/Claims.antt =====
-- Who gets an entry, and who does not.
use mathlib.Core.Path.{subst}
use phonewave.Prelude.{
  ℕ, ◌+◌, ◌≤◌, ◌≡◌, refl, sym, ap, ◌∙◌, inl, inr, Bool, true, false, some, List, [], ◌∷◌, arith,
  Text, ◌==◌, eq_iff, Bool-cases, All, In,
}
use phonewave.Store.{Tx}
use phonewave.ErrorQueue.Defs.{
  Entry, Queue, has_name, is_claimable, is_expired, claim_lifetime, claim_row, claim_rows,
  claim_pending_retries, Step, enqueued, claimed, incremented, marked, steps,
}
use phonewave.ErrorQueue.Names.{AllNamed, Known, Keeps, has_name-claim_rows, claim_row-name}
use phonewave.ErrorQueue.Known.{Known-steps, Known-claim_rows, claim-cases, claimed_entries_iff}

-- No two entries have the same name.
abbrev pub UniqueNames : Queue → Type 0
UniqueNames [] = Unit
UniqueNames (r ∷ rows) = (has_name r.name rows ≡ false) × UniqueNames rows

-- An entry that a daemon has claimed at a time.
abbrev Held : Text → ℕ → Entry → Type 0
Held claimer t r = (r.claimed_by ≡ claimer) × (r.claimed_at ≡ some t)

-- A step that comes before a claim expires and does not count a retry of the entry.
abbrev pub IsBefore : ℕ → Text → Step → Type 0
IsBefore t n (enqueued tx name content meta) = Unit
IsBefore t n (claimed tx queried claimer now max_retries) = now ≤ t + claim_lifetime
IsBefore t n (incremented tx name message) = (name == n) ≡ false
IsBefore t n (marked tx name) = Unit

pub claim_row-not :
    (claimer : Text) (now max_retries : ℕ) (r : Entry)
    → is_claimable now max_retries r ≡ false
    → claim_row claimer now max_retries r ≡ r
unfolding claim_row
claim_row-not claimer now m r h = ground arith

Held-not :
    (owner : Text) (t now max_retries : ℕ) (r : Entry)
    → (owner == []) ≡ false
    → now ≤ t + claim_lifetime
    → Held owner t r
    → is_claimable now max_retries r ≡ false
unfolding is_claimable
Held-not owner t now m r o h k =
    let taken : (r.claimed_by == []) ≡ false = rw (k.0) o in
    let fresh : is_expired now r.claimed_at ≡ false =
      rw (k.1) (unfold is_expired in ground arith) in
    ground arith

claim_row-Held :
    (owner claimer : Text) (t now max_retries : ℕ) (r : Entry)
    → (owner == []) ≡ false
    → now ≤ t + claim_lifetime
    → Held owner t r
    → Held owner t (claim_row claimer now max_retries r)
claim_row-Held owner claimer t now m r o h k =
    rw (claim_row-not claimer now m r (Held-not owner t now m r o h k)) k

Keeps-Held :
    (owner n : Text) (t : ℕ) (s : Step)
    → (owner == []) ≡ false
    → IsBefore t n s
    → Keeps (Held owner t) n s
Keeps-Held owner n t (enqueued tx name content meta) o h = tt
Keeps-Held owner n t (claimed tx queried claimer now m) o h =
    λ r. claim_row-Held owner claimer t now m r o h
Keeps-Held owner n t (incremented tx name message) o h = λ e r k. cc
Keeps-Held owner n t (marked tx name) o h = λ r k. k

All-Keeps-Held :
    (owner n : Text) (t : ℕ) (ss : List Step)
    → (owner == []) ≡ false
    → All (IsBefore t n) ss
    → All (Keeps (Held owner t) n) ss
All-Keeps-Held owner n t [] o h = tt
All-Keeps-Held owner n t (s ∷ ss) o h =
    (Keeps-Held owner n t s o h.0, All-Keeps-Held owner n t ss o h.1)

has_name-none :
    (n : Text) (rows : Queue)
    → has_name n rows ≡ false
    → (r : Entry) → In r rows
    → (r.name == n) ≡ false
unfolding has_name
has_name-none n [] h r at = absurd at
has_name-none n (x ∷ rows) h r (inl e) = rw e (ground arith)
has_name-none n (x ∷ rows) h r (inr m) = has_name-none n rows (ground arith) r m

In-has_name :
    (n : Text) (rows : Queue) (r : Entry) → In r rows → r.name ≡ n → has_name n rows ≡ true
unfolding has_name
In-has_name n [] r at e = absurd at
In-has_name n (x ∷ rows) r (inl same) e = ground (arith, eq_iff x.name n, ap (λ y. y.name) same)
In-has_name n (x ∷ rows) r (inr m) e = ground (arith, In-has_name n rows r m e)

-- Where names are unique, what holds of one entry holds of all of its name.
unique-AllNamed :
    (Q : Entry → Type 0) (rows : Queue) (e : Entry)
    → UniqueNames rows
    → In e rows
    → Q e
    → AllNamed Q e.name rows
unique-AllNamed Q [] e u at q = tt
unique-AllNamed Q (r ∷ rows) e u (inl same) q =
    (λ _. subst Q same q, others rows (λ s m. rw same (has_name-none r.name rows u.0 s m)))
  where
    others :
        (xs : Queue) → ((s : Entry) → In s xs → (s.name == e.name) ≡ false) → AllNamed Q e.name xs
    others [] h = tt
    others (s ∷ xs) h = (λ t. cc (sym t ∙ h s (inl refl)), others xs (λ y m. h y (inr m)))
unique-AllNamed Q (r ∷ rows) e u (inr m) q =
    (λ t. absurd (twice ((eq_iff r.name e.name).0 t)), unique-AllNamed Q rows e u.1 m q)
  where
    twice : r.name ≡ e.name → ⊥
    twice same = cc (sym (u.0) ∙ In-has_name r.name rows e m (sym same))

pub AllNamed-In :
    (Q : Entry → Type 0) (n : Text) (rows : Queue) (r : Entry)
    → AllNamed Q n rows
    → In r rows
    → (r.name == n) ≡ true
    → Q r
AllNamed-In Q n [] r h at e = absurd at
AllNamed-In Q n (x ∷ rows) r h (inl same) e = subst Q (sym same) (h.0 (rw (← same) e))
AllNamed-In Q n (x ∷ rows) r h (inr m) e = AllNamed-In Q n rows r h.1 m e

UniqueNames-claim_rows :
    (claimer : Text) (now max_retries : ℕ) (rows : Queue)
    → UniqueNames rows
    → UniqueNames (claim_rows claimer now max_retries rows)
unfolding claim_rows
UniqueNames-claim_rows claimer now m [] u = tt
UniqueNames-claim_rows claimer now m (r ∷ rows) u = (
  ap (λ x. has_name x (claim_rows claimer now m rows)) (claim_row-name claimer now m r)
      ∙ has_name-claim_rows r.name claimer now m rows
      ∙ u.0,
  UniqueNames-claim_rows claimer now m rows u.1,
)

-- What a claim returns stands in the queue that it leaves.
pub returned-In :
    (tx : Tx) (queried : Bool) (claimer : Text) (now max_retries : ℕ) (rows : Queue) (e : Entry)
    → In e (claim_pending_retries tx queried claimer now max_retries rows).2
    → ((claim_pending_retries tx queried claimer now max_retries rows).0
        ≡ claim_rows claimer now max_retries rows)
      × In e (claim_rows claimer now max_retries rows)
      × (e.claimed_by ≡ claimer)
      × (e.resolved ≡ false)
returned-In tx queried claimer now m rows e h = elim (claim-cases tx queried claimer now m rows) [
  | inl (_, none_) ↦ absurd (subst (In e) none_ h)
  | inr (left, got) ↦
      let (at, c, o) =
        (claimed_entries_iff claimer (claim_rows claimer now m rows) e).0 (subst (In e) got h) in
      (left, at, c, o)
]

-- An entry that a claim returned goes to no other claimer for five minutes from the time of its
-- claim, whatever the daemons do meanwhile, unless a retry of it is counted. Names are
-- unique, and the empty text is no claimer.
pub claims_apart :
    (rows : Queue) (owner other : Text)
    → UniqueNames rows
    → (owner == []) ≡ false
    → (owner == other) ≡ false
    → (tx : Tx) (queried : Bool) (now max_retries : ℕ) (e : Entry)
    → In e (claim_pending_retries tx queried owner now max_retries rows).2
    → (t : ℕ) → e.claimed_at ≡ some t
    → (ss : List Step) → All (IsBefore t e.name) ss
    → (tx' : Tx) (queried' : Bool) (later max_retries' : ℕ) → later ≤ t + claim_lifetime
    → (e' : Entry)
    → In e'
        (claim_pending_retries tx' queried' other later max_retries'
          (steps ss (claim_pending_retries tx queried owner now max_retries rows).0)).2
    → (e'.name == e.name) ≡ false
claims_apart rows owner other u o ne tx queried now m e h t at ss before tx' queried' later m' le e'
      h' =
    let (left, in_left, mine, _) = returned-In tx queried owner now m rows e h in
    let rows' = (claim_pending_retries tx queried owner now m rows).0 in
    let k₁ : Known (Held owner t) e.name rows' = rw left (record {
      named = In-has_name e.name (claim_rows owner now m rows) e in_left refl;
      holds =
          unique-AllNamed (Held owner t) (claim_rows owner now m rows) e
            (UniqueNames-claim_rows owner now m rows u) in_left (mine, at);
    }) in
    let k₂ =
      Known-steps (Held owner t) e.name ss rows' (All-Keeps-Held owner e.name t ss o before) k₁ in
    let k₃ =
      Known-claim_rows (Held owner t) e.name other later m'
        (λ r. claim_row-Held owner other t later m' r o le) (steps ss rows') k₂ in
    let (_, in_last, theirs, _) = returned-In tx' queried' other later m' (steps ss rows') e' h' in
    elim (Bool-cases (e'.name == e.name)) [
      | inr f ↦ f
      | inl same ↦ absurd (
          clash theirs
            (AllNamed-In (Held owner t) e.name (claim_rows other later m' (steps ss rows')) e'
              k₃.holds in_last same).0)
    ]
  where
    clash : e'.claimed_by ≡ other → e'.claimed_by ≡ owner → ⊥
    clash a b = cc (sym ne ∙ (eq_iff owner other).1 (sym b ∙ a))
