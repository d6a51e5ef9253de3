-- ===== src/Improvement/Histories.antt =====
-- What a history looks like, however it is read or built.
use phonewave.Prelude.{
  ◌≡◌, inl, inr, false, List, [], ◌∷◌, ◌++◌, Text, ◌==◌, Bool-cases, if◌then◌else◌, All, All-append,
  trim_space, split_on, has_rune, not, ◌&&◌,
}
use phonewave.Improvement.History.{
  ends_in, append_improvement_history, append_all, normalize_improvement_history, append_parts,
  parse_improvement_history,
}

-- No two neighbours are equal.
abbrev pub NoRepeat : List Text → Type 0
NoRepeat [] = Unit
NoRepeat (x ∷ []) = Unit
NoRepeat (x ∷ y ∷ xs) = ((x == y) ≡ false) × NoRepeat (y ∷ xs)

-- No entry is empty, and no two neighbours are equal.
pub record IsHistory (h : List Text) : Type 0 where
  pub entries : All (λ x. (x == []) ≡ false) h
  pub no_repeat : NoRepeat h

NoRepeat-snoc :
    (value : Text) (h : List Text)
    → ends_in value h ≡ false
    → NoRepeat h
    → NoRepeat (h ++ value ∷ [])
unfolding ends_in
NoRepeat-snoc value [] e n = tt
NoRepeat-snoc value (x ∷ []) e n = (e, tt)
NoRepeat-snoc value (x ∷ y ∷ xs) e n = (n.0, NoRepeat-snoc value (y ∷ xs) e n.1)

empty-IsHistory : IsHistory []
empty-IsHistory = record { entries = tt; no_repeat = tt }

append-IsHistory :
    (h : List Text) (value : Text) → IsHistory h → IsHistory (append_improvement_history h value)
unfolding append_improvement_history
append-IsHistory h value k = elim (Bool-cases (trim_space value == [])) [
  | inl b ↦ rw b k
  | inr n ↦ rw n (elim (Bool-cases (ends_in (trim_space value) h)) [
    | inl e ↦ rw e k
    | inr f ↦ rw f (record {
      entries = All-append (λ x. (x == []) ≡ false) h (trim_space value ∷ []) k.entries (n, tt);
      no_repeat = NoRepeat-snoc (trim_space value) h f k.no_repeat;
    })
  ])
]

append_all-IsHistory : (h values : List Text) → IsHistory h → IsHistory (append_all h values)
unfolding append_all
append_all-IsHistory h [] k = k
append_all-IsHistory h (v ∷ vs) k =
    append_all-IsHistory (append_improvement_history h v) vs (append-IsHistory h v k)

append_parts-IsHistory : (h parts : List Text) → IsHistory h → IsHistory (append_parts h parts)
unfolding append_parts
append_parts-IsHistory h [] k = k
append_parts-IsHistory h (p ∷ ps) k = elim (Bool-cases (trim_space p == [])) [
  | inl b ↦ rw b (append_parts-IsHistory h ps k)
  | inr n ↦ rw n (
      append_parts-IsHistory (append_improvement_history h (trim_space p)) ps
        (append-IsHistory h (trim_space p) k))
]

-- A history that is read from a text, whatever it holds, or made from values has no empty entry and no
-- two neighbours that are equal, and adding a value keeps this.
pub histories-IsHistory :
    (raw : Text) (values : List Text)
    → (IsHistory (parse_improvement_history raw) × IsHistory (normalize_improvement_history values))
      × ((h : List Text) (value : Text)
          → IsHistory h
          → IsHistory (append_improvement_history h value))
unfolding parse_improvement_history normalize_improvement_history
histories-IsHistory raw values = (
  (
    elim (Bool-cases (trim_space raw == [])) [
      | inl b ↦ rw b empty-IsHistory
      | inr n ↦ rw n (
          append_parts-IsHistory []
            (split_on
              (if not (has_rune b'>' (trim_space raw)) && has_rune b',' (trim_space raw)
                then b','
                else b'>')
              (trim_space raw))
            empty-IsHistory)
    ],
    append_all-IsHistory [] values empty-IsHistory,
  ),
  append-IsHistory,
)
