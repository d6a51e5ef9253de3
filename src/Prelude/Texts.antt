-- ===== src/Prelude/Texts.antt =====
-- Go's strings. A text is the list of its code points: every string that the program compares,
-- splits or trims is valid UTF-8, and no length in bytes is read from it.
use Prim.Native.Nat.{ℕ, ◌+◌}
use Prim.Native.Char.{code}
use Prim.Native.String.{String}
use mathlib.Core.Path.{◌≡◌, refl}
use mathlib.Core.Logic.{◌↔◌, ◌⊎◌, inl, inr}
use mathlib.Core.Bool.{Bool, true, false, ◌&&◌}
use mathlib.Core.List.{List, [], ◌∷◌, ◌++◌}
use native.Mathlib.Omega.{arith}
use phonewave.Prelude.Tests.{nat_eq, ltb, leb, Bool-cases, if◌then◌else◌}
use phonewave.Prelude.Lists.{In}

abbrev pub Text : Type 0
Text = List ℕ

abbrev pub codes : String → Text
codes String.[] = []
codes (String.◌∷◌ c s) = code c ∷ codes s

infix 50 ◌==◌
-- a == b, on strings.
unfoldable pub ◌==◌ : Text → Text → Bool
[] == [] = true
[] == (y ∷ ys) = false
(x ∷ xs) == [] = false
(x ∷ xs) == (y ∷ ys) = nat_eq x y && xs == ys

eq_sound : (s t : Text) → (s == t) ≡ true → s ≡ t
unfolding ◌==◌
eq_sound [] [] h = refl
eq_sound [] (y ∷ ys) h = ground arith
eq_sound (x ∷ xs) [] h = ground arith
eq_sound (x ∷ xs) (y ∷ ys) h = ground (arith, eq_sound xs ys)

pub eq_refl : (s : Text) → (s == s) ≡ true
unfolding ◌==◌
eq_refl [] = refl
eq_refl (x ∷ xs) = ground (arith, eq_refl xs)

eq_complete : (s t : Text) → s ≡ t → (s == t) ≡ true
eq_complete s t e = rw e (eq_refl t)

pub eq_iff : (s t : Text) → ((s == t) ≡ true) ↔ (s ≡ t)
eq_iff s t = (eq_sound s t, eq_complete s t)

pub eq_cases : (s t : Text) → (s ≡ t) ⊎ ((s == t) ≡ false)
eq_cases s t = elim (Bool-cases (s == t)) [ inl h ↦ inl (eq_sound s t h) | inr h ↦ inr h ]

-- slices.Contains, and membership in a map[string]bool.
unfoldable pub contains : List Text → Text → Bool
contains [] t = false
contains (x ∷ xs) t = if x == t then true else contains xs t

pub contains-In : (xs : List Text) (t : Text) → contains xs t ≡ true → In t xs
unfolding contains
contains-In [] t h = ground arith
contains-In (x ∷ xs) t h = elim (Bool-cases (x == t)) [
  | inl e ↦ inl (ground (arith, eq_sound x t))
  | inr e ↦ inr (contains-In xs t (ground arith))
]

pub In-contains : (xs : List Text) (t : Text) → In t xs → contains xs t ≡ true
unfolding contains
In-contains [] t h = absurd h
In-contains (x ∷ xs) t (inl e) = ground (arith, eq_iff x t)
In-contains (x ∷ xs) t (inr h) = ground (arith, In-contains xs t h)

-- Does the rune occur in the text?
unfoldable pub has_rune : ℕ → Text → Bool
has_rune d [] = false
has_rune d (c ∷ cs) = if nat_eq c d then true else has_rune d cs

abbrev prepend : ℕ → List Text → List Text
prepend c [] = (c ∷ []) ∷ []
prepend c (s ∷ ss) = (c ∷ s) ∷ ss

-- strings.Split(s, sep) for a separator of one rune
unfoldable pub split_on : ℕ → Text → List Text
split_on d [] = [] ∷ []
split_on d (c ∷ cs) = let rest = split_on d cs in if nat_eq c d then [] ∷ rest else prepend c rest

-- strings.Join(parts, sep) for a separator of one rune
unfoldable pub join_with : ℕ → List Text → Text
join_with d [] = []
join_with d (s ∷ []) = s
join_with d (s ∷ t ∷ ss) = s ++ d ∷ join_with d (t ∷ ss)

-- strings.HasPrefix(s, p)
unfoldable pub has_prefix : Text → Text → Bool
has_prefix s [] = true
has_prefix [] (p ∷ ps) = false
has_prefix (c ∷ cs) (p ∷ ps) = nat_eq c p && has_prefix cs ps

pub split_on-none : (d : ℕ) (s : Text) → has_rune d s ≡ false → split_on d s ≡ s ∷ []
unfolding split_on has_rune
split_on-none d [] h = refl
split_on-none d (c ∷ cs) h = elim (Bool-cases (nat_eq c d)) [
  | inl e ↦ ground arith
  | inr e ↦ rw e (rw (split_on-none d cs (ground arith)))
]

prepend-append :
    (c : ℕ) (s : Text) (xs ys : List Text) → prepend c ((s ∷ xs) ++ ys) ≡ prepend c (s ∷ xs) ++ ys
prepend-append c s xs ys = refl

split_on-ne_nil : (d : ℕ) (s : Text) → (t : Text) × (ts : List Text) × (split_on d s ≡ t ∷ ts)
unfolding split_on
split_on-ne_nil d [] = ([], [], refl)
split_on-ne_nil d (c ∷ cs) =
    let (t, ts, e) = split_on-ne_nil d cs in
    elim (Bool-cases (nat_eq c d)) [
      | inl h ↦ ([], split_on d cs, rw h)
      | inr h ↦ (c ∷ t, ts, rw h (rw e))
    ]

pub split_on-append : (d : ℕ) (p q : Text) → split_on d (p ++ d ∷ q) ≡ split_on d p ++ split_on d q
unfolding split_on
split_on-append d [] q = ground arith
split_on-append d (c ∷ cs) q =
    let (t, ts, e) = split_on-ne_nil d cs in
    elim (Bool-cases (nat_eq c d)) [
      | inl h ↦ rw h (rw (split_on-append d cs q))
      | inr h ↦ rw h (rw (split_on-append d cs q, e))
    ]

-- unicode.ToLower; `wide` is its table for the code points from 128 on.
unfoldable pub lower_rune : (ℕ → ℕ) → ℕ → ℕ
lower_rune wide c = if ltb c 128 then (if leb b'A' c && leb c b'Z' then c + 32 else c) else wide c

-- strings.ToLower
unfoldable pub to_lower : (ℕ → ℕ) → Text → Text
unfolding lower_rune
to_lower wide [] = []
to_lower wide (c ∷ cs) = lower_rune wide c ∷ to_lower wide cs

-- The constant of the list that a text is, if it is one of them (a switch over constants).
unfoldable pub one_of : List Text → Text → Text → Text
one_of [] t other = other
one_of (c ∷ cs) t other = if c == t then c else one_of cs t other
