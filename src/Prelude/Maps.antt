-- ===== src/Prelude/Maps.antt =====
-- Go's maps with string keys, as association lists. Iteration in Go has no fixed order; where
-- the program iterates over a map it sorts the keys afterwards or builds another map.
use mathlib.Core.Path.{◌≡◌, refl, ap, sym, ◌∙◌}
use mathlib.Core.Logic.{inl, inr}
use mathlib.Core.Bool.{false}
use mathlib.Core.Option.{Option, none, some}
use mathlib.Core.List.{List, [], ◌∷◌}
use native.Mathlib.Omega.{arith}
use phonewave.Prelude.Tests.{if◌then◌else◌}
use phonewave.Prelude.Lists.{In}
use phonewave.Prelude.Texts.{Text, ◌==◌, eq_iff, eq_cases, eq_refl}

abbrev pub Dict {ℓ} : Type ℓ → Type ℓ
Dict V = List (Text × V)

module _ {ℓ} {V : Type ℓ} where
  -- v, ok := m[k]
  unfoldable pub lookup : Text → Dict V → Option V
  lookup k [] = none
  lookup k ((j, v) ∷ m) = if j == k then some v else lookup k m

  -- m[k] = v
  unfoldable pub insert : Text → V → Dict V → Dict V
  insert k v [] = (k, v) ∷ []
  insert k v ((i, old) ∷ rest) =
      let entries = insert k v rest in if i == k then (k, v) ∷ rest else (i, old) ∷ entries

  pub lookup-insert :
      (key asked : Text) (v : V) (m : Dict V)
      → lookup asked (insert key v m) ≡ (if key == asked then some v else lookup asked m)
  unfolding lookup insert
  lookup-insert key asked v [] = refl
  lookup-insert key asked v ((i, old) ∷ rest) =
      ground (arith, lookup-insert key asked v rest, eq_iff i asked, eq_iff key asked, eq_iff i key)

  -- m[k], with the value for a missing key
  abbrev pub get_or : V → Option V → V
  get_or d none = d
  get_or d (some v) = v

  abbrev pub keys : Dict V → List Text
  keys [] = []
  keys ((k, v) ∷ m) = k ∷ keys m

module _ {V : Type 0} where
  -- No key has two entries.
  abbrev pub IsMap : Dict V → Type 0
  IsMap [] = Unit
  IsMap ((k, v) ∷ m) = (lookup k m ≡ none) × IsMap m

  pub insert-IsMap : (k : Text) (v : V) (m : Dict V) → IsMap m → IsMap (insert k v m)
  unfolding insert
  insert-IsMap k v [] h = (unfold lookup in refl, tt)
  insert-IsMap k v ((j, w) ∷ m) h = elim (eq_cases j k) [
    | inl e ↦ rw ((eq_iff j k).1 e) (rw e at h.0, h.1)
    | inr n ↦ rw n (fresh n, insert-IsMap k v m h.1)
  ]
    where
      fresh : (j == k) ≡ false → lookup j (insert k v m) ≡ none
      fresh n = ground (arith, lookup-insert k j v m, h.0, eq_iff k j, eq_iff j k)

  pub lookup-In : (k : Text) (v : V) (m : Dict V) → lookup k m ≡ some v → In (k, v) m
  unfolding lookup
  lookup-In k v [] h = absurd (ground arith)
  lookup-In k v ((j, w) ∷ m) h = elim (eq_cases j k) [
    | inl e ↦ inl (cc (rw ((eq_iff j k).1 e) at h, e))
    | inr n ↦ inr (lookup-In k v m (rw n at h))
  ]

  pub In-lookup : (k : Text) (v : V) (m : Dict V) → IsMap m → In (k, v) m → lookup k m ≡ some v
  unfolding lookup
  In-lookup k v [] u h = absurd h
  In-lookup k v ((j, w) ∷ m) u (inl e) =
      rw (← ap (λ y. y.0) e, eq_refl k) (ap some (sym (ap (λ y. y.1) e)))
  In-lookup k v ((j, w) ∷ m) u (inr h) = elim (eq_cases j k) [
    | inl e ↦ cc (sym (rw e at u.0) ∙ In-lookup k v m u.1 h)
    | inr n ↦ rw n (In-lookup k v m u.1 h)
  ]
