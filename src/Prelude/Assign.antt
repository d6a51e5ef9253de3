-- ===== src/Prelude/Assign.antt =====
-- Assignments to the keys of a map, each under a condition, and what is found there afterwards.
use mathlib.Core.Path.{◌≡◌, refl, ap, ◌∙◌}
use mathlib.Core.Logic.{inl, inr}
use mathlib.Core.Option.{Option, none, some}
use mathlib.Core.List.{List, [], ◌∷◌}
use phonewave.Prelude.Tests.{Bool-cases, if◌then◌else◌}
use phonewave.Prelude.Texts.{Text, ◌==◌}
use phonewave.Prelude.Maps.{Dict, lookup, insert, lookup-insert}

-- if ... { cp[key] = value }
unfoldable pub assign : Text → Option Text → Dict Text → Dict Text
assign key none meta = meta
assign key (some value) meta = insert key value meta

unfoldable pub assign_all : List (Text × Option Text) → Dict Text → Dict Text
unfolding assign
assign_all [] meta = meta
assign_all ((key, value) ∷ rest) meta = assign_all rest (assign key value meta)

-- The last assignment to a key that lets a value through, or else the earlier one.
abbrev pub over : Option Text → Option Text → Option Text
over none earlier = earlier
over (some v) earlier = some v

abbrev pub written : Text → List (Text × Option Text) → Option Text → Option Text
written asked [] earlier = earlier
written asked ((key, value) ∷ rest) earlier =
    written asked rest (if key == asked then over value earlier else earlier)

lookup-assign :
    (asked key : Text) (value : Option Text) (meta : Dict Text)
    → lookup asked (assign key value meta)
      ≡ (if key == asked then over value (lookup asked meta) else lookup asked meta)
unfolding assign
lookup-assign asked key none meta = elim (Bool-cases (key == asked)) [ inl e ↦ rw e | inr n ↦ rw n ]
lookup-assign asked key (some v) meta = lookup-insert key asked v meta

lookup-assign_all :
    (asked : Text) (fs : List (Text × Option Text)) (meta : Dict Text)
    → lookup asked (assign_all fs meta) ≡ written asked fs (lookup asked meta)
unfolding assign_all
lookup-assign_all asked [] meta = refl
lookup-assign_all asked ((key, value) ∷ rest) meta =
    lookup-assign_all asked rest (assign key value meta)
    ∙ ap (written asked rest) (lookup-assign asked key value meta)

over-none : (o : Option Text) → over o none ≡ o
over-none none = refl
over-none (some v) = refl

pub lookup-assigned :
    (asked : Text) (o : Option Text) (fs : List (Text × Option Text))
    → written asked fs none ≡ over o none
    → lookup asked (assign_all fs []) ≡ o
unfolding lookup
lookup-assigned asked o fs h = lookup-assign_all asked fs [] ∙ h ∙ over-none o
