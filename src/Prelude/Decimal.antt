-- ===== src/Prelude/Decimal.antt =====
-- strconv.Itoa and strconv.FormatBool, and that Atoi reads what Itoa writes.
use Prim.Native.Nat.{ℕ, zero, suc, ◌+◌, ◌-◌, ◌*◌, ◌/◌, ◌%◌, ◌^◌, ◌<◌}
use mathlib.Core.Path.{◌≡◌, refl}
use mathlib.Core.Logic.{inl, inr}
use mathlib.Core.Bool.{Bool, true, false}
use mathlib.Core.Option.{some}
use mathlib.Core.List.{[], ◌∷◌, ◌++◌}
use native.Mathlib.Omega.{arith}
use phonewave.Prelude.Tests.{ltb, Bool-cases, if◌then◌else◌}
use phonewave.Prelude.Texts.{Text, codes, contains, ◌==◌}
use phonewave.Prelude.Ints.{ℤ, pos, negsuc}
use phonewave.Prelude.Parsing.{digits, natural, atoi, parse_bool}

-- The decimal digits of a number of at most as many digits as the first argument.
unfoldable pub decimal : ℕ → ℕ → Text
decimal zero n = []
decimal (suc size) n =
    let front = decimal size (n / 10) in
    if ltb n 10 then (b'0' + n) ∷ [] else front ++ (b'0' + n % 10) ∷ []

-- A word of 64 bits has at most 20 digits.
unfoldable pub itoa : ℤ → Text
unfolding decimal
itoa (pos n) = decimal 20 n
itoa (negsuc n) = b'-' ∷ decimal 20 (n + 1)

unfoldable pub format_bool : Bool → Text
format_bool true = codes "true"
format_bool false = codes "false"

-- The range of an int of 64 bits.
abbrev pub InRange : ℤ → Type 0
InRange (pos n) = n < 2 ^ 63
InRange (negsuc n) = n < 2 ^ 63

digits-snoc :
    (n : ℕ) (s : Text) (d m : ℕ)
    → d < 10
    → digits n s ≡ some m
    → digits n (s ++ (b'0' + d) ∷ []) ≡ some (m * 10 + d)
unfolding digits
digits-snoc n [] d m small h = ground arith
digits-snoc n (c ∷ cs) d m small h = ground (arith, digits-snoc (n * 10 + (c - b'0')) cs d m small)

decimal-step :
    (size n : ℕ)
    → ltb n 10 ≡ false
    → decimal (suc size) n ≡ decimal size (n / 10) ++ (b'0' + n % 10) ∷ []
unfolding decimal
decimal-step size n many = rw many

quotient-small : (n bound : ℕ) → n < bound * 10 → n / 10 < bound
quotient-small n bound small = omega arith

power-step : (size : ℕ) → 10 ^ suc size ≡ 10 ^ size * 10
power-step size = omega arith

digits-decimal : (size n : ℕ) → n < 10 ^ suc size → digits 0 (decimal (suc size) n) ≡ some n
digits-decimal zero n small = unfold digits decimal in ground arith
digits-decimal (suc size) n small = elim (Bool-cases (ltb n 10)) [
  | inl few ↦ unfold decimal in rw few (unfold digits in ground arith)
  | inr many ↦ rw (decimal-step (suc size) n many) (
      ground (
        arith,
        digits-snoc 0 (decimal (suc size) (n / 10)) (n % 10) (n / 10) (omega arith) (
            digits-decimal size (n / 10)
              (quotient-small n (10 ^ suc size) (rw power-step at small))),
      ))
]

snoc-set : (s : Text) (c : ℕ) → ((s ++ c ∷ []) == []) ≡ false
unfolding ◌==◌
snoc-set [] c = refl
snoc-set (x ∷ xs) c = refl

decimal-set : (size n : ℕ) → (decimal (suc size) n == []) ≡ false
decimal-set size n = elim (Bool-cases (ltb n 10)) [
  | inl few ↦ unfold decimal in rw few (unfold ◌==◌ in refl)
  | inr many ↦ rw (decimal-step size n many) (snoc-set (decimal size (n / 10)) (b'0' + n % 10))
]

pub itoa-set : (i : ℤ) → (itoa i == []) ≡ false
unfolding itoa
itoa-set (pos n) = decimal-set 19 n
itoa-set (negsuc n) = unfold ◌==◌ in refl

natural-digits : (s : Text) (n : ℕ) → (s == []) ≡ false → digits 0 s ≡ some n → natural s ≡ some n
unfolding ◌==◌ natural
natural-digits [] n h e = absurd (ground arith)
natural-digits (c ∷ cs) n h e = e

natural-decimal : (n : ℕ) → n < 2 ^ 64 → natural (decimal 20 n) ≡ some n
natural-decimal n small =
    natural-digits (decimal 20 n) n (decimal-set 19 n) (digits-decimal 19 n (omega arith))

-- A text without a sign.
atoi-natural : (s : Text) (n : ℕ) → n < 2 ^ 63 → natural s ≡ some n → atoi s ≡ some (pos n)
unfolding natural atoi digits
atoi-natural [] n small h = absurd (ground arith)
atoi-natural (c ∷ cs) n small h = ground arith

-- Atoi reads back every int that Itoa writes.
pub atoi-itoa : (i : ℤ) → InRange i → atoi (itoa i) ≡ some i
unfolding itoa
atoi-itoa (pos n) h = atoi-natural (decimal 20 n) n h (natural-decimal n (omega arith))
atoi-itoa (negsuc n) h = unfold atoi in rw (natural-decimal (n + 1) (omega arith)) (ground arith)

pub format_bool-set : (b : Bool) → (format_bool b == []) ≡ false
unfolding format_bool ◌==◌
format_bool-set true = refl
format_bool-set false = refl

pub parse-format_bool : (b : Bool) → parse_bool (format_bool b) ≡ some b
unfolding format_bool parse_bool contains ◌==◌
parse-format_bool true = refl
parse-format_bool false = refl
