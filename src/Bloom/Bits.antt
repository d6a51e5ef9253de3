-- ===== src/Bloom/Bits.antt =====
-- Single binary digits of a word, and the native `&` and `|` on them.
use Prim.Native.Nat.{max, min, bit_and, bit_or, bit_and-bitwise, bit_or-bitwise, digits}
use native.Mathlib.Nat.{pow-suc}
use phonewave.Prelude.{
  ℕ, zero, suc, ◌+◌, ◌*◌, ◌/◌, ◌%◌, ◌^◌, ◌≤◌, ◌≡◌, refl, Bool, true, false, ◌||◌, if◌then◌else◌,
  nat_eq, arith,
}

-- The digit at place k.
abbrev pub test_bit : ℕ → ℕ → Bool
test_bit zero w = nat_eq (w % 2) 1
test_bit (suc k) w = test_bit k (w / 2)

-- More fuel than digits changes nothing, for an operation that keeps what is left when the first
-- number has run out as `z` says, and for which zeros give that too.
or_fuel : (n m a b : ℕ) → a ≤ n → a ≤ m → digits (λ y. y) max n a b ≡ digits (λ y. y) max m a b
or_fuel zero zero a b p q = refl
or_fuel zero (suc m) zero b p q = refl
or_fuel zero (suc m) (suc a) b p q = absurd (omega arith)
or_fuel (suc n) zero zero b p q = refl
or_fuel (suc n) zero (suc a) b p q = absurd (omega arith)
or_fuel (suc n) (suc m) zero b p q = refl
or_fuel (suc n) (suc m) (suc a) b p q =
    omega (arith, or_fuel n m (suc a / 2) (b / 2) (omega arith) (omega arith))

and_fuel :
    (n m a b : ℕ) → a ≤ n → a ≤ m → digits (λ y. zero) min n a b ≡ digits (λ y. zero) min m a b
and_fuel zero zero a b p q = refl
and_fuel zero (suc m) zero b p q = refl
and_fuel zero (suc m) (suc a) b p q = absurd (omega arith)
and_fuel (suc n) zero zero b p q = refl
and_fuel (suc n) zero (suc a) b p q = absurd (omega arith)
and_fuel (suc n) (suc m) zero b p q = refl
and_fuel (suc n) (suc m) (suc a) b p q =
    omega (arith, and_fuel n m (suc a / 2) (b / 2) (omega arith) (omega arith))

or_halves : (a b : ℕ) → bit_or a b ≡ bit_or (a / 2) (b / 2) * 2 + max (a % 2) (b % 2)
or_halves zero b = omega (arith, bit_or-bitwise 0 b, bit_or-bitwise 0 (b / 2))
or_halves (suc a) b = omega (
  arith,
  or_fuel a (suc a / 2) (suc a / 2) (b / 2) (omega arith) (omega arith),
  bit_or-bitwise (suc a / 2) (b / 2),
  bit_or-bitwise (suc a) b,
)

and_halves : (a b : ℕ) → bit_and a b ≡ bit_and (a / 2) (b / 2) * 2 + min (a % 2) (b % 2)
and_halves zero b = omega (arith, bit_and-bitwise 0 b, bit_and-bitwise 0 (b / 2))
and_halves (suc a) b = omega (
  arith,
  and_fuel a (suc a / 2) (suc a / 2) (b / 2) (omega arith) (omega arith),
  bit_and-bitwise (suc a / 2) (b / 2),
  bit_and-bitwise (suc a) b,
)

or_half : (a b : ℕ) → bit_or a b / 2 ≡ bit_or (a / 2) (b / 2)
or_half a b = omega (arith, or_halves a b)

-- The digits of a | b.
pub test_bit-or : (k a b : ℕ) → test_bit k (bit_or a b) ≡ (test_bit k a || test_bit k b)
test_bit-or zero a b = ground (arith, or_halves a b)
test_bit-or (suc k) a b = rw (or_half a b) (test_bit-or k (a / 2) (b / 2))

half_pow : (k : ℕ) → 2 ^ suc k / 2 ≡ 2 ^ k
half_pow k = omega (arith, pow-suc 2 k)

-- 1 << k has its digit at place k.
pub test_bit-pow : (k : ℕ) → test_bit k (2 ^ k) ≡ true
test_bit-pow zero = refl
test_bit-pow (suc k) = rw (half_pow k) (test_bit-pow k)

and_zero_fuel : (n a : ℕ) → a ≤ n → bit_and a 0 ≡ 0
and_zero_fuel n zero h = refl
and_zero_fuel zero (suc a) h = absurd (omega arith)
and_zero_fuel (suc n) (suc a) h =
    omega (arith, and_halves (suc a) 0, and_zero_fuel n (suc a / 2) (omega arith))

and_zero : (a : ℕ) → bit_and a 0 ≡ 0
and_zero a = and_zero_fuel a a (omega arith)

and_shifted : (k w : ℕ) → bit_and w (2 ^ suc k) ≡ bit_and (w / 2) (2 ^ k) * 2
and_shifted k w =
    let halves = and_halves w (2 ^ suc k) in omega (arith, pow-suc 2 k, rw (half_pow k) at halves)

-- w & (1 << k) is not zero just where w has the digit.
pub bit_and-test : (k w : ℕ) → (if nat_eq (bit_and w (2 ^ k)) 0 then false else true) ≡ test_bit k w
bit_and-test zero w = ground (arith, and_halves w 1, and_zero (w / 2))
bit_and-test (suc k) w = ground (arith, and_shifted k w, bit_and-test k (w / 2))
