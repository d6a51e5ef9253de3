-- ===== src/Prelude/Words.antt =====
-- Go's int64 as a bit pattern below 2 ^ 64: a pattern from 2 ^ 63 on stands for a negative number.
-- A time.Duration is such a number of nanoseconds.
use Prim.Native.Nat.{ℕ, ◌+◌, ◌-◌, ◌*◌, ◌/◌, ◌%◌, ◌^◌, ◌<◌}
use mathlib.Core.Path.{◌≡◌}
use mathlib.Core.Bool.{Bool}
use native.Mathlib.Omega.{arith}
use phonewave.Prelude.Tests.{ltb, if◌then◌else◌}

abbrev pub word : ℕ
word = 2 ^ 64

-- The order of the signed numbers.
unfoldable pub slt : ℕ → ℕ → Bool
slt a b = ltb ((a + 2 ^ 63) % word) ((b + 2 ^ 63) % word)

-- a * 2, with wrap-around
unfoldable pub double : ℕ → ℕ
double a = (a * 2) % word

-- a / 4, towards zero
unfoldable pub quarter : ℕ → ℕ
quarter a = if ltb a (2 ^ 63) then a / 4 else (word - (word - a) / 4) % word

-- a + b and a - b, with wrap-around
unfoldable pub add : ℕ → ℕ → ℕ
add a b = (a + b) % word

unfoldable pub sub : ℕ → ℕ → ℕ
sub a b = (a + word - b) % word

-- Where no number is negative the signed order is the order of the numbers.
pub slt-ltb : (a b : ℕ) → a < 2 ^ 63 → b < 2 ^ 63 → slt a b ≡ ltb a b
unfolding slt
slt-ltb a b ha hb = ground arith

pub double-lt : (a : ℕ) → a < 2 ^ 62 → double a ≡ a * 2
unfolding double
double-lt a h = omega arith
