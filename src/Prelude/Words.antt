-- ===== src/Prelude/Words.antt =====
-- The signed 64-bit integers of the source as their bit patterns, numbers below 2 ^ 64.
use Prim.Native.Nat.{ℕ, ◌+◌, ◌-◌, ◌%◌, ◌^◌, ◌<◌}
use mathlib.Core.Path.{◌≡◌}
use mathlib.Core.Bool.{Bool}
use native.Mathlib.Omega.{arith}
use niova_mdsvc.Prelude.Tests.{ltb}

abbrev pub two64 : ℕ
two64 = 2 ^ 64

abbrev pub two63 : ℕ
two63 = 2 ^ 63

abbrev pub add64 : ℕ → ℕ → ℕ
add64 a b = (a + b) % two64

abbrev pub sub64 : ℕ → ℕ → ℕ
sub64 a b = (a + (two64 - b % two64)) % two64

-- `a < b` on int64: the order of the patterns with the sign bit flipped.
abbrev pub slt64 : ℕ → ℕ → Bool
slt64 a b = ltb ((a + two63) % two64) ((b + two63) % two64)

pub add-sub64 : (a b c : ℕ) → add64 (sub64 (add64 a b) c) c ≡ add64 a b
add-sub64 a b c = omega arith

pub slt64-ltb : (a b : ℕ) → a < two63 → b < two63 → slt64 a b ≡ ltb a b
slt64-ltb a b ha hb = ground arith
