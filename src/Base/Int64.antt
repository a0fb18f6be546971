-- ===== src/Base/Int64.antt =====
-- Go's `int` and `int64` as their 64-bit patterns: a number below 2^64 stands for a negative
-- integer where its top bit is set.
use Prim.Native.Nat.{ℕ, ◌+◌, ◌-◌, ◌*◌, ◌%◌, ◌≤◌, ◌<◌}
use mathlib.Core.Path.{◌≡◌}
use mathlib.Core.Bool.{Bool}
use native.Mathlib.Omega.{arith}
use gensoulkyo.Base.Tests.{ltb}

-- 2 ^ 64
abbrev pub word : ℕ
word = 18446744073709551616

-- 2 ^ 63
abbrev pub half : ℕ
half = 9223372036854775808

unfoldable pub add64 : ℕ → ℕ → ℕ
add64 a b = (a + b) % word

unfoldable pub sub64 : ℕ → ℕ → ℕ
sub64 a b = (a + (word - b)) % word

unfoldable pub mul64 : ℕ → ℕ → ℕ
mul64 a b = (a * b) % word

-- a < b as signed integers
unfoldable pub lt64 : ℕ → ℕ → Bool
lt64 a b = ltb ((a + half) % word) ((b + half) % word)

-- a <= 0
unfoldable pub non_positive : ℕ → Bool
unfolding lt64
non_positive a = lt64 a 1

pub add64_exact : (a b : ℕ) → a + b < half → add64 a b ≡ a + b
unfolding add64
add64_exact a b h = omega arith

pub sub64_exact : (a b : ℕ) → b ≤ a → a < half → sub64 a b ≡ a - b
unfolding sub64
sub64_exact a b h k = omega arith

pub lt64_exact : (a b : ℕ) → a < half → b < half → lt64 a b ≡ ltb a b
unfolding lt64
lt64_exact a b h k = ground arith

pub non_positive_exact : (a : ℕ) → a < half → non_positive a ≡ ltb a 1
unfolding non_positive
non_positive_exact a h = ground arith

pub mul64_exact : (a b : ℕ) → a * b < half → mul64 a b ≡ a * b
unfolding mul64
mul64_exact a b h = omega arith
