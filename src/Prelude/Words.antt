-- ===== src/Prelude/Words.antt =====
-- Go's int64 and uint64. A value is its bit pattern, a number below 2 ^ 64; as an int64 it is negative
-- from 2 ^ 63 on. Sums and differences wrap.
use Prim.Native.Nat.{ℕ, ◌+◌, ◌-◌, ◌%◌, ◌^◌, ◌≤◌, ◌<◌}
use mathlib.Core.Path.{◌≡◌}
use mathlib.Core.Bool.{Bool, true, not}
use native.Mathlib.Omega.{arith}
use matching_engine_go.Prelude.Tests.{ltb, leb, if◌then◌else◌}

-- `a < b` on int64.
unfoldable pub lt64 : ℕ → ℕ → Bool
lt64 a b = ltb ((a + 2 ^ 63) % 2 ^ 64) ((b + 2 ^ 63) % 2 ^ 64)

unfoldable pub add64 : ℕ → ℕ → ℕ
add64 a b = (a + b) % 2 ^ 64

unfoldable pub sub64 : ℕ → ℕ → ℕ
sub64 a b = (a + 2 ^ 64 - b) % 2 ^ 64

-- `min64` of book.go
unfoldable pub min64 : ℕ → ℕ → ℕ
min64 a b = if lt64 a b then a else b

pub lt64-eq-ltb : (a b : ℕ) → a < 2 ^ 63 → b < 2 ^ 63 → lt64 a b ≡ ltb a b
unfolding lt64
lt64-eq-ltb a b ha hb = ground arith

pub le64-eq-leb : (a b : ℕ) → a < 2 ^ 63 → b < 2 ^ 63 → not (lt64 b a) ≡ leb a b
unfolding lt64
le64-eq-leb a b ha hb = ground arith

pub lt64_zero : (a : ℕ) → 0 < a → a < 2 ^ 63 → lt64 0 a ≡ true
unfolding lt64
lt64_zero a h h' = ground arith

-- An int64 that passed `0 < a` is a positive number.
pub positive_range : (a : ℕ) → a < 2 ^ 64 → lt64 0 a ≡ true → (0 < a) × (a < 2 ^ 63)
unfolding lt64
positive_range a h p = ground arith

pub min64-eq : (a b : ℕ) → a < 2 ^ 63 → b < 2 ^ 63 → min64 a b ≡ (if ltb a b then a else b)
unfolding min64 lt64
min64-eq a b ha hb = ground arith

pub sub64-eq : (a b : ℕ) → b ≤ a → a < 2 ^ 64 → sub64 a b ≡ a - b
unfolding sub64
sub64-eq a b h h' = omega arith
