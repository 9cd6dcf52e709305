-- ===== src/Prelude/Int.antt =====
-- Go's `int` and Lua's numbers, where a value may be negative.
use Prim.Native.Nat.{ℕ, ◌+◌, ◌-◌, ◌<◌}
use mathlib.Core.Path.{◌≡◌}
use mathlib.Core.Bool.{Bool, true, false}
use native.Mathlib.Omega.{arith}
use ktauth.Prelude.Tests.{ltb, leb, ◌==◌, if◌then◌else◌}

-- `negsuc n` is -(n + 1).
pub data ℤ : Type 0 where
  pos : ℕ → ℤ
  negsuc : ℕ → ℤ

-- a - b, as an integer.
abbrev pub sub_ℕ : ℕ → ℕ → ℤ
sub_ℕ a b = if leb b a then pos (a - b) else negsuc (b - a - 1)

abbrev pub pos_part : ℤ → ℕ
pos_part (pos n) = n
pos_part (negsuc n) = 0

-- n < z
abbrev pub lt_int : ℕ → ℤ → Bool
lt_int n (pos m) = ltb n m
lt_int n (negsuc m) = false

-- n ≤ z
abbrev pub le_int : ℕ → ℤ → Bool
le_int n (pos m) = leb n m
le_int n (negsuc m) = false

-- n == z
abbrev pub eq_int : ℕ → ℤ → Bool
eq_int n (pos m) = n == m
eq_int n (negsuc m) = false

abbrev pub is_one : ℤ → Bool
is_one (pos n) = n == 1
is_one (negsuc n) = false

abbrev pub is_minus_one : ℤ → Bool
is_minus_one (pos n) = false
is_minus_one (negsuc n) = n == 0

pub lt_int→lt : (n : ℕ) (z : ℤ) → lt_int n z ≡ true → n < pos_part z
lt_int→lt n (pos m) h = ground arith
lt_int→lt n (negsuc m) h = ground arith

-- A score is outside the window exactly when it is at most `now - window`.
pub le_int-sub_ℕ : (s now window : ℕ) → le_int s (sub_ℕ now window) ≡ leb (s + window) now
le_int-sub_ℕ s now window = ground arith
