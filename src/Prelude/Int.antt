-- ===== src/Prelude/Int.antt =====
-- Signed integers over the native numbers: file descriptors, and the results of system calls.
use Prim.Native.Nat.{ℕ, ◌+◌, ◌-◌}
use mathlib.Core.Path.{◌≡◌, refl}
use mathlib.Core.Logic.{◌↔◌}
use mathlib.Core.Bool.{Bool, true, false}
use native.Mathlib.Omega.{arith}
use lighting_gateway.Prelude.Tests.{◌==◌, leb, if◌then◌else◌}

-- `negsuc n` is -(n + 1).
pub data ℤ : Type 0 where
  pos : ℕ → ℤ
  negsuc : ℕ → ℤ

abbrev pub eq_ℤ : ℤ → ℤ → Bool
eq_ℤ (pos m) (pos n) = m == n
eq_ℤ (pos m) (negsuc n) = false
eq_ℤ (negsuc m) (pos n) = false
eq_ℤ (negsuc m) (negsuc n) = m == n

pub eq_ℤ_iff : (a b : ℤ) → (eq_ℤ a b ≡ true) ↔ (a ≡ b)
eq_ℤ_iff (pos m) (pos n) = ground arith
eq_ℤ_iff _ _ = ground arith

pub eq_ℤ_refl : (a : ℤ) → eq_ℤ a a ≡ true
eq_ℤ_refl a = (eq_ℤ_iff a a).1 refl

pub eq_ℤ_comm : (a b : ℤ) → eq_ℤ a b ≡ eq_ℤ b a
eq_ℤ_comm (pos m) (pos n) = ground arith
eq_ℤ_comm (pos m) (negsuc n) = refl
eq_ℤ_comm (negsuc m) (pos n) = refl
eq_ℤ_comm (negsuc m) (negsuc n) = ground arith

abbrev pub is_negative : ℤ → Bool
is_negative (pos n) = false
is_negative (negsuc n) = true

abbrev pub sub : ℤ → ℕ → ℤ
sub (pos m) n = if leb n m then pos (m - n) else negsuc (n - m - 1)
sub (negsuc m) n = negsuc (m + n)

abbrev pub minus : ℤ → ℤ → ℤ
minus a (pos n) = sub a n
minus (pos m) (negsuc n) = pos (m + n + 1)
minus (negsuc m) (negsuc n) = sub (pos n) m
