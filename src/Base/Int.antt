-- ===== src/Base/Int.antt =====
-- Signed integers over the native numbers, for differences that the source lets go below zero.
use Prim.Native.Nat.{ℕ, ◌+◌, ◌-◌, ◌≤◌}
use mathlib.Core.Path.{◌≡◌}
use mathlib.Core.Option.{Option, none, some}
use native.Mathlib.Omega.{arith}
use provena.Base.Tests.{leb, if◌then◌else◌}

-- `negsuc n` is -(n + 1).
pub data ℤ : Type 0 where
  pos : ℕ → ℤ
  negsuc : ℕ → ℤ

-- a - b
abbrev pub sub_ℕ : ℕ → ℕ → ℤ
sub_ℕ a b = if leb b a then pos (a - b) else negsuc (b - a - 1)

-- The number itself where it is above zero.
abbrev pub positive? : ℤ → Option ℕ
positive? (pos n) = if leb 1 n then some n else none
positive? (negsuc n) = none

pub sub_ℕ-positive? : (a b : ℕ) {n : ℕ} → positive? (sub_ℕ a b) ≡ some n → (a ≡ b + n) × (1 ≤ n)
sub_ℕ-positive? a b h = ground arith
