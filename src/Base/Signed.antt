-- ===== src/Base/Signed.antt =====
-- Signed integers over the native numbers: `negsuc n` is -(n + 1).
use Prim.Native.Nat.{ℕ}
use mathlib.Core.Bool.{Bool, true, false}
use os_x_generic_usb.Base.Tests.{ltb, ◌==◌}

pub data ℤ : Type 0 where
  pos : ℕ → ℤ
  negsuc : ℕ → ℤ

-- `a < b` as a test.
abbrev pub ltbℤ : ℤ → ℤ → Bool
ltbℤ (pos a) (pos b) = ltb a b
ltbℤ (pos a) (negsuc b) = false
ltbℤ (negsuc a) (pos b) = true
ltbℤ (negsuc a) (negsuc b) = ltb b a

-- `a == b` as a test.
abbrev pub eqbℤ : ℤ → ℤ → Bool
eqbℤ (pos a) (pos b) = a == b
eqbℤ (pos a) (negsuc b) = false
eqbℤ (negsuc a) (pos b) = false
eqbℤ (negsuc a) (negsuc b) = a == b
