-- ===== src/Base/Word.antt =====
-- Machine words as native numbers. The source's masks and shifts are written in the arithmetic
-- form that the tactics read: bit `k` of `x` is `x / 2 ^ k % 2`, and a field of `w` bits from bit
-- `lo` on is `x / 2 ^ lo % 2 ^ w`.
use Prim.Native.Nat.{ℕ, ◌+◌, ◌-◌, ◌*◌, ◌/◌, ◌%◌, ◌^◌}
use mathlib.Core.Bool.{Bool}
use os_x_generic_usb.Base.Tests.{◌==◌, if◌then◌else◌}

-- `x >> k & 1`.
abbrev pub bit : ℕ → ℕ → ℕ
bit k x = x / 2 ^ k % 2

-- `(x & (1 << k)) != 0`.
abbrev pub has_bit : ℕ → ℕ → Bool
has_bit k x = bit k x == 1

-- `x | (1 << k)`.
abbrev pub set_bit : ℕ → ℕ → ℕ
set_bit k x = x + (1 - bit k x) * 2 ^ k

-- `x & ~(1 << k)`.
abbrev pub clear_bit : ℕ → ℕ → ℕ
clear_bit k x = x - bit k x * 2 ^ k

-- `x ^ (1 << k)`.
abbrev pub flip_bit : ℕ → ℕ → ℕ
flip_bit k x = if has_bit k x then x - 2 ^ k else x + 2 ^ k

-- `b ? x | (1 << k) : x & ~(1 << k)`.
abbrev pub put_bit : ℕ → Bool → ℕ → ℕ
put_bit k b x = if b then set_bit k x else clear_bit k x

-- `(x >> lo) & (2 ^ w - 1)`.
abbrev pub field : ℕ → ℕ → ℕ → ℕ
field lo w x = x / 2 ^ lo % 2 ^ w

-- `(v & (2 ^ w - 1)) << lo`.
abbrev pub shifted : ℕ → ℕ → ℕ → ℕ
shifted lo w v = v % 2 ^ w * 2 ^ lo

-- `(x & ~((2 ^ w - 1) << lo)) | ((v & (2 ^ w - 1)) << lo)`.
abbrev pub put_field : ℕ → ℕ → ℕ → ℕ → ℕ
put_field lo w v x = x - field lo w x * 2 ^ lo + shifted lo w v

-- Conversions to `uint16_t`, `uint32_t` and `uint64_t`, and subtraction at 32 and 64 bits.
abbrev pub u16 : ℕ → ℕ
u16 x = x % 2 ^ 16

abbrev pub u32 : ℕ → ℕ
u32 x = x % 2 ^ 32

abbrev pub u64 : ℕ → ℕ
u64 x = x % 2 ^ 64

abbrev pub sub32 : ℕ → ℕ → ℕ
sub32 a b = (a + 2 ^ 32 - b) % 2 ^ 32

abbrev pub sub64 : ℕ → ℕ → ℕ
sub64 a b = (a + 2 ^ 64 - b) % 2 ^ 64
