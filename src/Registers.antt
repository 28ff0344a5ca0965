-- ===== src/Registers.antt =====
-- The register accessors of Accessors.cpp. A controller on Thunderbolt that is unplugged reads as all
-- ones; from then on `m_invalid_regspace` keeps the driver off the registers. The registers are 32-bit
-- words that hold what was written, by a quarter of their address, and the build is a 64-bit one.
pub mod Laws
mod Tests
use os_x_generic_usb.Base.{
  ℕ, ◌+◌, ◌-◌, ◌*◌, ◌/◌, ◌%◌, ◌^◌, Bool, true, false, not, ◌&&◌, ◌||◌, ◌==◌, u32, field,
  if◌then◌else◌,
}

pub record Space : Type 0 where
  pub invalid : Bool
  pub on_thunderbolt : Bool
  -- `XHCI_HCC_AC64(_HCCLow)`
  pub ac64 : Bool
  pub is_fresco : Bool
  pub words : ℕ → ℕ

abbrev pub uint8_max : ℕ
uint8_max = 2 ^ 8 - 1

abbrev pub uint16_max : ℕ
uint16_max = 2 ^ 16 - 1

abbrev pub uint32_max : ℕ
uint32_max = 2 ^ 32 - 1

abbrev pub uint64_max : ℕ
uint64_max = 2 ^ 64 - 1

abbrev pub scrap : Space → Space
scrap s = record s { invalid = true }

-- What Read8Reg, Read16Reg and Read32Reg make of the value `v`, if `ones` is the largest one.
unfoldable pub checked : Space → ℕ → ℕ → ℕ × Space
checked s ones v =
    if s.invalid
    then (ones, s)
    else if not (v == ones)
    then (v, s)
    else (ones, if s.on_thunderbolt then scrap s else s)

unfoldable pub read_8_reg : Space → ℕ → ℕ × Space
read_8_reg s p = checked s uint8_max (field (8 * (p % 4)) 8 (s.words (p / 4)))

unfoldable pub read_16_reg : Space → ℕ → ℕ × Space
read_16_reg s p = checked s uint16_max (field (8 * (p % 4)) 16 (s.words (p / 4)))

unfoldable pub read_32_reg : Space → ℕ → ℕ × Space
read_32_reg s p = checked s uint32_max (s.words (p / 4))

-- The read of one 64-bit value.
unfoldable pub read_whole : Space → ℕ → ℕ × Space
read_whole s p =
    let v = s.words (p / 4 + 1) * 2 ^ 32 + s.words (p / 4) in
    if v == uint64_max && s.on_thunderbolt then (uint64_max, scrap s) else (v, s)

-- The read of two 32-bit halves.
unfoldable pub read_halves : Space → ℕ → ℕ × Space
read_halves s p =
    let low = s.words (p / 4) in
    let high = s.words (p / 4 + 1) in
    if low == uint32_max && s.on_thunderbolt
    then (uint64_max, scrap s)
    else if high == uint32_max && s.on_thunderbolt
    then (uint64_max, scrap s)
    else (high * 2 ^ 32 + low, s)

-- The read of the low half only.
unfoldable pub read_low : Space → ℕ → ℕ × Space
read_low s p =
    let low = s.words (p / 4) in
    if low == uint32_max && s.on_thunderbolt then (uint64_max, scrap s) else (low, s)

unfoldable pub read_64_reg : Space → ℕ → ℕ × Space
read_64_reg s p =
    if s.invalid
    then (uint64_max, s)
    else if s.ac64
    then (if s.is_fresco then read_halves s p else read_whole s p)
    else read_low s p

-- `*p = v` for a 32-bit register.
abbrev pub put_word : ℕ → ℕ → Space → Space
put_word p v s = record s { words = λ q. if q == p / 4 then v else s.words q }

unfoldable pub write_32_reg : Space → ℕ → ℕ → Space
write_32_reg s p v = if s.invalid then s else put_word p v s

-- The one 64-bit store and the two 32-bit stores leave the same words.
unfoldable pub write_64_reg : Space → ℕ → ℕ → Space
write_64_reg s p v =
    if s.invalid
    then s
    else if s.ac64
    then put_word (p + 4) (u32 (v / 2 ^ 32)) (put_word p (u32 v) s)
    else put_word (p + 4) 0 (put_word p (u32 v) s)
