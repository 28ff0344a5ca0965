-- ===== src/Registers/Laws.antt =====
-- When a read makes the register space invalid, and that a 64-bit register reads what was written.
use os_x_generic_usb.Base.{ℕ, ◌/◌, ◌%◌, ◌^◌, ◌<◌, ◌≡◌, ◌≢◌, ◌⊎◌, true, false, arith}
use os_x_generic_usb.Registers.{
  Space, uint32_max, checked, read_32_reg, read_whole, read_halves, read_64_reg, write_64_reg,
}

-- A read of a 32-bit register makes the space invalid exactly where the controller is on Thunderbolt
-- and the register reads as all ones, if the space was valid.
pub read_32_reg_invalidates :
    (s : Space) (p : ℕ)
    → s.invalid ≡ false
    → ((read_32_reg s p).1.invalid ≡ true
        → (s.on_thunderbolt ≡ true) × (s.words (p / 4) ≡ uint32_max))
      × ((s.on_thunderbolt ≡ true) × (s.words (p / 4) ≡ uint32_max)
          → (read_32_reg s p).1.invalid ≡ true)
unfolding read_32_reg checked
read_32_reg_invalidates s p e = ground arith

-- On a controller with 64-bit addresses, Write64Reg of a 64-bit value and then Read64Reg give the value
-- back and leave the space valid, if the space is valid, and if neither half is all ones where the
-- controller is on Thunderbolt.
pub read_64_reg-write_64_reg :
    (s : Space) (p v : ℕ)
    → s.invalid ≡ false
    → s.ac64 ≡ true
    → v < 2 ^ 64
    → (s.on_thunderbolt ≡ false) ⊎ ((v % 2 ^ 32 ≢ uint32_max) × (v / 2 ^ 32 ≢ uint32_max))
    → ((read_64_reg (write_64_reg s p v) p).0 ≡ v)
      × ((read_64_reg (write_64_reg s p v) p).1.invalid ≡ false)
unfolding read_64_reg write_64_reg read_whole read_halves
read_64_reg-write_64_reg s p v e a lt plain = ground arith
