-- ===== src/Registers/Tests.antt =====
-- Small runs of the register accessors.
use os_x_generic_usb.Base.{◌≡◌, inr, refl, true, false, arith}
use os_x_generic_usb.Registers.{Space, read_64_reg, write_64_reg}
use os_x_generic_usb.Registers.Laws.{read_64_reg-write_64_reg}

abbrev plugged : Space
plugged = record {
  invalid = false;
  on_thunderbolt = true;
  ac64 = true;
  is_fresco = true;
  words = λ q. 7;
}

read_64_reg-write_64_reg_example :
    ((read_64_reg (write_64_reg plugged 8 4294967299) 8).0 ≡ 4294967299)
    × ((read_64_reg (write_64_reg plugged 8 4294967299) 8).1.invalid ≡ false)
read_64_reg-write_64_reg_example =
    read_64_reg-write_64_reg plugged 8 4294967299 refl refl (omega arith)
      (inr (omega arith, omega arith))
