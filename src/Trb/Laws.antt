-- ===== src/Trb/Laws.antt =====
-- Addresses in TRBs: what is stored is read back, and an index is recovered from an address.
use os_x_generic_usb.Base.{ℕ, ◌+◌, ◌*◌, ◌^◌, ◌<◌, ◌%◌, ◌≡◌, ◌-◌, ◌/◌, ◌≤◌, arith, pos, negsuc}
use os_x_generic_usb.Trb.{Trb, set_trb_addr64, get_trb_addr64, diff_trb_index}

pub get-set_trb_addr64 :
    (t : Trb) (addr : ℕ)
    → addr < 2 ^ 64
    → addr % 16 ≡ 0
    → get_trb_addr64 (set_trb_addr64 t addr) ≡ addr
unfolding set_trb_addr64 get_trb_addr64
get-set_trb_addr64 t addr lt al = omega arith

pub diff_trb_index_above :
    (base i : ℕ) → base + 16 * i < 2 ^ 64 → i < 2 ^ 59 → diff_trb_index (base + 16 * i) base ≡ pos i
unfolding diff_trb_index
diff_trb_index_above base i lt small = ground arith

pub diff_trb_index_from :
    (addr base : ℕ)
    → base ≤ addr
    → addr < 2 ^ 63
    → diff_trb_index addr base ≡ pos ((addr - base) / 16)
unfolding diff_trb_index
diff_trb_index_from addr base le lt = ground arith

pub diff_trb_index_below :
    (addr base : ℕ) → addr < base → base < 2 ^ 63 → (n : ℕ) × (diff_trb_index addr base ≡ negsuc n)
unfolding diff_trb_index
diff_trb_index_below addr base lt small = ((base - addr - 1) / 16, ground arith)
