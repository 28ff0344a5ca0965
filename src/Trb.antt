-- ===== src/Trb.antt =====
-- XHCITRB.h and the TRB accessors of Accessors.cpp and GenericUSBXHCI.h.
pub mod Laws
use os_x_generic_usb.Base.{
  ℕ, ◌+◌, ◌-◌, ◌*◌, ◌/◌, ◌%◌, ◌^◌, bit, field, flip_bit, put_bit, u32, sub64, ltb, Bool, true,
  false, if◌then◌else◌, ℤ, pos, negsuc,
}

-- `TRBStruct`: four 32-bit words.
pub record Trb : Type 0 where
  pub a : ℕ
  pub b : ℕ
  pub c : ℕ
  pub d : ℕ

abbrev pub zero_trb : Trb
zero_trb = record { a = 0; b = 0; c = 0; d = 0 }

-- `XHCI_TRB_3_TYPE_GET(d)` and `XHCI_TRB_2_ERROR_GET(c)`.
abbrev pub trb_type : Trb → ℕ
trb_type t = field 10 6 t.d

abbrev pub trb_error : Trb → ℕ
trb_error t = field 24 8 t.c

-- `XHCI_TRB_3_SLOT_GET(d)` and `XHCI_TRB_3_EP_GET(d)`.
abbrev pub trb_slot : Trb → ℕ
trb_slot t = field 24 8 t.d

abbrev pub trb_endpoint : Trb → ℕ
trb_endpoint t = field 16 5 t.d

-- `d & XHCI_TRB_3_CYCLE_BIT`.
abbrev pub cycle_bit : Trb → ℕ
cycle_bit t = bit 0 t.d

-- `d ^= XHCI_TRB_3_CYCLE_BIT`.
abbrev pub flip_cycle : Trb → Trb
flip_cycle t = record t { d = flip_bit 0 t.d }

-- The numbers of bits of `d` that the driver names.
abbrev pub chain_bit : ℕ
chain_bit = 4

abbrev pub type_link : ℕ
type_link = 6

abbrev pub type_normal : ℕ
type_normal = 1

abbrev pub type_event_data : ℕ
type_event_data = 7

unfoldable pub set_trb_addr64 : Trb → ℕ → Trb
set_trb_addr64 t addr = record t { a = u32 addr; b = u32 (addr / 2 ^ 32) }

-- The low four bits of `a` are flags.
unfoldable pub get_trb_addr64 : Trb → ℕ
get_trb_addr64 t = t.b * 2 ^ 32 + (t.a - t.a % 16)

unfoldable pub clear_trb : Trb → Bool → Trb
clear_trb t wipe_cycle_bit = record {
  a = 0;
  b = 0;
  c = 0;
  d = if wipe_cycle_bit then 0 else t.d % 2;
}

-- `static_cast<int64_t>(a - b) >> 4`: the difference is taken modulo 2 ^ 64, read as a signed
-- number, and divided by 16 towards minus infinity.
unfoldable pub diff_trb_index : ℕ → ℕ → ℤ
diff_trb_index a b =
    let w = sub64 a b in if ltb w (2 ^ 63) then pos (w / 16) else negsuc ((2 ^ 64 - 1 - w) / 16)
