-- ===== src/Ring.antt =====
-- Rings.cpp: the transfer ring (`ringStruct` of Private.h) and the walks over it.
-- `ptr` is the list `trbs`. A ring with memory has at least two TRBs, the last of them the link TRB
-- (AllocRing, AllocStreamsContextArray), so `numTRBs - 1` does not go below 0.
pub mod Fragment
pub mod Walk
pub mod Alloc
mod Tests
use Prim.Native.Nat.{bit_or}
use os_x_generic_usb.Base.{
  ℕ, zero, suc, ◌+◌, ◌-◌, ◌*◌, ◌/◌, ◌%◌, ◌^◌, ◌<◌, ◌≤◌, ◌≡◌, List, Option, none, some, Bool, true,
  false, length, get_or, set, replicate, u16, u32, field, has_bit, ltb, leb, ◌==◌, ◌&&◌, ◌||◌, not,
  if◌then◌else◌,
}
use os_x_generic_usb.Trb.{
  Trb, zero_trb, trb_type, chain_bit, type_link, type_normal, type_event_data, set_trb_addr64,
}

-- The part of `ringStruct` that the ring operations work on.
pub record Ring : Type 0 where
  pub trbs : List Trb
  pub phys_addr : ℕ
  pub num_trbs : ℕ
  pub num_pages : ℕ
  pub cycle_state : ℕ
  pub enqueue_index : ℕ
  pub dequeue_index : ℕ
  pub last_seen_dequeue_index : ℕ
  pub last_seen_frame : ℕ
  pub next_isoc_frame : ℕ

-- `ptr[i]`.
abbrev pub trb_at : Ring → ℕ → Trb
trb_at r i = get_or r.trbs i zero_trb

-- `numTRBs - 1`, the index of the link TRB.
abbrev pub link_index : Ring → ℕ
link_index r = r.num_trbs - 1

-- `XHCI_TRB_3_TYPE_SET(XHCI_TRB_TYPE_LINK) | XHCI_TRB_3_TC_BIT`.
abbrev pub link_toggle : ℕ
link_toggle = 0x1802

unfoldable pub init_prealloced_ring : Ring → Ring
init_prealloced_ring r =
    let t = set_trb_addr64 (trb_at r (link_index r)) r.phys_addr in
    record r {
      enqueue_index = 0;
      dequeue_index = 0;
      last_seen_dequeue_index = 0;
      last_seen_frame = 0;
      next_isoc_frame = 0;
      trbs = set r.trbs (link_index r) (record t { d = bit_or t.d link_toggle });
    }

-- `PAGE_SIZE` and `PAGE_SIZE / sizeof(TRBStruct)`.
abbrev pub page_size : ℕ
page_size = 4096

abbrev pub trbs_per_page : ℕ
trbs_per_page = 256

-- MakeBuffer of Leaf_Methods.cpp. `kernel n` is what IOKit answers to the request for `n` bytes of
-- prepared memory: its bus address, or `none` if there is none. The memory is zeroed.
unfoldable pub make_buffer : (ℕ → Option ℕ) → ℕ → Option (List Trb × ℕ)
make_buffer kernel bytes = elim (kernel bytes) [
  | none ↦ none
  | some addr ↦ if addr == 0 then none else some (replicate (bytes / 16) zero_trb, addr)
]

-- The ring of `num_pages` pages, or `none` for `kIOReturnNoMemory`.
unfoldable pub alloc_ring : (ℕ → Option ℕ) → Ring → ℕ → Option Ring
alloc_ring kernel r num_pages = elim (make_buffer kernel (num_pages * page_size)) [
  | none ↦ none
  | some (memory, addr) ↦ some (
      init_prealloced_ring (record r {
        trbs = memory;
        phys_addr = addr;
        num_trbs = u16 (num_pages * trbs_per_page);
        num_pages = u16 num_pages;
        cycle_state = 1;
      }))
]

-- The index after `index` in the loop of CountRingToED (`next`).
unfoldable pub count_after : Ring → ℕ → ℕ
count_after r index =
    if trb_type (trb_at r index) == type_link || leb (link_index r) (index + 1)
    then 0
    else index + 1

-- One round of the loop: where it goes from `index`, or `none` if it stops.
unfoldable pub count_next : Ring → ℕ → Option ℕ
count_next r index =
    let t = trb_at r index in
    if not (trb_type t == type_event_data) && has_bit chain_bit t.d
    then (if count_after r index == r.enqueue_index then none else some (count_after r index))
    else none

-- `XHCI_TRB_2_BYTES_GET(c)`, added for a normal TRB.
unfoldable pub add_bytes : Trb → ℕ → ℕ
add_bytes t shortfall =
    if trb_type t == type_normal then u32 (shortfall + field 0 17 t.c) else shortfall

-- The loop, with fuel: the index and the shortfall at its end, `none` if the fuel ran out.
unfoldable pub count_loop : ℕ → Ring → ℕ → ℕ → Option (ℕ × ℕ)
count_loop zero r index shortfall = none
count_loop (suc fuel) r index shortfall = elim (count_next r index) [
  | none ↦ some (index, shortfall)
  | some next ↦ count_loop fuel r next (add_bytes (trb_at r next) shortfall)
]

unfoldable pub count_ring_to_ed : ℕ → Ring → ℕ → ℕ → Option (ℕ × ℕ)
count_ring_to_ed fuel r index shortfall =
    if index == r.enqueue_index then some (index, shortfall) else count_loop fuel r index shortfall

unfoldable pub next_transfer_dq : Ring → ℕ → ℕ
next_transfer_dq r index =
    let next = index + 1 in
    if leb (link_index r) next
      || (not (next == r.enqueue_index) && trb_type (trb_at r next) == type_link)
    then 0
    else u16 next
