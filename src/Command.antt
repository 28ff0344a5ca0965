-- ===== src/Command.antt =====
-- Command.cpp: the command ring, from the enqueueing of a command to its completion.
-- Every command is enqueued with CompleteSlotCommand as its callback (WaitForCMD's callers pass
-- none of their own), so a callback entry is the address of the variable that it writes.
-- The ring is one page: `numTRBs` is 256, and the last TRB is the link TRB.
pub mod Inv
pub mod Queue
pub mod Wait
mod Tests
use Prim.Native.Nat.{bit_or}
use os_x_generic_usb.Base.{
  ℕ, zero, suc, ◌+◌, ◌-◌, ◌*◌, ◌/◌, ◌%◌, List, [], ◌∷◌, Option, none, some, Bool, true, false,
  get_or, set, replicate, u16, bit, flip_bit, clear_bit, put_bit, put_field, ltb, leb, ◌==◌, ◌&&◌,
  ◌||◌, not, if◌then◌else◌, ℤ, pos, negsuc, ltbℤ, eqbℤ,
}
use os_x_generic_usb.Trb.{
  Trb, zero_trb, trb_error, trb_slot, set_trb_addr64, get_trb_addr64, diff_trb_index,
}
use os_x_generic_usb.Ring.{link_toggle}

-- `_commandRing`, without the memory descriptor. An empty callback entry is `none`.
pub record CommandRing : Type 0 where
  pub trbs : List Trb
  pub phys_addr : ℕ
  pub enqueue_index : ℕ
  pub dequeue_index : ℕ
  pub num_trbs : ℕ
  pub cycle_state : ℕ
  pub stop_pending : Bool
  pub callbacks : List (Option ℕ)

abbrev pub trb_at : CommandRing → ℕ → Trb
trb_at r i = get_or r.trbs i zero_trb

abbrev pub callback_at : CommandRing → ℕ → Option ℕ
callback_at r i = get_or r.callbacks i none

-- `XHCI_TRB_TYPE_STOP_EP`, `XHCI_TRB_ERROR_SUCCESS` and `XHCI_TRB_ERROR_CMD_RING_STOP`.
abbrev pub type_stop_ep : ℕ
type_stop_ep = 15

abbrev pub error_success : ℕ
error_success = 1

abbrev pub error_cmd_ring_stop : ℕ
error_cmd_ring_stop = 24

-- The ring's memory in InitCMDRing: all clear, then the link TRB.
abbrev pub cleared_trbs : CommandRing → List Trb
cleared_trbs r =
    let link = r.num_trbs - 1 in
    let ts = replicate r.num_trbs zero_trb in
    let t = set_trb_addr64 (get_or ts link zero_trb) r.phys_addr in
    set ts link (record t { d = bit_or t.d link_toggle })

-- With the ring comes what is written to the register CRCr: the bus address, and the ring cycle
-- state.
unfoldable pub init_cmd_ring : CommandRing → CommandRing × ℕ
init_cmd_ring r =
    let s : CommandRing = record r {
      cycle_state = 1;
      enqueue_index = 0;
      dequeue_index = 0;
      stop_pending = false;
    } in
    let crcr = r.phys_addr - r.phys_addr % 64 + 1 in
    if r.num_trbs == 0
    then (s, crcr)
    else (record s { trbs = cleared_trbs r; callbacks = replicate r.num_trbs none }, crcr)

-- The index after the enqueue index, as EnqueCMD computes it.
unfoldable pub next_enqueue : CommandRing → ℕ
next_enqueue r = if ltb r.enqueue_index (r.num_trbs - 2) then r.enqueue_index + 1 else 0

-- `d` of the command's TRB: the type and the cycle bit are the ring's.
unfoldable pub command_fourth : ℕ → ℕ → ℕ → ℕ
command_fourth cycle_state trb_type d =
    put_bit 0 (not (cycle_state == 0)) (put_field 10 6 trb_type (clear_bit 0 d))

-- The TRB and its callback are written at the enqueue index.
unfoldable pub write_command : CommandRing → Trb → ℕ → ℕ → CommandRing
write_command r trb trb_type param =
    let fourth = command_fourth r.cycle_state trb_type trb.d in
    record r {
      trbs = set r.trbs r.enqueue_index (record { a = trb.a; b = trb.b; c = trb.c; d = fourth });
      callbacks = set r.callbacks r.enqueue_index (some param);
    }

-- On the way back to index 0 the link TRB gets the cycle bit, and the cycle state is inverted.
unfoldable pub toggle_link : CommandRing → CommandRing
toggle_link r =
    let link = r.num_trbs - 1 in
    let t = trb_at r link in
    record r {
      trbs = set r.trbs link (record t { d = put_bit 0 (not (r.cycle_state == 0)) t.d });
      cycle_state = flip_bit 0 r.cycle_state;
    }

-- The ring with the command in it, before the enqueue index moves to `next`.
unfoldable pub with_command : CommandRing → Trb → ℕ → ℕ → ℕ → CommandRing
with_command r trb trb_type param next =
    if next == 0
    then toggle_link (write_command r trb trb_type param)
    else write_command r trb trb_type param

-- `none` is `kIOReturnNoResources`, and then nothing is changed; otherwise doorbell 0 is rung last.
unfoldable pub enque_cmd : CommandRing → Trb → ℕ → ℕ → Option CommandRing
enque_cmd r trb trb_type param =
    let next = next_enqueue r in
    if next == r.dequeue_index
    then none
    else some (record (with_command r trb trb_type param next) { enqueue_index = u16 next })

-- What DoCMDCompletion returns, the ring it leaves, and the callback that it calls.
pub record Completion : Type 0 where
  pub handled : Bool
  pub ring : CommandRing
  pub call : Option ℕ

abbrev pub unhandled : CommandRing → Completion
unhandled r = record { handled = false; ring = r; call = none }

-- The completion of the command at index `idx`.
unfoldable pub complete_at : CommandRing → Trb → ℕ → Completion
complete_at r trb idx =
    let next = u16 (u16 idx + 1) in
    let new_index = if leb (r.num_trbs - 1) next then 0 else next in
    if trb_error trb == error_cmd_ring_stop
    then record {
      handled = true;
      ring = record r { dequeue_index = u16 idx; stop_pending = false };
      call = none;
    }
    else record {
      handled = true;
      ring = record r { callbacks = set r.callbacks idx none; dequeue_index = new_index };
      call = callback_at r idx;
    }

-- The index that the event's address stands for, if it is one before the link TRB.
unfoldable pub complete_if_inside : CommandRing → Trb → ℤ → Completion
complete_if_inside r trb (pos idx) =
    if ltb idx (r.num_trbs - 1) then complete_at r trb idx else unhandled r
complete_if_inside r trb (negsuc n) = unhandled r

unfoldable pub do_cmd_completion : CommandRing → Trb → Completion
do_cmd_completion r trb =
    let addr = get_trb_addr64 trb in
    if addr == 0 then unhandled r else complete_if_inside r trb (diff_trb_index addr r.phys_addr)

-- What CompleteSlotCommand writes: the slot, or -1000 - error.
unfoldable pub complete_slot_command : Trb → ℤ
complete_slot_command trb =
    if trb_error trb == error_success then pos (trb_slot trb) else negsuc (999 + trb_error trb)
