-- ===== src/Dequeue.antt =====
-- SetTRDQPtr and ParkRing of Transfers.cpp: the command that tells the controller where it goes on in
-- a transfer ring.
pub mod Laws
mod Tests
use os_x_generic_usb.Base.{
  ℕ, zero, suc, ◌+◌, ◌*◌, ◌%◌, Option, none, some, Bool, true, false, not, ◌==◌, ◌&&◌, u16, u64,
  set_bit, put_bit, shifted, has_bit, if◌then◌else◌, ℤ, pos, negsuc, ltb,
}
use os_x_generic_usb.Trb.{Trb, zero_trb, set_trb_addr64}
use os_x_generic_usb.Ring.{Ring, trb_at}
use os_x_generic_usb.Command.Wait.{World, Hardware, wait_for_cmd}

pub data EpState : Type 0 where
  disabled running halted stopped error : EpState

-- `XHCI_TRB_TYPE_SET_TR_DEQUEUE`.
abbrev pub type_set_tr_dequeue : ℕ
type_set_tr_dequeue = 16

-- `XHCI_TRB_3_SLOT_SET(slot) | XHCI_TRB_3_EP_SET(endpoint)`.
abbrev pub slot_and_endpoint : ℕ → ℕ → ℕ
slot_and_endpoint slot endpoint = shifted 24 8 slot + shifted 16 5 endpoint

-- The dequeue cycle state that goes with the index.
unfoldable pub dequeue_cycle : Ring → ℕ → Bool
dequeue_cycle r index =
    if index == r.enqueue_index then not (r.cycle_state == 0) else has_bit 0 (trb_at r index).d

-- The bits that `localTrb.a` gets; the address in it is aligned to 16.
unfoldable pub with_flags : Bool → Bool → Trb → Trb
with_flags cycle primary t =
    let a = if cycle then set_bit 0 t.a else t.a in
    record t { a = if primary then set_bit 1 a else a }

unfoldable pub dequeue_command : Ring → ℕ → ℕ → ℕ → ℕ → Trb
dequeue_command r slot endpoint stream_id index =
    let addressed =
      set_trb_addr64 (record zero_trb { d = slot_and_endpoint slot endpoint })
        (u64 (r.phys_addr + index * 16)) in
    let t = with_flags (dequeue_cycle r index) (not (stream_id == 0)) addressed in
    record t { c = shifted 16 16 stream_id }

-- The states of the endpoint in which the dequeue pointer can be set.
unfoldable pub can_set : EpState → Bool → Ring → Bool
can_set stopped is_streams r = true
can_set error is_streams r = true
can_set running is_streams r = is_streams && r.dequeue_index == r.enqueue_index
can_set disabled is_streams r = false
can_set halted is_streams r = false

-- `ret != -1 && ret > -1000`.
unfoldable pub is_success : ℤ → Bool
is_success (pos n) = true
is_success (negsuc n) = not (n == 0) && ltb n 999

-- -1256 and -1000 - XHCI_TRB_ERROR_CONTEXT_STATE.
abbrev pub no_ring : ℤ
no_ring = negsuc 1255

abbrev pub wrong_state : ℤ
wrong_state = negsuc 1018

-- What a call leaves: the driver's state, the ring, and the value returned.
pub record Outcome : Type 0 where
  pub world : World
  pub ring : Ring
  pub ret : ℤ

unfoldable pub moved : Ring → ℕ → World × ℤ → Outcome
moved r index (w, ret) = record {
  world = w;
  ring = if is_success ret then record r { dequeue_index = u16 index } else r;
  ret = ret;
}

-- SetTRDQPtr on the ring that GetRing gives; `cell` is where WaitForCMD keeps its variable.
unfoldable pub set_on_ring : Hardware → EpState → Bool → World → ℕ → Ring → ℕ → ℕ → ℕ → ℕ → Outcome
set_on_ring hw state is_streams w cell r slot endpoint stream_id index =
    let t = dequeue_command r slot endpoint stream_id index in
    if can_set state is_streams r
    then moved r index (wait_for_cmd hw t type_set_tr_dequeue cell w)
    else record { world = w; ring = r; ret = wrong_state }

unfoldable pub set_trdq_ptr :
    Hardware → EpState → Bool → World → ℕ → Option Ring → ℕ → ℕ → ℕ → ℕ → Option Outcome × ℤ
set_trdq_ptr hw state is_streams w cell none slot endpoint stream_id index = (none, no_ring)
set_trdq_ptr hw state is_streams w cell (some r) slot endpoint stream_id index =
    let out = set_on_ring hw state is_streams w cell r slot endpoint stream_id index in
    (some out, out.ret)

-- ParkRing: the dequeue pointer goes to the spare space after the first entry of the event ring's
-- segment table at `erstba`, with the cycle state 1.
unfoldable pub park_command : ℕ → ℕ → ℕ → Trb
park_command erstba slot endpoint =
    let t =
      set_trb_addr64 (record zero_trb { d = slot_and_endpoint slot endpoint })
        (u64 (erstba + 16)) in
    with_flags true false t

unfoldable pub park_ring : Hardware → World → ℕ → ℕ → ℕ → ℕ → World
park_ring hw w cell erstba slot endpoint =
    (wait_for_cmd hw (park_command erstba slot endpoint) type_set_tr_dequeue cell w).0
