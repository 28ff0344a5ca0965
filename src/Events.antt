-- ===== src/Events.antt =====
-- Interrupts.cpp: the event rings. The controller writes events to a ring in memory, the interrupt
-- filter (FilterEventRing) takes them from there, handles some, and puts the others into the bounce
-- queue, from which the work loop (PollEventRing2, PollForCMDCompletions) takes them.
pub mod Setup
pub mod Filter
pub mod Poll
pub mod Queue
mod Tests
use Prim.Native.Nat.{bit_or}
use os_x_generic_usb.Base.{
  ℕ, zero, suc, ◌+◌, ◌*◌, ◌/◌, ◌%◌, ◌^◌, List, [], ◌∷◌, Option, none, some, Bool, true, false,
  get_or, set, replicate, u16, u32, u64, bit, flip_bit, set_bit, has_bit, ltb, leb, ◌==◌, ◌&&◌,
  ◌||◌, not, if◌then◌else◌,
}
use os_x_generic_usb.Trb.{Trb, zero_trb, trb_type, trb_error, clear_trb}

-- `EventRingStruct`. `erst` is what `erstPtr` points to, as the TRBs that the controller writes. The
-- `int32_t` numBounceQueueOverflows is kept as its 32 bits.
pub record EventRing : Type 0 where
  pub xhc_dequeue_index : ℕ
  pub bounce_dequeue_index : ℕ
  pub bounce_enqueue_index : ℕ
  pub cycle_state : ℕ
  pub erdp_needs_update : Bool
  pub num_xhc_entries : ℕ
  pub num_bounce_entries : ℕ
  pub num_bounce_queue_overflows : ℕ
  pub erst : List Trb
  pub bounce_queue : List Trb
  pub erdp : ℕ
  pub erstba : ℕ

-- The cases of the switches on the type of an event TRB.
pub data Event : Type 0 where
  command_event transfer_event mfindex_wrap port_change other_event : Event

unfoldable pub event_of : Bool → Trb → Event
event_of renesas t =
    let k = trb_type t in
    if k == 48
    then if renesas then command_event else other_event
    else if k == 33
    then command_event
    else if k == 32
    then transfer_event
    else if k == 39
    then mfindex_wrap
    else if k == 34
    then port_change
    else other_event

-- The entry at the dequeue index of the controller's ring.
abbrev pub next_event : EventRing → Trb
next_event e = get_or e.erst e.xhc_dequeue_index zero_trb

-- `(cycleState ^ dwEvrsReserved) & XHCI_TRB_3_CYCLE_BIT`: the controller has not written the entry yet.
unfoldable pub is_stale : EventRing → Bool
is_stale e = not (bit 0 e.cycle_state == bit 0 (next_event e).d)

-- The dequeue index moves on, and the cycle state is inverted on the way back to index 0.
unfoldable pub advance : EventRing → EventRing
advance e =
    let index = u16 (e.xhc_dequeue_index + 1) in
    let wraps = leb e.num_xhc_entries index in
    record e {
      xhc_dequeue_index = if wraps then 0 else index;
      cycle_state = if wraps then flip_bit 0 e.cycle_state else e.cycle_state;
      erdp_needs_update = true;
    }

-- The index after `i` in the bounce queue.
unfoldable pub bounce_after : EventRing → ℕ → ℕ
bounce_after e i = let next = u16 (i + 1) in if leb e.num_bounce_entries next then 0 else next

-- The end of FilterEventRing: the event goes to the bounce queue, unless that is full. It returns
-- whether it went there.
unfoldable pub bounce : EventRing → Trb → EventRing × Bool
bounce e t =
    let next = bounce_after e e.bounce_enqueue_index in
    if next == e.bounce_dequeue_index
    then (record e { num_bounce_queue_overflows = u32 (e.num_bounce_queue_overflows + 1) }, false)
    else (
      record e {
        bounce_queue = set e.bounce_queue e.bounce_enqueue_index t;
        bounce_enqueue_index = next;
      },
      true,
    )

-- The event at the front is read, its entry cleared, and the dequeue index moves on.
unfoldable pub take_bounced : EventRing → Trb × EventRing
take_bounced e =
    let i = e.bounce_dequeue_index in
    let t = get_or e.bounce_queue i zero_trb in
    (
      t,
      record e {
        bounce_queue = set e.bounce_queue i (clear_trb t false);
        bounce_dequeue_index = bounce_after e i;
      },
    )

-- What the event code calls, on the state `C` of the driver's other parts: DoCMDCompletion and
-- processTransferEvent, processTransferEvent2 and DoStopCompletion with what they return, and the loop
-- of PollEventRing2 over `_isochEPList`.
pub record Handlers (C : Type 0) : Type 0 where
  pub do_cmd_completion : C → Trb → C × Bool
  pub process_transfer_event : C → Trb → C × Bool
  pub process_transfer_event2 : C → Trb → C × Bool
  pub do_stop_completion : C → Trb → C × Bool
  pub retire_isoc : C → C

-- The driver's state as the event code sees it. `millseconds_0` to `_3` are `_millsecondsTimers`.
pub record Host (C : Type 0) : Type 0 where
  pub driver : C
  pub renesas : Bool
  pub rh_port_changes : ℕ
  pub millsecond_counter : ℕ
  pub millseconds_0 : ℕ
  pub millseconds_1 : ℕ
  pub millseconds_2 : ℕ
  pub millseconds_3 : ℕ
  pub bounce_overflows : ℕ
  pub cmd_errors : ℕ
  pub xfer_errors : ℕ
  pub isoc_problems : ℕ
  pub hse_detected : Bool
