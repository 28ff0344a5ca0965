-- ===== src/TransferEvent.antt =====
-- processTransferEvent2 and DoStopCompletion of Interrupts.cpp: what a transfer event does to the ring
-- that it names and to the TDs on it. The counter DIAGCTR_SHORTSUCCESS is left out.
pub mod Found
pub mod Keeps
pub mod Refused
mod Tests
use os_x_generic_usb.Base.{
  ℕ, zero, suc, ◌+◌, ◌-◌, ◌*◌, ◌/◌, ◌%◌, ◌^◌, List, [], ◌∷◌, ◌++◌, Option, none, some, Bool, true,
  false, not, ◌&&◌, ◌||◌, ◌==◌, leb, ltb, get_or, set, map, u16, u32, sub32, field, has_bit,
  if◌then◌else◌, ℤ, pos, negsuc,
}
use os_x_generic_usb.Trb.{Trb, trb_error, trb_slot, trb_endpoint, get_trb_addr64, diff_trb_index}
use os_x_generic_usb.Ring.{Ring, count_ring_to_ed}
use os_x_generic_usb.Async.{Td, Endpoint, get_td_from_active_queue_with_index}
use os_x_generic_usb.Status.{IoReturn, Device, translate_xhci_status}
use os_x_generic_usb.Dequeue.{EpState, disabled, running, halted, stopped, error}
use os_x_generic_usb.Schedule.{Control, Context, Pipe, retire_tds}

-- What the event says.
pub record Words : Type 0 where
  pub addr : ℕ
  pub shortfall : ℕ
  pub err : ℕ
  pub slot : ℕ
  pub endpoint : ℕ
  pub event_data : Bool

unfoldable pub words_of : Trb → Words
words_of t = record {
  addr = get_trb_addr64 t;
  shortfall = field 0 24 t.c;
  err = trb_error t;
  slot = trb_slot t;
  endpoint = trb_endpoint t;
  event_data = has_bit 2 t.d;
}

-- What is fixed for an event: the erratum AbsoluteEDTLA, whether the device needs a reset, what
-- TranslateXHCIStatus reads, and the numbers of IOKit's results.
pub record Setting : Type 0 where
  pub absolute_edtla : Bool
  pub needs_reset : Bool
  pub device : Device
  pub code : IoReturn → ℕ

-- The dequeue index behind the TRB at `index`.
unfoldable pub index_behind : Ring → ℕ → ℕ
index_behind r index = let next = u16 (index + 1) in if leb (r.num_trbs - 1) next then 0 else next

-- The shortfall that an event with the bit ED reports is the number of bytes that were transferred.
unfoldable pub td_shortfall : Setting → Words → Td → ℕ → ℕ
td_shortfall g e t shortfall =
    let missing = sub32 t.bytes_this_td shortfall in
    if e.event_data
    then if g.absolute_edtla then u32 (missing + t.bytes_preceeding_this_td) else missing
    else shortfall

unfoldable pub note_shortfall : Setting → Words → Td → ℕ → Td
note_shortfall g e t shortfall = record t {
  shortfall = td_shortfall g e t shortfall;
  absolute_shortfall = if e.event_data && g.absolute_edtla then true else t.absolute_shortfall;
}

-- `TranslateXHCIStatus(err, slot, (endpoint & 1) != 0)`, or not responding if the device needs a reset.
unfoldable pub result_code : Setting → Words → ℕ
result_code g e =
    let rc =
      if e.err == 1
      then g.code IoReturn.success
      else g.code (translate_xhci_status g.device (pos e.err) e.slot (e.endpoint % 2 == 1)) in
    if g.needs_reset then g.code IoReturn.not_responding else rc

abbrev pub is_halted : EpState → Bool
is_halted disabled = false
is_halted running = false
is_halted halted = true
is_halted stopped = false
is_halted error = false

module _ {C : Type 0} (ctl : Control C) (x : Context) (g : Setting) where
  unfoldable pub update_dq : Pipe C → ℕ → Pipe C
  update_dq s index =
      let r = s.ring in record s { ring = record r { dequeue_index = index_behind r index } }

  -- GetTDFromActiveQueueWithIndex on the endpoint.
  unfoldable pub take_td : Pipe C → ℕ → Option (Td × Pipe C)
  take_td s index = elim (get_td_from_active_queue_with_index s.commands s.endpoint index) [
    | none ↦ none
    | some (t, (e, (cs, reports))) ↦
        some (t, record s { endpoint = e; commands = cs; completed = s.completed ++ reports })
  ]

  -- The end of processTransferEvent2, for a TD that was taken. If the ring's indices are equal, the
  -- event is ignored.
  unfoldable pub on_td : Words → Pipe C → Td → ℕ → ℕ → Option (Pipe C)
  on_td e s t index shortfall =
      let t' = note_shortfall g e t shortfall in
      let is_error = not (e.err == 1) in
      let call = if is_error then true else t.interrupt_this_td in
      let flush = is_error && not t.final_td_in_transaction in
      let retired = retire_tds ctl x (update_dq s index) t' (result_code g e) call flush in
      if s.ring.enqueue_index == s.ring.dequeue_index then some s else retired

  -- No TD ends at the index of the event: on a halted endpoint the ring is searched for its end.
  unfoldable pub on_no_td : ℕ → Words → Pipe C → ℕ → Option (Pipe C)
  on_no_td fuel e s index = elim (count_ring_to_ed fuel s.ring index e.shortfall) [
    | none ↦ none
    | some (end, shortfall) ↦
        let at_end : Option (Pipe C) = elim (take_td s end) [
          | none ↦ some (update_dq s end)
          | some (t, s') ↦ on_td e s' t end shortfall
        ] in
        if end == index then some (update_dq s index) else at_end
  ]

  -- An event for the TRB at the index of an asynchronous endpoint's ring. `none` means that the fuel ran
  -- out.
  unfoldable pub on_async : ℕ → Words → Pipe C → ℕ → Option (Pipe C)
  on_async fuel e s index = elim (take_td s index) [
    | some (t, s') ↦ on_td e s' t index e.shortfall
    | none ↦
        let searched = on_no_td fuel e s index in
        if is_halted (ctl.ep_state s.control) then searched else some (update_dq s index)
  ]
