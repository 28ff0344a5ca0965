-- ===== src/Layout/Finish.antt =====
-- The end of _createTransfer, behind its loop: a TD of one TRB gets its flags, a longer one an
-- event-data TRB, and the last fragment is closed.
use os_x_generic_usb.Base.{
  ℕ, ◌+◌, ◌-◌, ◌*◌, ◌%◌, Option, none, some, not, ◌&&◌, ◌||◌, ◌==◌, set, field, shifted, set_bit,
  clear_bit, if◌then◌else◌,
}
use os_x_generic_usb.Trb.{Trb, cycle_bit, chain_bit, type_event_data, set_trb_addr64}
use os_x_generic_usb.Ring.{Ring, trb_at, link_index}
use os_x_generic_usb.Ring.Fragment.{Next, get_next_trb, close_fragment, put_back_trb}
use os_x_generic_usb.Retry.{Segment}
use os_x_generic_usb.Layout.{
  TransferPlan, Work, RoundResult, placed, failed, Error, bad_argument, no_trb, start_layout,
  layout_loop,
}

-- `XHCI_TRB_3_ISP_BIT`, `IOC_BIT` and `BEI_BIT` by their numbers.
abbrev pub isp_bit : ℕ
isp_bit = 2

abbrev pub ioc_bit : ℕ
ioc_bit = 5

abbrev pub bei_bit : ℕ
bei_bit = 9

-- The flags of the only TRB of a TD, by its type: `XHCI_TRB_TYPE_NORMAL`, `DATA_STAGE` or `ISOCH`.
unfoldable pub single_flags : TransferPlan → ℕ → ℕ
single_flags p fourth =
    let asked = set_bit ioc_bit fourth in
    let kind = field 10 6 fourth in
    if p.interrupt_needed
    then if kind == 1 || kind == 3 || kind == 5 then set_bit isp_bit asked else asked
    else if p.endpoint % 2 == 1
    then if kind == 1 || kind == 5
      then set_bit isp_bit (set_bit bei_bit fourth)
      else if kind == 3
      then set_bit isp_bit fourth
      else fourth
    else fourth

-- A TD of one TRB. If that is the last before the link TRB, the link TRB does not chain.
unfoldable pub finish_single : TransferPlan → Work → Work
finish_single p w =
    let link = trb_at w.ring (link_index w.ring) in
    let unchained =
      set w.ring.trbs (link_index w.ring) (record link { d = clear_bit chain_bit link.d }) in
    if p.ring_found
    then record w {
      fourth = clear_bit chain_bit (clear_bit 1 (single_flags p w.fourth));
      ring =
          if w.last_index == w.ring.num_trbs - 2
          then record w.ring { trbs = unchained }
          else w.ring;
    }
    else w

-- The last word of the event-data TRB.
unfoldable pub event_fourth : TransferPlan → Trb → ℕ
event_fourth p t =
    let typed = shifted 10 6 type_event_data + (1 - cycle_bit t) in
    let chained =
      if p.multi_td_transaction && not p.final_td_in_transaction
      then set_bit chain_bit typed
      else typed in
    if p.interrupt_needed
    then set_bit ioc_bit chained
    else if p.endpoint % 2 == 1
    then set_bit ioc_bit (set_bit bei_bit chained)
    else chained

-- The event-data TRB at the place that GetNextTRB gave; its address is its own.
unfoldable pub place_event : TransferPlan → Work → Next → Work
place_event p w n =
    let t = trb_at n.ring n.index in
    let addressed = set_trb_addr64 t (n.ring.phys_addr + n.index * 16) in
    record w {
      ring = record n.ring {
        trbs = set n.ring.trbs n.index (record addressed { c = 0; d = event_fourth p t });
      };
      first = n.first;
      count = w.count + 1;
      count_in_fragment = w.count_in_fragment + 1;
      last_index = n.index;
    }

unfoldable pub finish_long : TransferPlan → Work → RoundResult
finish_long p w =
    elim (get_next_trb w.ring (p.final_td_in_transaction || not p.multi_td_transaction) w.first
      (w.is_first_fragment && p.bytes_preceeding == 0)) [
        | none ↦ failed no_trb w.ring w.first
        | some n ↦ placed (place_event p w n)
      ]

unfoldable pub finish : TransferPlan → Work → RoundResult
finish p w = if w.count == 1 then placed (finish_single p w) else finish_long p w

unfoldable pub close_last : Work → Work
close_last w =
    if w.count_in_fragment == 0
    then w
    else record w { ring = close_fragment w.ring w.first w.fourth }

-- What _createTransfer returns: an error with the ring, or `kIOReturnSuccess` with the final state, of
-- which `first`, `count` and `last_index` are the values stored through the pointers.
pub data TransferResult : Type 0 where
  created : Work → TransferResult
  refused : Error → Ring → TransferResult

-- An error, with fuel for PutBackTRB.
unfoldable pub undo : ℕ → Error → Ring → Option ℕ → Option TransferResult
undo fuel e r first = elim (put_back_trb fuel r first) [
  | none ↦ none
  | some r' ↦ some (refused e r')
]

unfoldable pub conclude : ℕ → RoundResult → Option TransferResult
conclude fuel (placed w) = some (created (close_last w))
conclude fuel (failed e r first) = undo fuel e r first

unfoldable pub after_loop : ℕ → TransferPlan → RoundResult → Option TransferResult
after_loop fuel p (placed w) = conclude fuel (finish p w)
after_loop fuel p (failed e r first) = undo fuel e r first

-- _createTransfer; `fuel` is for its loop, `back` for that of PutBackTRB.
unfoldable pub create_transfer :
    ℕ → ℕ → (ℕ → Option Segment) → TransferPlan → Ring → Option TransferResult
create_transfer fuel back dma p r =
    if p.max_packet_size == 0
    then some (refused bad_argument r)
    else elim (layout_loop fuel dma p (start_layout p r)) [
      | none ↦ none
      | some result ↦ after_loop back p result
    ]
