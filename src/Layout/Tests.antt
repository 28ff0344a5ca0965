-- ===== src/Layout/Tests.antt =====
-- Small runs of _createTransfer, on a ring of eight TRBs.
use os_x_generic_usb.Base.{
  ℕ, ◌+◌, ◌-◌, ◌%◌, ◌≡◌, refl, Option, none, some, true, false, replicate, field,
}
use os_x_generic_usb.Trb.{zero_trb, set_trb_addr64}
use os_x_generic_usb.Ring.{Ring, trb_at}
use os_x_generic_usb.Ring.Fragment.{
  get_next_trb, continue_fragment, step_forward, take_trb, close_fragment,
}
use os_x_generic_usb.Retry.{Segment, generate_next_physical_segment, segment_bytes}
use os_x_generic_usb.Layout.{
  TransferPlan, start_layout, mbp, fill, ends_fragment, end_fragment, place_trb, fill_and_place,
  round, layout_loop, third_word, is_noop_or_status, residue_estimate,
}
use os_x_generic_usb.Layout.Finish.{
  place_event, finish_long, finish, close_last, TransferResult, created, refused, conclude,
  after_loop, create_transfer,
}

abbrev empty_ring : Ring
empty_ring = record {
  trbs = replicate 8 zero_trb;
  phys_addr = 8192;
  num_trbs = 8;
  num_pages = 1;
  cycle_state = 1;
  enqueue_index = 1;
  dequeue_index = 1;
  last_seen_dequeue_index = 0;
  last_seen_frame = 0;
  next_isoc_frame = 0;
}

-- A buffer in two segments of 4096 bytes at 65536.
abbrev two_pages : ℕ → Option Segment
two_pages offset =
    some (record { num_segments = 1; addr = 65536 + offset; length = 4096 - offset % 4096 })

-- 5000 bytes of a bulk transfer, in packets of 512 bytes.
abbrev bulk : TransferPlan
bulk = record {
  is_isoch = false;
  bytes = 5000;
  mystery = 0;
  offset = 0;
  interrupt_needed = true;
  multi_td_transaction = false;
  final_td_in_transaction = true;
  bytes_following = 0;
  bytes_preceeding = 0;
  immediate = none;
  max_packet_size = 512;
  max_burst = 0;
  multiple = 0;
  endpoint = 3;
  ring_found = true;
}

-- The number of TRBs, the last index, and the address and the bytes of the TRBs at 1 and 2.
abbrev words_at : Ring → ℕ → ℕ × ℕ
words_at r i = ((trb_at r i).a, field 0 17 (trb_at r i).c)

abbrev summary : Option TransferResult → Option (ℕ × ℕ × (ℕ × ℕ) × (ℕ × ℕ))
summary none = none
summary (some (created w)) = some (w.count, w.last_index, words_at w.ring 1, words_at w.ring 2)
summary (some (refused e r)) = none

bulk-summary :
    summary (create_transfer 3 9 two_pages bulk empty_ring)
    ≡ some (3, 3, (65536, 4096), (69632, 904))
unfolding create_transfer layout_loop round start_layout get_next_trb continue_fragment step_forward
    take_trb fill_and_place fill generate_next_physical_segment segment_bytes place_trb end_fragment
    ends_fragment mbp close_fragment after_loop conclude finish finish_long place_event close_last
    set_trb_addr64 third_word is_noop_or_status residue_estimate
bulk-summary = refl
