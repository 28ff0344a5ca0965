-- ===== src/TransferEvent/Tests.antt =====
-- Small runs of processTransferEvent2, on a ring of eight TRBs.
use os_x_generic_usb.Base.{
  ℕ, zero, suc, ◌+◌, ◌-◌, ◌%◌, ◌*◌, ◌≡◌, ◌⊎◌, refl, [], ◌∷◌, some, none, true, false, arith,
  replicate,
}
use os_x_generic_usb.Trb.{Trb, zero_trb}
use os_x_generic_usb.Ring.{Ring}
use os_x_generic_usb.Ring.Fragment.Inv.{IsValid}
use os_x_generic_usb.Ring.Walk.{NoLinkBelow}
use os_x_generic_usb.Layout.Covers.{IsMapped}
use os_x_generic_usb.Dequeue.{running}
use os_x_generic_usb.Async.{blank_td}
use os_x_generic_usb.Async.Abort.{num_tds}
use os_x_generic_usb.Schedule.{Control, Context, Pipe}
use os_x_generic_usb.Schedule.Retire.{IsLawful}
use os_x_generic_usb.TransferEvent.{Words, words_of, Setting, on_async}
use os_x_generic_usb.TransferEvent.Keeps.{on_async_keeps}
use os_x_generic_usb.TransferEvent.Found.{
  Bus, site_at, nth, is_known, on_plain, process_transfer_event2,
}
use os_x_generic_usb.TransferEvent.Refused.{process_transfer_event2_refused}

-- Two TRBs are in use.
abbrev ring_of_eight : Ring
ring_of_eight = record {
  trbs = replicate 8 zero_trb;
  phys_addr = 8192;
  num_trbs = 8;
  num_pages = 1;
  cycle_state = 1;
  enqueue_index = 3;
  dequeue_index = 1;
  last_seen_dequeue_index = 0;
  last_seen_frame = 0;
  next_isoc_frame = 0;
}

ring_of_eight-IsValid : IsValid ring_of_eight
ring_of_eight-IsValid = record {
  size = refl;
  room = omega arith;
  enqueue_in = omega arith;
  dequeue_in = omega arith;
  cycle_in = omega arith;
}

ring_of_eight-NoLinkBelow : NoLinkBelow ring_of_eight
ring_of_eight-NoLinkBelow zero lt = omega arith
ring_of_eight-NoLinkBelow (suc zero) lt = omega arith
ring_of_eight-NoLinkBelow (suc (suc zero)) lt = omega arith
ring_of_eight-NoLinkBelow (suc (suc (suc j))) lt = absurd (omega arith)

abbrev doorbells : Control ℕ
doorbells = record {
  start_endpoint = λ c stream. c + 1;
  quiesce_endpoint = λ c. c;
  set_trdq_ptr = λ c r stream index. (c, record r { dequeue_index = index });
  restart_streams = λ c stream. c;
  ep_state = λ c. running;
}

doorbells-IsLawful : IsLawful doorbells
doorbells-IsLawful = record { set_trdq_ptr_keeps = λ c r stream index v lt. ground (arith, v) }

abbrev paged : Context
paged = record {
  max_packet_size = 512;
  max_burst = 0;
  multiple = 0;
  endpoint = 3;
  ring_found = true;
  dma = λ command offset.
      some (record { num_segments = 1; addr = 65536 + offset; length = 4096 - offset % 4096 });
}

paged-IsMapped : (command : ℕ) → IsMapped (paged.dma command)
paged-IsMapped command offset seg e = ground arith

abbrev setting : Setting
setting = record {
  absolute_edtla = false;
  needs_reset = false;
  device = record { num_slots = 4; behind_tt = λ s. false; is_intel = true };
  code = λ r. 0;
}

-- A TD of 100 bytes is on the ring, its last TRB at 2.
abbrev one_scheduled : Pipe ℕ
one_scheduled = record {
  ring = ring_of_eight;
  endpoint = record {
    queued = [];
    scheduled =
        record blank_td {
          command = 7;
          bytes_this_td = 100;
          first_trb_index = 1;
          last_trb_index = 2;
          interrupt_this_td = true;
          final_td_in_transaction = true;
        }
        ∷ [];
    done = [];
    num_free = 3;
    aborting = false;
    max_packet_size = 512;
    max_burst = 0;
    multiple = 0;
    max_td_bytes = 4096;
  };
  control = 0;
  commands = record { scratch = λ c. 0; has_action = λ c. true };
  completed = [];
  return_in_progress = false;
  needs_doorbell = false;
  layout_errors = 0;
}

-- Success for the TRB at 2, with 20 bytes missing.
abbrev short : Words
short = record { addr = 8224; shortfall = 20; err = 1; slot = 1; endpoint = 3; event_data = false }

on_async_keeps_example :
    (s' : Pipe ℕ) × (on_async doorbells paged setting 17 short one_scheduled 2 ≡ some s')
    × ((num_tds s'.endpoint ≡ 4)
        ⊎ ((num_tds s'.endpoint + 1 ≡ 4)
            × (one_scheduled.ring.enqueue_index ≡ one_scheduled.ring.dequeue_index)))
on_async_keeps_example =
    on_async_keeps doorbells paged setting doorbells-IsLawful (λ e. omega arith) paged-IsMapped 17
      short one_scheduled ring_of_eight-IsValid refl ring_of_eight-NoLinkBelow (omega arith) 2
      (omega arith)

-- One active slot, with one ring at endpoint 3.
abbrev one_endpoint : Bus ℕ
one_endpoint = record {
  num_slots = 4;
  is_active = λ s. true;
  has_streams = λ s e. false;
  last_stream = λ s e. 0;
  sites = λ s e.
      record {
        pipe = one_scheduled;
        has_memory = false;
        is_isoch_type = false;
        has_async = true;
        isoch = none;
        stop_trb = zero_trb;
      }
      ∷ [];
  bad_doorbells = 0;
}

-- A success for slot 1, endpoint 3, whose ring has no memory.
abbrev early : Trb
early = record { a = 8224; b = 0; c = 16777216; d = 16777216 + 3 * 65536 + 32 * 1024 + 1 }

process_transfer_event2_refused_example : one_endpoint ≡ one_endpoint
unfolding process_transfer_event2 words_of is_known on_plain site_at nth
process_transfer_event2_refused_example =
    process_transfer_event2_refused (λ s e. doorbells) (λ s e. paged) setting (λ i. i) 10
      one_endpoint one_endpoint early refl
