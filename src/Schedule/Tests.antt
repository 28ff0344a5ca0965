-- ===== src/Schedule/Tests.antt =====
-- Small runs of ScheduleTDs and RetireTDs.
use os_x_generic_usb.Base.{
  ℕ, ◌+◌, ◌-◌, ◌%◌, ◌≡◌, refl, [], ◌∷◌, some, true, false, arith, replicate,
}
use os_x_generic_usb.Trb.{zero_trb}
use os_x_generic_usb.Ring.{Ring}
use os_x_generic_usb.Dequeue.{running}
use os_x_generic_usb.Ring.Fragment.Inv.{IsValid}
use os_x_generic_usb.Layout.Covers.{IsMapped}
use os_x_generic_usb.Async.{blank_td}
use os_x_generic_usb.Async.Abort.{num_tds}
use os_x_generic_usb.Schedule.{Control, Context, Pipe, retire_tds}
use os_x_generic_usb.Schedule.Retire.{IsLawful, retire_tds_keeps}

abbrev ring_of_eight : Ring
ring_of_eight = record {
  trbs = replicate 8 zero_trb;
  phys_addr = 8192;
  num_trbs = 8;
  num_pages = 1;
  cycle_state = 1;
  enqueue_index = 1;
  dequeue_index = 1;
  last_seen_dequeue_index = 0;
  last_seen_frame = 0;
  next_isoc_frame = 0;
}

ring_of_eight-IsValid : IsValid ring_of_eight
ring_of_eight-IsValid = record {
  size = refl;
  room = omega arith;
  enqueue_in = omega arith;
  dequeue_in = omega arith;
  cycle_in = omega arith;
}

-- The doorbells are counted, and SetTRDQPtr succeeds.
abbrev counting : Control ℕ
counting = record {
  start_endpoint = λ c stream. c + 1;
  quiesce_endpoint = λ c. c;
  set_trdq_ptr = λ c r stream index. (c, record r { dequeue_index = index });
  restart_streams = λ c stream. c;
  ep_state = λ c. running;
}

counting-IsLawful : IsLawful counting
counting-IsLawful = record { set_trdq_ptr_keeps = λ c r stream index v lt. ground (arith, v) }

-- Buffers of pages at 65536.
abbrev paged : Context
paged = record {
  max_packet_size = 512;
  max_burst = 0;
  multiple = 0;
  endpoint = 3;
  ring_found = true;
  dma = λ command offset.
      some (record { num_segments = 1; addr = 65536 + offset; length = 4096 - offset % 4096 });
}

paged-IsMapped : (command : ℕ) → IsMapped (paged.dma command)
paged-IsMapped command offset seg e = ground arith

-- A queue of two TDs of a command.
abbrev two_tds : Pipe ℕ
two_tds = record {
  ring = ring_of_eight;
  endpoint = record {
    queued =
        record blank_td { command = 7; bytes_this_td = 512 }
        ∷ record blank_td { command = 7; bytes_this_td = 100; bytes_preceeding_this_td = 512 }
        ∷ [];
    scheduled = [];
    done = [];
    num_free = 3;
    aborting = false;
    max_packet_size = 512;
    max_burst = 0;
    multiple = 0;
    max_td_bytes = 4096;
  };
  control = 0;
  commands = record { scratch = λ c. 0; has_action = λ c. true };
  completed = [];
  return_in_progress = false;
  needs_doorbell = false;
  layout_errors = 0;
}

retire_tds_keeps_example :
    (s' : Pipe ℕ) × (retire_tds counting paged two_tds (record blank_td { command = 9 }) 0 true true
      ≡ some s')
    × (num_tds s'.endpoint ≡ 6)
    × (true ≡ true → s'.endpoint.done ≡ [])
retire_tds_keeps_example =
    retire_tds_keeps counting paged counting-IsLawful (λ e. omega arith) paged-IsMapped two_tds
      (record blank_td { command = 9 }) 0 true true ring_of_eight-IsValid refl
