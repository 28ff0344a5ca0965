-- ===== src/Streams/Create/Tests.antt =====
-- A small run of UIMCreateStreams: memory runs out at the second of three streams.
use os_x_generic_usb.Base.{refl, ◌==◌, not, some, none, true, false, arith, if◌then◌else◌}
use os_x_generic_usb.Streams.Create.{StreamEntry, StreamsEndpoint, uim_create_streams}
use os_x_generic_usb.Streams.Create.Whole.{Underway, AllOrNone, uim_create_streams-AllOrNone}

abbrev blank_stream : StreamEntry
blank_stream = record {
  md = 0;
  has_memory = false;
  num_trbs = 0;
  ep_type = 0;
  async_endpoint = none;
  next_isoc_frame = 0;
  return_in_progress = false;
  delete_in_progress = false;
  needs_doorbell = false;
}

abbrev main_ring : StreamEntry
main_ring = record blank_stream {
  md = 7;
  has_memory = true;
  num_trbs = 4;
  ep_type = 6;
  async_endpoint = some (record { max_packet_size = 1024; max_burst = 15; multiple = 0 });
}

abbrev bulk : StreamsEndpoint
bulk = record {
  entries = λ i. if i == 0 then main_ring else blank_stream;
  last_stream = 0;
  max_stream = 3;
  cleared = 0;
}

bulk-Underway : Underway bulk.entries 1 3
bulk-Underway = record {
  has_memory = refl;
  enough = omega arith;
  made = λ i a b. absurd (omega arith);
  absent = λ i a b. (ground arith, ground arith);
}

uim_create_streams-AllOrNone_example :
    AllOrNone 3 (uim_create_streams (λ i. not (i == 2)) 8 1 4 bulk 3)
uim_create_streams-AllOrNone_example =
    uim_create_streams-AllOrNone (λ i. not (i == 2)) 8 1 4 bulk 3 (λ e. omega arith)
      (λ e. omega arith) (omega arith) (omega arith) refl (omega arith) (omega arith) (omega arith)
      bulk-Underway
