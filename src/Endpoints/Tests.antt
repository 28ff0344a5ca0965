-- ===== src/Endpoints/Tests.antt =====
-- Small runs of the creation and the quiescing of endpoints.
use os_x_generic_usb.Base.{
  ℕ, zero, suc, ◌^◌, ◌≤◌, ◌<◌, ◌≡◌, ◌⊎◌, refl, [], ◌∷◌, none, some, Bool, true, false, arith,
  replicate, pos,
}
use os_x_generic_usb.Trb.{zero_trb}
use os_x_generic_usb.Ring.{Ring}
use os_x_generic_usb.Command.{CommandRing}
use os_x_generic_usb.Command.Inv.{IsValid}
use os_x_generic_usb.Command.Wait.{World, Hardware}
use os_x_generic_usb.Command.Wait.Waiting.{NoPointer}
use os_x_generic_usb.Dequeue.{EpState, running, halted}
use os_x_generic_usb.Endpoints.{
  EndpointSpec, endpoint_context, log2, clz, interval_exponent, create_bulk_endpoint, with_endpoint,
  translate_endpoint, creates, stop_endpoint, reset_endpoint, quiesce_endpoint,
}
use os_x_generic_usb.Endpoints.Interval.{interval_exponent_fits}
use os_x_generic_usb.Endpoints.Context.{InRange, Reads, endpoint_context-Reads}
use os_x_generic_usb.Endpoints.Laws.{FoundHalted, quiesce_endpoint_in_order}

interval_exponent_fits_example :
    (e : ℕ) × (interval_exponent false (pos 10) ≡ some e)
    × (3 ≤ e)
    × (e ≤ 11)
    × (2 ^ e ≤ 80)
    × (80 < 2 ^ suc e ⊎ (e ≡ 11))
interval_exponent_fits_example = interval_exponent_fits 10 (omega arith) (omega arith)

ten_ms : interval_exponent false (pos 10) ≡ some 6
unfolding interval_exponent clz log2
ten_ms = refl

abbrev bulk_in : EndpointSpec
bulk_in = record {
  slot = 1;
  endpoint = 3;
  max_packet_size = 512;
  interval = 0;
  endpoint_type = 6;
  max_stream = 0;
  max_burst = 2;
  multiple = 0;
}

bulk_in_created : create_bulk_endpoint (λ address. 1) 5 1 true 512 0 2 ≡ creates bulk_in
unfolding create_bulk_endpoint with_endpoint translate_endpoint
bulk_in_created = refl

bulk_in-InRange : InRange bulk_in
bulk_in-InRange = record {
  packet_size_in = omega arith;
  interval_in = omega arith;
  type_in = omega arith;
  burst_in = omega arith;
  multiple_in = omega arith;
}

abbrev new_ring : Ring
new_ring = record {
  trbs = replicate 8 zero_trb;
  phys_addr = 8192;
  num_trbs = 8;
  num_pages = 1;
  cycle_state = 1;
  enqueue_index = 0;
  dequeue_index = 0;
  last_seen_dequeue_index = 0;
  last_seen_frame = 0;
  next_isoc_frame = 0;
}

endpoint_context-Reads_example : Reads bulk_in new_ring (endpoint_context bulk_in new_ring)
endpoint_context-Reads_example =
    endpoint_context-Reads bulk_in new_ring bulk_in-InRange refl (omega arith) (omega arith)

abbrev idle_ring : CommandRing
idle_ring = record {
  trbs = replicate 5 zero_trb;
  phys_addr = 4096;
  enqueue_index = 0;
  dequeue_index = 0;
  num_trbs = 5;
  cycle_state = 1;
  stop_pending = false;
  callbacks = none ∷ none ∷ none ∷ none ∷ none ∷ [];
}

idle_ring-IsValid : IsValid idle_ring
idle_ring-IsValid = record {
  size = refl;
  callbacks_size = refl;
  room = omega arith;
  small = omega arith;
  enqueue_in = omega arith;
  dequeue_in = omega arith;
  cycle_in = omega arith;
}

none_points : NoPointer 7 idle_ring
none_points zero e = cc
none_points (suc zero) e = cc
none_points (suc (suc zero)) e = cc
none_points (suc (suc (suc zero))) e = cc
none_points (suc (suc (suc (suc zero)))) e = cc
none_points (suc (suc (suc (suc (suc i))))) e = cc

abbrev idle_world : World
idle_world = record { ring = idle_ring; cells = λ q. pos 0; hse_detected = false }

-- A controller that answers nothing.
abbrev silent : Hardware
silent = record {
  regs_valid = true;
  host_error = false;
  available = true;
  during_wait = [];
  during_poll = [];
  crcr = some false;
  during_abort = [];
}

abbrev quiesced : World × EpState × Bool
quiesced = quiesce_endpoint silent false running halted idle_world 7 1 3

quiesce_endpoint_in_order_example :
    IsValid quiesced.0.ring
    × NoPointer 7 quiesced.0.ring
    × (FoundHalted running halted
        → (quiesced.1 ≡ halted)
          × (quiesced.0
              ≡ reset_endpoint silent
                  (stop_endpoint silent false idle_world 7 1 3 false).0
                  7
                  1
                  3
                  false))
    × (¬ FoundHalted running halted
        → (quiesced.1 ≡ running)
          × (quiesced.0 ≡ (stop_endpoint silent false idle_world 7 1 3 false).0))
quiesce_endpoint_in_order_example =
    quiesce_endpoint_in_order silent 7 1 3 false running halted idle_world idle_ring-IsValid
      none_points
