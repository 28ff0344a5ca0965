-- ===== src/Dequeue/Tests.antt =====
-- Small runs of SetTRDQPtr on a transfer ring of four TRBs.
use os_x_generic_usb.Base.{
  zero, suc, ◌≡◌, ◌⊎◌, refl, [], ◌∷◌, none, some, true, false, arith, u16, replicate, pos,
}
use os_x_generic_usb.Trb.{zero_trb}
use os_x_generic_usb.Ring.{Ring}
use os_x_generic_usb.Command.{CommandRing}
use os_x_generic_usb.Command.Inv.{IsValid}
use os_x_generic_usb.Command.Wait.{World, Hardware}
use os_x_generic_usb.Command.Wait.Waiting.{NoPointer}
use os_x_generic_usb.Command.Wait.Cell.{Left}
use os_x_generic_usb.Dequeue.{disabled, halted, stopped, set_on_ring}
use os_x_generic_usb.Dequeue.Laws.{HasFailed, set_on_ring_follows}

abbrev small_ring : Ring
small_ring = record {
  trbs = replicate 4 zero_trb;
  phys_addr = 8192;
  num_trbs = 4;
  num_pages = 1;
  cycle_state = 1;
  enqueue_index = 2;
  dequeue_index = 0;
  last_seen_dequeue_index = 0;
  last_seen_frame = 0;
  next_isoc_frame = 0;
}

abbrev idle_commands : CommandRing
idle_commands = record {
  trbs = replicate 4 zero_trb;
  phys_addr = 4096;
  enqueue_index = 0;
  dequeue_index = 0;
  num_trbs = 4;
  cycle_state = 1;
  stop_pending = false;
  callbacks = none ∷ none ∷ none ∷ none ∷ [];
}

abbrev idle_world : World
idle_world = record { ring = idle_commands; cells = λ q. pos 0; hse_detected = false }

idle_commands-IsValid : IsValid idle_commands
idle_commands-IsValid = record {
  size = refl;
  callbacks_size = refl;
  room = omega arith;
  small = omega arith;
  enqueue_in = omega arith;
  dequeue_in = omega arith;
  cycle_in = omega arith;
}

idle_commands-NoPointer : NoPointer 5 idle_commands
idle_commands-NoPointer zero = ground arith
idle_commands-NoPointer (suc zero) = ground arith
idle_commands-NoPointer (suc (suc zero)) = ground arith
idle_commands-NoPointer (suc (suc (suc zero))) = ground arith
idle_commands-NoPointer (suc (suc (suc (suc i)))) = ground arith

-- The controller completes the command, which is at the ring's first TRB, for slot 3.
abbrev prompt : Hardware
prompt = record {
  regs_valid = true;
  host_error = false;
  available = true;
  during_wait = record { a = 4096; b = 0; c = 0x1000000; d = 0x3008401 } ∷ [];
  during_poll = [];
  crcr = some true;
  during_abort = [];
}

set_on_ring_follows_example :
    let out = set_on_ring prompt stopped false idle_world 5 small_ring 3 4 0 2 in
    Left 5 (out.world, out.ret)
    × (HasFailed out.ret → out.ring ≡ small_ring)
    × (¬ HasFailed out.ret → out.ring ≡ record small_ring { dequeue_index = u16 2 })
    × ((stopped ≡ disabled) ⊎ (stopped ≡ halted)
        → (out.ring ≡ small_ring) × (out.world ≡ idle_world))
set_on_ring_follows_example =
    set_on_ring_follows prompt stopped false idle_world 5 small_ring 3 4 0 2 idle_commands-IsValid
      idle_commands-NoPointer
