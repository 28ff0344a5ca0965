-- ===== src/Command/Tests.antt =====
-- Small runs of the command ring's operations, on a ring of four TRBs.
use os_x_generic_usb.Base.{
  zero, suc, ◌≡◌, ◌≢◌, refl, [], ◌∷◌, ◌++◌, none, some, true, false, arith, length, pos, replicate,
}
use os_x_generic_usb.Base.Window.{window}
use os_x_generic_usb.Trb.{Trb, zero_trb, get_trb_addr64}
use os_x_generic_usb.Command.{CommandRing, enque_cmd, do_cmd_completion, next_enqueue}
use os_x_generic_usb.Command.Inv.{IsValid, enque_cmd-IsValid, do_cmd_completion-IsValid}
use os_x_generic_usb.Command.Queue.{
  pending, CompletesFirst, enque_cmd_refines, do_cmd_completion_refines,
}
use os_x_generic_usb.Command.Wait.{World, Hardware, wait_for_cmd}
use os_x_generic_usb.Command.Wait.Waiting.{NoPointer}
use os_x_generic_usb.Command.Wait.Cell.{Left, wait_for_cmd-Left}

-- One command, whose callback writes to the address 7, is pending at index 1.
abbrev one_pending : CommandRing
one_pending = record {
  trbs = replicate 5 zero_trb;
  phys_addr = 4096;
  enqueue_index = 2;
  dequeue_index = 1;
  num_trbs = 5;
  cycle_state = 1;
  stop_pending = false;
  callbacks = none ∷ some 7 ∷ none ∷ none ∷ none ∷ [];
}

one_pending-IsValid : IsValid one_pending
one_pending-IsValid = record {
  size = refl;
  callbacks_size = refl;
  room = omega arith;
  small = omega arith;
  enqueue_in = omega arith;
  dequeue_in = omega arith;
  cycle_in = omega arith;
}

-- Three commands are pending: there is no room for another.
abbrev full_ring : CommandRing
full_ring = record one_pending {
  enqueue_index = 0;
  callbacks = none ∷ some 7 ∷ some 8 ∷ some 9 ∷ none ∷ [];
}

full_ring-IsValid : IsValid full_ring
full_ring-IsValid = record {
  size = refl;
  callbacks_size = refl;
  room = omega arith;
  small = omega arith;
  enqueue_in = omega arith;
  dequeue_in = omega arith;
  cycle_in = omega arith;
}

-- The completion event of the command at index 1, for slot 3.
abbrev first_done : Trb
first_done = record { a = 4112; b = 0; c = 0x1000000; d = 0x3008401 }

first_done-CompletesFirst : CompletesFirst one_pending first_done
unfolding get_trb_addr64
first_done-CompletesFirst = record {
  addr = refl;
  addr_pos = omega arith;
  addr_in = omega arith;
  not_stop = omega arith;
}

abbrev no_op : Trb
no_op = record { a = 1; b = 2; c = 3; d = 0 }

one_pending-length : length (pending one_pending) ≡ 1
unfolding window
one_pending-length = refl

enque_cmd_refines_example :
    (s : CommandRing) × (enque_cmd one_pending no_op 9 5 ≡ some s)
    × (pending s ≡ pending one_pending ++ some 5 ∷ [])
enque_cmd_refines_example =
    enque_cmd_refines one_pending one_pending-IsValid no_op 9 5
      (rw one_pending-length (omega arith))

do_cmd_completion_refines_example :
    let c = do_cmd_completion one_pending first_done in
    (c.handled ≡ true) × (c.call ≡ some 7) × (pending c.ring ≡ [])
unfolding window
do_cmd_completion_refines_example =
    do_cmd_completion_refines one_pending one_pending-IsValid first_done (some 7) []
      first_done-CompletesFirst refl

abbrev two_pending : CommandRing
two_pending = elim (enque_cmd one_pending no_op 9 5) [ none ↦ one_pending | some s ↦ s ]

two_pending_enqueued : enque_cmd one_pending no_op 9 5 ≡ some two_pending
unfolding enque_cmd next_enqueue
two_pending_enqueued = refl

enque_cmd-IsValid_example :
    IsValid two_pending
    × (two_pending.enqueue_index ≢ two_pending.dequeue_index)
    × (two_pending.dequeue_index ≡ 1)
    × (two_pending.num_trbs ≡ 5)
    × (two_pending.phys_addr ≡ 4096)
enque_cmd-IsValid_example =
    enque_cmd-IsValid one_pending no_op 9 5 one_pending-IsValid two_pending two_pending_enqueued

do_cmd_completion-IsValid_example : IsValid (do_cmd_completion one_pending first_done).ring
do_cmd_completion-IsValid_example =
    do_cmd_completion-IsValid one_pending first_done one_pending-IsValid

-- A controller that completes the older command only, and then does not stop when asked to.
abbrev stubborn : Hardware
stubborn = record {
  regs_valid = true;
  host_error = false;
  available = true;
  during_wait = first_done ∷ [];
  during_poll = [];
  crcr = some true;
  during_abort = [];
}

abbrev before : World
before = record { ring = one_pending; cells = λ q. pos 0; hse_detected = false }

one_pending-NoPointer : NoPointer 5 one_pending
one_pending-NoPointer zero = ground arith
one_pending-NoPointer (suc zero) = ground arith
one_pending-NoPointer (suc (suc zero)) = ground arith
one_pending-NoPointer (suc (suc (suc zero))) = ground arith
one_pending-NoPointer (suc (suc (suc (suc zero)))) = ground arith
one_pending-NoPointer (suc (suc (suc (suc (suc i))))) = ground arith

wait_for_cmd-Left_example : Left 5 (wait_for_cmd stubborn no_op 9 5 before)
wait_for_cmd-Left_example =
    wait_for_cmd-Left stubborn no_op 9 5 before one_pending-IsValid one_pending-NoPointer
