-- ===== src/Events/Tests.antt =====
-- Small runs of the event rings, on a controller's ring of four entries and a bounce queue of three.
use os_x_generic_usb.Base.{
  ℕ, suc, ◌+◌, ◌*◌, ◌≡◌, ◌<◌, refl, [], ◌∷◌, some, true, false, arith, length, replicate,
}
use os_x_generic_usb.Base.Window.{window}
use os_x_generic_usb.Trb.{Trb, zero_trb, clear_trb}
use os_x_generic_usb.Events.{
  EventRing, Handlers, Host, is_stale, advance, bounce, bounce_after, event_of,
}
use os_x_generic_usb.Events.Filter.{Filtered, filter_event_ring, filter_all, handle, settle}
use os_x_generic_usb.Events.Filter.Laws.{
  IsPlaced, Fate, SameRing, fresh_count, fresh_count-le, filter_event_ring-Fate,
}
use os_x_generic_usb.Events.Filter.Loop.{Swept, filter_all-Swept}
use os_x_generic_usb.Events.Poll.{
  poll_event, before_poll, poll_all, claimed, poll_for_cmd_completions,
}
use os_x_generic_usb.Events.Poll.Drain.{drained, poll_all_drains}
use os_x_generic_usb.Events.Poll.Claim.{claim, claim_all, poll_for_cmd_completions_claims}
use os_x_generic_usb.Events.Queue.{IsValid, waiting}

-- Commands are counted and always recognized; transfer events are not handled at once.
abbrev counting : Handlers ℕ
counting = record {
  do_cmd_completion = λ c t. (c + 1, true);
  process_transfer_event = λ c t. (c, true);
  process_transfer_event2 = λ c t. (c + 100, true);
  do_stop_completion = λ c t. (c + 1000, true);
  retire_isoc = λ c. c;
}

abbrev idle : Host ℕ
idle = record {
  driver = 0;
  renesas = false;
  rh_port_changes = 0;
  millsecond_counter = 0;
  millseconds_0 = 0;
  millseconds_1 = 0;
  millseconds_2 = 0;
  millseconds_3 = 0;
  bounce_overflows = 0;
  cmd_errors = 0;
  xfer_errors = 0;
  isoc_problems = 0;
  hse_detected = false;
}

-- A transfer event that reports a stop, and the completion of a command, with the cycle bit 1.
abbrev stopped : Trb
stopped = record { a = 0; b = 0; c = 26 * 16777216; d = 32 * 1024 + 1 }

abbrev completed : Trb
completed = record { a = 0; b = 0; c = 0; d = 33 * 1024 + 1 }

abbrev transferred : Trb
transferred = record { a = 0; b = 0; c = 0; d = 32 * 1024 + 1 }

abbrev two_arrived : EventRing
two_arrived = record {
  xhc_dequeue_index = 2;
  bounce_dequeue_index = 2;
  bounce_enqueue_index = 2;
  cycle_state = 1;
  erdp_needs_update = false;
  num_xhc_entries = 4;
  num_bounce_entries = 3;
  num_bounce_queue_overflows = 0;
  erst = completed ∷ completed ∷ completed ∷ transferred ∷ [];
  bounce_queue = replicate 3 zero_trb;
  erdp = 4096;
  erstba = 4032;
}

two_arrived-IsValid : IsValid two_arrived
two_arrived-IsValid = record {
  size = refl;
  room = omega arith;
  small = omega arith;
  enqueue_in = omega arith;
  dequeue_in = omega arith;
}

two_arrived-IsPlaced : IsPlaced two_arrived
two_arrived-IsPlaced = record {
  small = omega arith;
  index_in = omega arith;
  cycle_in = omega arith;
}

-- Two events wait, across the end of the bounce queue.
abbrev two_waiting : EventRing
two_waiting = record two_arrived {
  bounce_enqueue_index = 1;
  bounce_queue = stopped ∷ zero_trb ∷ transferred ∷ [];
}

two_waiting-IsValid : IsValid two_waiting
two_waiting-IsValid = record {
  size = refl;
  room = omega arith;
  small = omega arith;
  enqueue_in = omega arith;
  dequeue_in = omega arith;
}

fresh_two : is_stale two_arrived ≡ false
unfolding is_stale
fresh_two = refl

abbrev filtered : Filtered counting
filtered = filter_event_ring counting 9 idle two_arrived false

filter_event_ring-Fate_example :
    Fate counting idle two_arrived filtered
    × IsValid filtered.events
    × SameRing filtered.events (advance two_arrived)
filter_event_ring-Fate_example =
    filter_event_ring-Fate counting 9 idle two_arrived false two_arrived-IsValid fresh_two

few_fresh : fresh_count two_arrived < 5
few_fresh = omega (arith, fresh_count-le two_arrived)

-- A command is dealt with, a transfer event waits, and the other entries are from an earlier round.
filter_two :
    filter_all counting 5 9 idle two_arrived false
    ≡ some (record {
      host = record idle { driver = 1 };
      events = record two_arrived {
        xhc_dequeue_index = 0;
        cycle_state = 0;
        erdp_needs_update = true;
        bounce_enqueue_index = 0;
        bounce_queue = zero_trb ∷ zero_trb ∷ transferred ∷ [];
      };
      more = false;
      invoke = true;
    })
unfolding filter_all filter_event_ring handle settle is_stale advance bounce bounce_after event_of
filter_two = refl

filter_all-Swept_example :
    (f : Filtered counting) × (filter_all counting 5 9 idle two_arrived false ≡ some f)
    × Swept counting 9 5 two_arrived f
filter_all-Swept_example =
    filter_all-Swept counting 9 5 idle two_arrived false two_arrived-IsValid two_arrived-IsPlaced
      few_fresh

two_in_order : waiting two_waiting ≡ transferred ∷ stopped ∷ []
unfolding window
two_in_order = refl

poll_all_drains_example :
    (e' : EventRing) × (poll_all counting 3 (λ k. false) false idle two_waiting
      ≡ some (drained counting false (λ k. false) idle 0 (transferred ∷ stopped ∷ []), e'))
    × IsValid e'
    × (waiting e' ≡ [])
poll_all_drains_example =
    poll_all_drains counting false 3 (λ k. false) idle two_waiting (transferred ∷ stopped ∷ [])
      two_waiting-IsValid two_in_order (omega arith)

poll_two : (drained counting false (λ k. false) idle 0 (transferred ∷ stopped ∷ [])).driver ≡ 200
unfolding drained poll_event before_poll event_of
poll_two = refl

poll_for_cmd_completions_claims_example :
    (e' : EventRing) × (poll_for_cmd_completions counting
        (suc (length (waiting two_waiting)))
        true
        idle
        two_waiting
      ≡ some ((claim_all counting idle (waiting two_waiting)).0, e'))
    × (waiting e' ≡ (claim_all counting idle (waiting two_waiting)).1)
    × IsValid e'
    × (e'.bounce_dequeue_index ≡ 2)
    × (e'.bounce_enqueue_index ≡ 1)
poll_for_cmd_completions_claims_example =
    poll_for_cmd_completions_claims counting idle two_waiting two_waiting-IsValid

-- Only the stop is claimed.
claim_two :
    claim_all counting idle (transferred ∷ stopped ∷ [])
    ≡ (record idle { driver = 1000 }, transferred ∷ clear_trb stopped false ∷ [])
unfolding claim_all claim claimed event_of clear_trb
claim_two = refl
