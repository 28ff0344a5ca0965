-- ===== src/Events/Poll.antt =====
-- Interrupts.cpp: PollEventRing2 and PollForCMDCompletions, which run in the work loop. The interrupt
-- filter does not run meanwhile in the model.
pub mod Drain
pub mod Claim
use os_x_generic_usb.Base.{
  ℕ, zero, suc, ◌+◌, ◌^◌, Option, none, some, Bool, true, false, get_or, set, u32, ltb, ◌==◌, ◌||◌,
  not, if◌then◌else◌,
}
use os_x_generic_usb.Trb.{Trb, zero_trb, trb_error, clear_trb}
use os_x_generic_usb.Events.{
  EventRing, command_event, transfer_event, mfindex_wrap, port_change, other_event, event_of,
  bounce_after, take_bounced, Handlers, Host,
}

module _ {C : Type 0} (h : Handlers C) where
  -- The events that the bounce queue gives to the work loop.
  unfoldable pub poll_event : Host C → Trb → Host C
  poll_event s t = elim (event_of s.renesas t) [
    | command_event ↦
        let (c, done) = h.do_cmd_completion s.driver t in
        record s { driver = c; cmd_errors = if done then s.cmd_errors else u32 (s.cmd_errors + 1) }
    | transfer_event ↦
        let (c, done) = h.process_transfer_event2 s.driver t in
        record s {
          driver = c;
          xfer_errors = if done then s.xfer_errors else u32 (s.xfer_errors + 1);
        }
    | mfindex_wrap ↦ record s { millseconds_1 = s.millseconds_0; millseconds_3 = s.millseconds_2 }
    | port_change ↦ s
    | other_event ↦ s
  ]

  -- What PollEventRing2 does before it looks at the bounce queue, where
  -- `overflows` events were lost. `hse` is whether it reads the bit HSE
  -- of USBSts from a valid register space.
  unfoldable pub before_poll : Bool → Host C → ℕ → Host C
  before_poll hse s overflows = record s {
    hse_detected = hse || s.hse_detected;
    bounce_overflows =
        if ltb overflows (2 ^ 31) then u32 (s.bounce_overflows + overflows) else s.bounce_overflows;
    isoc_problems = 0;
    driver = h.retire_isoc s.driver;
  }

  -- PollEventRing2, with what it returns; `hse_last` is the reading at its end.
  unfoldable pub poll_event_ring2 : Bool → Bool → Host C → EventRing → Host C × EventRing × Bool
  poll_event_ring2 hse hse_last s e =
      let s' : Host C = before_poll hse s e.num_bounce_queue_overflows in
      let e' : EventRing = record e { num_bounce_queue_overflows = 0 } in
      let (t, rest) = take_bounced e' in
      if e.bounce_dequeue_index == e.bounce_enqueue_index
      then (record s' { hse_detected = hse_last || s'.hse_detected }, e', false)
      else (poll_event s' t, rest, true)

  -- `while (PollEventRing2(interrupter));` of PollInterrupts, with fuel; `none` if the fuel ran out. The
  -- readings of USBSts are by round.
  unfoldable pub poll_all : ℕ → (ℕ → Bool) → Bool → Host C → EventRing → Option (Host C × EventRing)
  poll_all zero hse hse_last s e = none
  poll_all (suc fuel) hse hse_last s e =
      let (s', e', more) = poll_event_ring2 (hse 0) hse_last s e in
      let rest = poll_all fuel (λ k. hse (suc k)) hse_last s' e' in
      if more then rest else some (s', e')

  -- Whether PollForCMDCompletions takes an event, and what handling it leaves.
  unfoldable pub claimed : Host C → Trb → Bool × Host C
  claimed s t = elim (event_of s.renesas t) [
    | transfer_event ↦
        let (c, done) = h.do_stop_completion s.driver t in
        (
          trb_error t == 26 || trb_error t == 27,
          record s {
            driver = c;
            xfer_errors = if done then s.xfer_errors else u32 (s.xfer_errors + 1);
          },
        )
    | command_event ↦
        let (c, done) = h.do_cmd_completion s.driver t in
        (
          true,
          record s {
            driver = c;
            cmd_errors = if done then s.cmd_errors else u32 (s.cmd_errors + 1);
          },
        )
    | mfindex_wrap ↦ (false, s)
    | port_change ↦ (false, s)
    | other_event ↦ (false, s)
  ]

  -- One round of PollForCMDCompletions at the index `i`.
  unfoldable pub poll_at : Host C → EventRing → ℕ → Host C × EventRing
  poll_at s e i =
      let t = get_or e.bounce_queue i zero_trb in
      let cleared : EventRing = record e {
        bounce_queue = set e.bounce_queue i (clear_trb t false);
      } in
      let (done, counted) = claimed s t in if done then (counted, cleared) else (s, e)

  -- The loop of PollForCMDCompletions with fuel: `none` if the fuel ran out. `valid` is whether the
  -- register space stays valid in the round.
  unfoldable pub poll_loop : ℕ → Bool → Host C → EventRing → ℕ → Option (Host C × EventRing)
  poll_loop zero valid s e i = none
  poll_loop (suc fuel) valid s e i =
      let p = poll_at s e i in
      let rest = poll_loop fuel valid p.0 p.1 (bounce_after e i) in
      if i == e.bounce_enqueue_index || not valid then some (s, e) else rest

  unfoldable pub poll_for_cmd_completions :
      ℕ → Bool → Host C → EventRing → Option (Host C × EventRing)
  poll_for_cmd_completions fuel valid s e = poll_loop fuel valid s e e.bounce_dequeue_index
