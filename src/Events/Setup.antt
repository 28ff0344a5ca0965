-- ===== src/Events/Setup.antt =====
-- Interrupts.cpp: InitEventRing, InitAnEventRing and postFilterEventRing.
use os_x_generic_usb.Base.{
  ℕ, ◌+◌, ◌*◌, List, [], ◌∷◌, Option, none, some, Bool, false, replicate, u64, set_bit, ◌&&◌, ◌||◌,
  if◌then◌else◌,
}
use os_x_generic_usb.Trb.{zero_trb}
use os_x_generic_usb.Events.{EventRing}

-- InitEventRing, and what it writes to the interrupter's registers: erdp, erstsz, erstba, imod, iman.
-- The first four TRBs of the memory hold the segment table; `erst` begins behind them.
unfoldable pub init_event_ring : EventRing → Bool → EventRing × List ℕ
init_event_ring e restarting =
    let placed : EventRing =
      if restarting then e else record e { erstba = e.erdp; erdp = u64 (e.erdp + 64) } in
    (
      record placed {
        erst = replicate e.num_xhc_entries zero_trb;
        xhc_dequeue_index = 0;
        cycle_state = 1;
        erdp_needs_update = false;
      },
      placed.erdp ∷ 1 ∷ placed.erstba ∷ 160 ∷ 2 ∷ [],
    )

-- InitAnEventRing: the event ring, if there is memory for the ring (at a bus address) and for the
-- bounce queue; `none` if not.
unfoldable pub init_an_event_ring : Option ℕ → Bool → EventRing → Option EventRing
init_an_event_ring none malloc e = none
init_an_event_ring (some addr) malloc e =
    let ring = (init_event_ring (record e { num_xhc_entries = 252; erdp = addr }) false).0 in
    if malloc
    then some (record ring {
      num_bounce_entries = 5120;
      bounce_queue = replicate 5120 zero_trb;
      bounce_dequeue_index = 0;
      bounce_enqueue_index = 0;
      num_bounce_queue_overflows = 0;
    })
    else none

-- The value that postFilterEventRing writes to the interrupter's register erdp, if any, and the ring
-- that it leaves. `busy` is the register's bit EHB, read from a valid register space; `valid` is
-- whether the space is valid.
unfoldable pub post_filter_event_ring : Bool → Bool → EventRing → EventRing × Option ℕ
post_filter_event_ring valid busy e =
    if valid && (e.erdp_needs_update || busy)
    then (
      record e { erdp_needs_update = false },
      some (set_bit 3 (u64 (e.erdp + e.xhc_dequeue_index * 16))),
    )
    else (e, none)
