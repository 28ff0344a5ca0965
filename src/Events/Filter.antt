-- ===== src/Events/Filter.antt =====
-- Interrupts.cpp: FilterEventRing, which runs in the interrupt's context.
pub mod Laws
pub mod Loop
use Prim.Native.Nat.{bit_or}
use os_x_generic_usb.Base.{
  ℕ, zero, suc, ◌+◌, ◌/◌, ◌%◌, ◌^◌, Option, none, some, Bool, true, false, u64, leb, ◌==◌, ◌&&◌,
  ◌||◌, not, if◌then◌else◌,
}
use os_x_generic_usb.Trb.{Trb}
use os_x_generic_usb.Events.{
  EventRing, command_event, transfer_event, mfindex_wrap, port_change, other_event, event_of,
  next_event, is_stale, advance, bounce, Handlers, Host,
}

-- `kMaxRootPorts`, and what a port status change event does to the bitmap of changed ports.
abbrev pub max_root_ports : ℕ
max_root_ports = 30

unfoldable pub with_port_change : ℕ → Trb → ℕ
with_port_change changes t =
    let port = t.a / 2 ^ 24 % 256 in
    if not (port == 0) && leb port max_root_ports then bit_or changes (2 ^ port) else changes

-- What the switch of FilterEventRing leaves to do: put the event into the bounce queue, or return
-- true, where the flag says whether the work loop is to be invoked.
pub data Handling : Type 0 where
  bounced : Handling
  finished : Bool → Handling

module _ {C : Type 0} (h : Handlers C) where
  -- The switch of FilterEventRing; `now` is `ml_cpu_int_event_time()`.
  unfoldable pub handle : ℕ → Host C → Trb → Host C × Handling
  handle now s t = elim (event_of s.renesas t) [
    | command_event ↦
        let (c, done) = h.do_cmd_completion s.driver t in
        (record s { driver = c }, if done then finished false else bounced)
    | transfer_event ↦
        let (c, copy) = h.process_transfer_event s.driver t in
        (record s { driver = c }, if copy then bounced else finished true)
    | mfindex_wrap ↦
        let count = u64 (s.millsecond_counter + 2048) in
        (
          record s { millsecond_counter = count; millseconds_2 = count; millseconds_0 = now },
          bounced,
        )
    | port_change ↦
        (record s { rh_port_changes = with_port_change s.rh_port_changes t }, finished true)
    | other_event ↦ (s, bounced)
  ]

  -- What FilterEventRing leaves: `more` is what it returns, `invoke` is `*pInvokeContinuation`.
  pub record Filtered : Type 0 where
    pub host : Host C
    pub events : EventRing
    pub more : Bool
    pub invoke : Bool

  unfoldable pub settle : Host C → EventRing → Trb → Bool → Handling → Filtered
  settle s e t invoke bounced =
      let (e', fits) = bounce e t in
      record { host = s; events = e'; more = fits; invoke = fits || invoke }
  settle s e t invoke (finished wakes) = record {
    host = s;
    events = e;
    more = true;
    invoke = wakes || invoke;
  }

  unfoldable pub filter_event_ring : ℕ → Host C → EventRing → Bool → Filtered
  filter_event_ring now s e invoke =
      if is_stale e
      then record { host = s; events = e; more = false; invoke = invoke }
      else let (s', handling) = handle now s (next_event e) in
        settle s' (advance e) (next_event e) invoke handling

  -- `while (FilterEventRing(...));`, with fuel; `none` if the fuel ran out.
  unfoldable pub filter_all : ℕ → ℕ → Host C → EventRing → Bool → Option Filtered
  filter_all zero now s e invoke = none
  filter_all (suc fuel) now s e invoke =
      let f : Filtered = filter_event_ring now s e invoke in
      let rest = filter_all fuel now f.host f.events f.invoke in if f.more then rest else some f
