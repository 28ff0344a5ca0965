-- ===== src/Endpoints.antt =====
-- Endpoints.cpp: the parameters and the context with which an endpoint is created, and the commands that
-- start, stop and reset it.
pub mod Interval
pub mod Context
pub mod Laws
pub mod OnRing
mod Tests
use os_x_generic_usb.Base.{
  ℕ, zero, suc, ◌+◌, ◌-◌, ◌*◌, ◌/◌, ◌%◌, ◌^◌, List, [], ◌∷◌, ◌++◌, Option, none, some, Bool, true,
  false, not, ◌&&◌, ◌||◌, ◌==◌, leb, ltb, shifted, set_bit, u16, u32, u64, put_bit, if◌then◌else◌,
  ℤ, pos, negsuc, eqbℤ, ltbℤ,
}
use os_x_generic_usb.Trb.{Trb, zero_trb}
use os_x_generic_usb.Ring.{Ring}
use os_x_generic_usb.Command.Wait.{World, Hardware, wait_for_cmd}
use os_x_generic_usb.Dequeue.{EpState, disabled, running, halted, stopped, error, slot_and_endpoint}

-- `(2 * endpointNumber) | (direction ? 1 : 0)`, in 8 bits.
unfoldable pub translate_endpoint : ℕ → Bool → ℕ
translate_endpoint number is_in = (2 * number + (if is_in then 1 else 0)) % 256

-- The number of the highest bit that is set, and `__builtin_clz` of a 32-bit word that is not 0.
unfoldable pub log2 : ℕ → ℕ → ℕ
log2 zero n = 0
log2 (suc fuel) n = let rest = log2 fuel (n / 2) in if ltb n 2 then 0 else suc rest

unfoldable pub clz : ℕ → ℕ
clz n = 31 - log2 31 n

-- The exponent of the interval in microframes, by whether the device is faster than full speed, and by
-- the polling rate; `none` is refused.
unfoldable pub interval_exponent : Bool → ℤ → Option ℕ
interval_exponent true (pos rate) =
    some (if ltb 15 rate then 15 else if ltb 1 rate then rate - 1 else 0)
interval_exponent true (negsuc n) = some 0
interval_exponent false (pos rate) =
    let exponent = 34 - clz rate in
    if rate == 0 then none else some (if ltb 11 exponent then 11 else exponent)
interval_exponent false (negsuc n) = none

-- `kUSBMaxPipes`, and the endpoint types.
abbrev pub max_pipes : ℕ
max_pipes = 32

abbrev pub int_out_ep : ℕ
int_out_ep = 3

abbrev pub int_in_ep : ℕ
int_in_ep = 7

abbrev pub isoc_in_ep : ℕ
isoc_in_ep = 5

abbrev pub bulk_out_ep : ℕ
bulk_out_ep = 2

abbrev pub bulk_in_ep : ℕ
bulk_in_ep = 6

-- The arguments of CreateEndpoint.
pub record EndpointSpec : Type 0 where
  pub slot : ℕ
  pub endpoint : ℕ
  pub max_packet_size : ℕ
  pub interval : ℕ
  pub endpoint_type : ℕ
  pub max_stream : ℕ
  pub max_burst : ℕ
  pub multiple : ℕ

-- What CreateBulkEndpoint and CreateInterruptEndpoint do: they call CreateEndpoint, set the root hub's
-- polling rate, or return an error.
pub data Creation : Type 0 where
  creates : EndpointSpec → Creation
  root_hub_polled : ℕ → Creation
  no_slot bad_endpoint bad_rate : Creation

-- The endpoint's number, if it is one of a pipe other than the default one.
unfoldable pub with_endpoint : ℕ → Bool → (ℕ → Creation) → Creation
with_endpoint number is_in k =
    let endpoint = translate_endpoint number is_in in
    if ltb endpoint 2 || leb max_pipes endpoint then bad_endpoint else k endpoint

-- `get_slot_id` is GetSlotID, which returns 0 for an address that no slot has.
unfoldable pub create_bulk_endpoint : (ℕ → ℕ) → ℕ → ℕ → Bool → ℕ → ℕ → ℕ → Creation
create_bulk_endpoint get_slot_id function number is_in max_packet_size max_stream max_burst =
    let slot = get_slot_id function in
    if slot == 0
    then no_slot
    else with_endpoint number is_in (λ endpoint. creates (record {
      slot = slot;
      endpoint = endpoint;
      max_packet_size = max_packet_size;
      interval = 0;
      endpoint_type = if is_in then bulk_in_ep else bulk_out_ep;
      max_stream = max_stream;
      max_burst = max_burst;
      multiple = 0;
    }))

-- The root hub's polling rate.
unfoldable pub root_hub_rate : ℤ → ℕ
root_hub_rate (pos rate) = if ltb 15 rate then 4096 else if ltb 4 rate then 2 ^ (rate - 4) else 1
root_hub_rate (negsuc n) = 1

unfoldable pub create_interrupt_endpoint :
    (ℕ → ℕ) → Bool → ℕ → ℕ → Bool → Bool → ℕ → ℤ → ℕ → Creation
create_interrupt_endpoint get_slot_id is_root_hub function number is_in is_fast max_packet_size rate
      max_burst =
    let slot = get_slot_id function in
    if is_root_hub
    then root_hub_polled (root_hub_rate rate)
    else if function == 0 || slot == 0
    then no_slot
    else with_endpoint number is_in (λ endpoint. elim (interval_exponent is_fast rate) [
      | none ↦ bad_rate
      | some interval ↦ creates (record {
        slot = slot;
        endpoint = endpoint;
        max_packet_size = max_packet_size;
        interval = interval;
        endpoint_type = if is_in then int_in_ep else int_out_ep;
        max_stream = 0;
        max_burst = max_burst;
        multiple = 0;
      })
    ])

-- `(endpointType | CTRL_EP) == ISOC_IN_EP` and `INT_IN_EP`: the bit 2 is the direction.
unfoldable pub is_isoch_type : ℕ → Bool
is_isoch_type kind = set_bit 2 kind == isoc_in_ep

unfoldable pub is_interrupt_type : ℕ → Bool
is_interrupt_type kind = set_bit 2 kind == int_in_ep

-- `xhci_endp_ctx`: the words of an endpoint's context.
pub record EndpointContext : Type 0 where
  pub word_0 : ℕ
  pub word_1 : ℕ
  pub quad_2 : ℕ
  pub word_4 : ℕ

-- `__builtin_ctz` of a power of two.
unfoldable pub ctz : ℕ → ℕ
ctz n = log2 31 n

-- The context that CreateEndpoint writes for a ring.
unfoldable pub endpoint_context : EndpointSpec → Ring → EndpointContext
endpoint_context p r =
    let base = shifted 16 8 p.interval + shifted 8 2 p.multiple in
    let streams = shifted 15 1 1 + shifted 10 5 (ctz (p.max_stream + 1) - 1) in
    let errors = if is_isoch_type p.endpoint_type then 0 else shifted 1 2 3 in
    let addr = u64 (r.phys_addr + r.dequeue_index * 16) in
    let pointer = addr - addr % 16 in
    let periodic = is_isoch_type p.endpoint_type || is_interrupt_type p.endpoint_type in
    let payload = u32 (u32 (p.max_packet_size * (1 + p.max_burst)) * (1 + p.multiple)) in
    record {
      word_0 = if ltb 1 p.max_stream then base + streams else base;
      word_1 =
          errors
          + shifted 3 3 p.endpoint_type
          + shifted 8 8 p.max_burst
          + shifted 16 16 p.max_packet_size;
      quad_2 =
          if ltb 1 p.max_stream then pointer else pointer + (if r.cycle_state == 0 then 0 else 1);
      word_4 = shifted 0 16 p.max_packet_size + (if periodic then shifted 16 16 payload else 0);
    }

-- What CreateEndpoint returns for what WaitForCMD returns.
pub data CreateStatus : Type 0 where
  configured internal count_exceeded : CreateStatus

unfoldable pub create_status : ℤ → CreateStatus
create_status ret =
    if eqbℤ ret (negsuc 0)
    then internal
    else if ltbℤ (negsuc 999) ret
    then configured
    else if eqbℤ ret (negsuc 1006)
    then count_exceeded
    else internal

-- The word that StartEndpoint writes to the slot's doorbell.
unfoldable pub doorbell : ℕ → ℕ → ℕ
doorbell endpoint stream_id = u32 (u16 stream_id * 2 ^ 16) + endpoint % 256

-- `XHCI_TRB_TYPE_STOP_EP` and `XHCI_TRB_TYPE_RESET_EP`.
abbrev pub type_stop_ep : ℕ
type_stop_ep = 15

abbrev pub type_reset_ep : ℕ
type_reset_ep = 14

unfoldable pub stop_command : ℕ → ℕ → Bool → Trb
stop_command slot endpoint suspend = record zero_trb {
  d = put_bit 23 suspend (slot_and_endpoint slot endpoint);
}

unfoldable pub reset_command : ℕ → ℕ → Bool → Trb
reset_command slot endpoint tsp = record zero_trb {
  d = put_bit 9 tsp (slot_and_endpoint slot endpoint);
}

-- StopEndpoint, with whether the device needs a reset (Intel's code 196).
unfoldable pub stop_endpoint : Hardware → Bool → World → ℕ → ℕ → ℕ → Bool → World × Bool
stop_endpoint hw is_intel w cell slot endpoint suspend =
    let (w', ret) = wait_for_cmd hw (stop_command slot endpoint suspend) type_stop_ep cell w in
    (w', is_intel && eqbℤ ret (negsuc 1195))

unfoldable pub reset_endpoint : Hardware → World → ℕ → ℕ → ℕ → Bool → World
reset_endpoint hw w cell slot endpoint tsp =
    (wait_for_cmd hw (reset_command slot endpoint tsp) type_reset_ep cell w).0

-- QuiesceEndpoint with the state that it returns, and whether the device needs a reset; `before` and
-- `after` are the endpoint's states in the slot context at the start and after the stop.
unfoldable pub quiesce_endpoint :
    Hardware → Bool → EpState → EpState → World → ℕ → ℕ → ℕ → World × EpState × Bool
quiesce_endpoint hw is_intel running after w cell slot endpoint =
    let (stopped_world, needs_reset) = stop_endpoint hw is_intel w cell slot endpoint false in
    elim after [
      | halted ↦ (reset_endpoint hw stopped_world cell slot endpoint false, halted, needs_reset)
      | disabled ↦ (stopped_world, running, needs_reset)
      | running ↦ (stopped_world, running, needs_reset)
      | stopped ↦ (stopped_world, running, needs_reset)
      | error ↦ (stopped_world, running, needs_reset)
    ]
quiesce_endpoint hw is_intel halted after w cell slot endpoint =
    (reset_endpoint hw w cell slot endpoint false, halted, false)
quiesce_endpoint hw is_intel disabled after w cell slot endpoint = (w, disabled, false)
quiesce_endpoint hw is_intel stopped after w cell slot endpoint = (w, stopped, false)
quiesce_endpoint hw is_intel error after w cell slot endpoint = (w, error, false)
