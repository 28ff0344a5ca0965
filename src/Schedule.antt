-- ===== src/Schedule.antt =====
-- ScheduleTDs and RetireTDs of Async.cpp and CreateTransfer of Transfers.cpp: how TDs get from the queue
-- onto the transfer ring, and from there to their completion.
pub mod Order
pub mod Retire
mod Tests
use os_x_generic_usb.Base.{
  ℕ, zero, suc, ◌+◌, ◌-◌, ◌*◌, List, [], ◌∷◌, ◌++◌, Option, none, some, Bool, true, false, not,
  ◌&&◌, ◌||◌, ◌==◌, leb, ltb, u32, if◌then◌else◌,
}
use os_x_generic_usb.Ring.{Ring}
use os_x_generic_usb.Ring.Fragment.{can_td_fragment_fit}
use os_x_generic_usb.Retry.{Segment}
use os_x_generic_usb.Layout.{TransferPlan, Work}
use os_x_generic_usb.Layout.Finish.{TransferResult, created, refused, create_transfer}
use os_x_generic_usb.Dequeue.{EpState, disabled, running, halted, stopped, error}
use os_x_generic_usb.Async.{
  Td, Endpoint, Commands, Completed, is_empty, flush_tds, move_tds_from_ready_q_to_done_q, complete,
}

-- What the asynchronous endpoint asks of the controller's part of the driver, whose state is `C`:
-- StartEndpoint for a stream, QuiesceEndpoint, SetTRDQPtr for a stream and an index, RestartStreams for
-- all streams but one, and the endpoint's state in the slot context.
pub record Control (C : Type 0) : Type 0 where
  pub start_endpoint : C → ℕ → C
  pub quiesce_endpoint : C → C
  pub set_trdq_ptr : C → Ring → ℕ → ℕ → C × Ring
  pub restart_streams : C → ℕ → C
  pub ep_state : C → EpState

-- What _createTransfer reads of the endpoint's context, the endpoint's number, whether GetRing finds
-- the endpoint's ring, and the segments of the commands' buffers.
pub record Context : Type 0 where
  pub max_packet_size : ℕ
  pub max_burst : ℕ
  pub multiple : ℕ
  pub endpoint : ℕ
  pub ring_found : Bool
  pub dma : ℕ → ℕ → Option Segment

-- An endpoint with its ring. `layout_errors` is the counter DIAGCTR_XFERLAYOUT; DIAGCTR_XFERKEEPAWAY,
-- which counts only if logging is on, is left out.
pub record Pipe (C : Type 0) : Type 0 where
  pub ring : Ring
  pub endpoint : Endpoint
  pub control : C
  pub commands : Commands
  pub completed : List Completed
  pub return_in_progress : Bool
  pub needs_doorbell : Bool
  pub layout_errors : ℕ

-- The arguments that ScheduleTDs passes for a TD.
unfoldable pub plan_for : Context → Td → TransferPlan
plan_for x t = record {
  is_isoch = false;
  bytes = t.bytes_this_td;
  mystery = t.mystery;
  offset = t.bytes_preceeding_this_td;
  interrupt_needed = t.interrupt_this_td;
  multi_td_transaction = t.multi_td_transaction;
  final_td_in_transaction = t.final_td_in_transaction;
  bytes_following = t.bytes_following_this_td;
  bytes_preceeding = t.bytes_preceeding_this_td;
  immediate = if t.have_immediate_data then some t.immediate_data else none;
  max_packet_size = x.max_packet_size;
  max_burst = x.max_burst;
  multiple = x.multiple;
  endpoint = x.endpoint;
  ring_found = x.ring_found;
}

-- What _createTransfer stores in the TD; without a first TRB the index is UINT32_MAX.
unfoldable pub with_trbs : Td → Work → Td
with_trbs t w = record t {
  first_trb_index = elim w.first [ none ↦ 4294967295 | some f ↦ f ];
  trb_count = w.count;
  last_trb_index = w.last_index;
}

module _ {C : Type 0} (ctl : Control C) (x : Context) where
  -- The doorbell is rung, or left to whoever returns the transfers.
  unfoldable pub ring_doorbell : Pipe C → Td → Pipe C
  ring_doorbell s t =
      if s.return_in_progress
      then record s { needs_doorbell = true }
      else record s { control = ctl.start_endpoint s.control t.stream_id }

  -- A TD that _createTransfer laid out.
  unfoldable pub scheduled_td : Pipe C → Td → Work → Pipe C
  scheduled_td s t w =
      let e = s.endpoint in
      let t' = with_trbs t w in
      ring_doorbell
        (record s { ring = w.ring; endpoint = record e { scheduled = e.scheduled ++ t' ∷ [] } }) t

  abbrev pub set_queue : Pipe C → List Td → Pipe C
  set_queue s ts = let e = s.endpoint in record s { endpoint = record e { queued = ts } }

  -- The loop of ScheduleTDs, over the queue; `none` if the fuel that it gives to _createTransfer is
  -- not enough.
  unfoldable pub schedule_queued : Pipe C → List Td → Option (Pipe C)
  schedule_queued s [] = some (set_queue s [])
  schedule_queued s (t ∷ ts) =
      let laid_out =
        create_transfer (suc t.bytes_this_td) (suc s.ring.num_trbs) (x.dma t.command) (plan_for x t)
          s.ring in
      let next : Option (Pipe C) = elim laid_out [
        | none ↦ none
        | some (refused e r) ↦
            some (record (set_queue s (t ∷ ts)) {
              ring = r;
              layout_errors = u32 (s.layout_errors + 1);
            })
        | some (created w) ↦ schedule_queued (scheduled_td s t w) ts
      ] in
      if can_td_fragment_fit s.ring s.endpoint.max_td_bytes
      then next
      else some (set_queue s (t ∷ ts))

  unfoldable pub schedule_tds : Pipe C → Option (Pipe C)
  schedule_tds s =
      if is_empty s.endpoint.queued
      then some s
      else if s.endpoint.aborting
      then some (if s.return_in_progress then record s { needs_doorbell = true } else s)
      else schedule_queued s s.endpoint.queued

  -- FlushTDs and MoveTDsFromReadyQToDoneQ for a command.
  unfoldable pub flush_command : Pipe C → ℕ → ℕ → Pipe C
  flush_command s command option =
      let (e, call) = flush_tds s.ring.num_trbs s.endpoint command option in
      let moved : Pipe C = record s { endpoint = move_tds_from_ready_q_to_done_q e command } in
      elim call [
        | none ↦ moved
        | some (stream, index) ↦
            let (c, r) = ctl.set_trdq_ptr s.control s.ring stream index in
            record moved { control = c; ring = r }
      ]

  -- The flush of RetireTDs while the endpoint runs: the chain is broken if nothing is scheduled.
  unfoldable pub flush_running : Pipe C → Td → Pipe C
  flush_running s t =
      let s' : Pipe C = flush_command s t.command 0 in
      let (c, r) =
        ctl.set_trdq_ptr (ctl.quiesce_endpoint s'.control) s'.ring t.stream_id
          s'.ring.enqueue_index in
      let c' = if t.stream_id == 0 then c else ctl.restart_streams c t.stream_id in
      if is_empty s'.endpoint.scheduled then record s' { control = c'; ring = r } else s'

  -- The flush of RetireTDs for a stopped endpoint.
  unfoldable pub flush_stopped : Pipe C → Td → Pipe C
  flush_stopped s t =
      let s' : Pipe C = flush_command s t.command 2 in
      if not (t.stream_id == 0)
      then record s' { control = ctl.restart_streams s'.control 0 }
      else if is_empty s'.endpoint.scheduled
      then s'
      else record s' { control = ctl.start_endpoint s'.control 0 }

  -- The state after the flush, and whether TDs are to be scheduled again.
  unfoldable pub flush_by_state : Pipe C → Td → Pipe C × Bool
  flush_by_state s t = elim (ctl.ep_state s.control) [
    | running ↦ (flush_running s t, true)
    | stopped ↦ (flush_stopped s t, true)
    | disabled ↦ (flush_command s t.command 0, false)
    | halted ↦ (flush_command s t.command 0, false)
    | error ↦ (flush_command s t.command 0, false)
  ]

  unfoldable pub complete_pipe : Pipe C → ℕ → Pipe C
  complete_pipe s status =
      let (e, (cs, reports)) = complete status s.commands s.endpoint in
      record s { endpoint = e; commands = cs; completed = s.completed ++ reports }

  -- RetireTDs for a TD that is in no queue any more.
  unfoldable pub retire_tds : Pipe C → Td → ℕ → Bool → Bool → Option (Pipe C)
  retire_tds s t status call_completion flush =
      let e = s.endpoint in
      let put : Pipe C = record s { endpoint = record e { done = e.done ++ t ∷ [] } } in
      let (flushed, reschedule) = if flush then flush_by_state put t else (put, true) in
      let told = if call_completion then complete_pipe flushed status else flushed in
      if reschedule then schedule_tds told else some told
