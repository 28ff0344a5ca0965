-- ===== src/Async.antt =====
-- Async.cpp: the asynchronous endpoint, which splits a request into transfer descriptors (TDs) and
-- moves them from queue to queue. A queue is a list of TDs here; how the linked queues of the source
-- hold such lists is in Links. A free TD has no content that matters, so the free queue is its
-- length.
pub mod Queues
pub mod Abort
pub mod Create
pub mod Shortfall
pub mod Timeouts
mod Tests
use os_x_generic_usb.Base.{
  ℕ, zero, suc, ◌+◌, ◌-◌, ◌*◌, ◌/◌, ◌%◌, ◌^◌, List, [], ◌∷◌, ◌++◌, Option, none, some, Bool, true,
  false, not, ◌&&◌, ◌||◌, ltb, leb, ◌==◌, u16, u32, length, if◌then◌else◌,
}

-- `XHCIAsyncTD` without the links. `command` is the command's address, 0 for none.
pub record Td : Type 0 where
  pub command : ℕ
  pub bytes_this_td : ℕ
  pub bytes_following_this_td : ℕ
  pub bytes_preceeding_this_td : ℕ
  pub first_trb_index : ℕ
  pub trb_count : ℕ
  pub interrupt_this_td : Bool
  pub multi_td_transaction : Bool
  pub num_tds_this_transaction : ℕ
  pub mystery : ℕ
  pub shortfall : ℕ
  pub max_num_pages_in_td : ℕ
  pub have_immediate_data : Bool
  pub final_td_in_transaction : Bool
  pub immediate_data : List ℕ
  pub stream_id : ℕ
  pub last_trb_index : ℕ
  pub absolute_shortfall : Bool

-- What reinit and ForEndpoint give.
abbrev pub blank_td : Td
blank_td = record {
  command = 0;
  bytes_this_td = 0;
  bytes_following_this_td = 0;
  bytes_preceeding_this_td = 0;
  first_trb_index = 0;
  trb_count = 0;
  interrupt_this_td = false;
  multi_td_transaction = false;
  num_tds_this_transaction = 0;
  mystery = 0;
  shortfall = 0;
  max_num_pages_in_td = 0;
  have_immediate_data = false;
  final_td_in_transaction = false;
  immediate_data = 0 ∷ 0 ∷ 0 ∷ 0 ∷ 0 ∷ 0 ∷ 0 ∷ 0 ∷ [];
  stream_id = 0;
  last_trb_index = 0;
  absolute_shortfall = false;
}

pub record Endpoint : Type 0 where
  pub queued : List Td
  pub scheduled : List Td
  pub done : List Td
  pub num_free : ℕ
  pub aborting : Bool
  pub max_packet_size : ℕ
  pub max_burst : ℕ
  pub multiple : ℕ
  pub max_td_bytes : ℕ

abbrev pub max_fragment_size : ℕ
max_fragment_size = 2 ^ 17

-- Max Burst Payload times the multiple, in 32 bits.
unfoldable pub mbp_multiple : ℕ → ℕ → ℕ → ℕ
mbp_multiple max_packet_size max_burst multiple =
    u32 (u32 (max_packet_size * u32 (1 + max_burst)) * u32 (1 + multiple))

unfoldable pub set_parameters : Endpoint → ℕ → ℕ → ℕ → Endpoint
set_parameters e max_packet_size max_burst multiple =
    let mbp = mbp_multiple max_packet_size max_burst multiple in
    record e {
      max_packet_size = max_packet_size;
      max_burst = max_burst;
      multiple = multiple;
      max_td_bytes =
          if not (mbp == 0) && ltb mbp max_fragment_size
          then max_fragment_size - max_fragment_size % mbp
          else max_fragment_size;
    }

-- What the endpoint uses of commands: the scratch word 9, by command, and which commands have a
-- completion action.
pub record Commands : Type 0 where
  pub scratch : ℕ → ℕ
  pub has_action : ℕ → Bool

abbrev pub set_scratch : Commands → ℕ → ℕ → Commands
set_scratch cs c v = record cs { scratch = λ q. if q == c then v else cs.scratch q }

-- A call of the completer's AddItem.
pub record Completed : Type 0 where
  pub command : ℕ
  pub status : ℕ
  pub shortfall : ℕ

-- The index after a TD's last TRB, as FlushTDs computes it for a ring of `num_trbs` TRBs.
unfoldable pub index_after : ℕ → Td → ℕ
index_after num_trbs t =
    if leb (num_trbs - 1) (t.last_trb_index + 1) then 0 else t.last_trb_index + 1

abbrev pub is_empty : List Td → Bool
is_empty [] = true
is_empty (t ∷ ts) = false

-- `kIOReturnSuccess` and `kIOReturnAborted`.
abbrev pub success : ℕ
success = 0

abbrev pub aborted : ℕ
aborted = 0xe00002eb

-- The loop of FlushTDs over the scheduled queue: what goes to the done queue, and what is left.
unfoldable pub split_command : ℕ → List Td → List Td × List Td
split_command command [] = ([], [])
split_command command (t ∷ ts) =
    let (flushed, kept) = split_command command ts in
    if t.command == command then (t ∷ flushed, kept) else ([], t ∷ ts)

-- The arguments that FlushTDs passes to SetTRDQPtr, by the last TD that it flushed.
unfoldable pub dequeue_target : ℕ → List Td → Option (ℕ × ℕ)
dequeue_target num_trbs [] = none
dequeue_target num_trbs (t ∷ []) = some (t.stream_id, index_after num_trbs t)
dequeue_target num_trbs (t ∷ u ∷ ts) = dequeue_target num_trbs (u ∷ ts)

-- FlushTDs, with the call of SetTRDQPtr that it makes. The option is 0, 1 or 2.
unfoldable pub flush_tds : ℕ → Endpoint → ℕ → ℕ → Endpoint × Option (ℕ × ℕ)
flush_tds num_trbs e command option =
    let (flushed, kept) = split_command command e.scheduled in
    let e' : Endpoint = record e { scheduled = kept; done = e.done ++ flushed } in
    let silent = option == 0 || (option == 1 && not (is_empty kept)) in
    if command == 0
    then (e, none)
    else (e', if silent then none else dequeue_target num_trbs flushed)

unfoldable pub move_tds_from_ready_q_to_done_q : Endpoint → ℕ → Endpoint
move_tds_from_ready_q_to_done_q e command =
    let (moved, kept) = split_command command e.queued in
    if command == 0
    then record e { queued = []; done = e.done ++ e.queued }
    else record e { queued = kept; done = e.done ++ moved }

unfoldable pub move_all_tds_from_ready_q_to_done_q : Endpoint → Endpoint
move_all_tds_from_ready_q_to_done_q e = record e { queued = []; done = e.done ++ e.queued }

-- The scratch word after a TD of the done queue is added to it.
unfoldable pub add_shortfall : Commands → Td → Commands
add_shortfall cs t =
    set_scratch cs t.command
      (if t.absolute_shortfall then t.shortfall else u32 (cs.scratch t.command + t.shortfall))

-- The completion that Complete reports with a TD.
unfoldable pub report : ℕ → Commands → Td → List Completed
report status cs t =
    if t.interrupt_this_td && t.final_td_in_transaction && cs.has_action t.command
    then record { command = t.command; status = status; shortfall = cs.scratch t.command } ∷ []
    else []

unfoldable pub complete_list : ℕ → Commands → List Td → Commands × List Completed
complete_list status cs [] = (cs, [])
complete_list status cs (t ∷ ts) =
    let cs1 = add_shortfall cs t in
    let (cs2, later) = complete_list status cs1 ts in (cs2, report status cs1 t ++ later)

-- Complete, with the calls of AddItem in their order.
unfoldable pub complete : ℕ → Commands → Endpoint → Endpoint × (Commands × List Completed)
complete status cs e =
    (record e { done = []; num_free = e.num_free + length e.done }, complete_list status cs e.done)

unfoldable pub skip_td : Td → Option (List Td × (Td × List Td)) → Option (List Td × (Td × List Td))
skip_td u none = none
skip_td u (some (before, (t, after))) = some (u ∷ before, (t, after))

-- The search of GetTDFromActiveQueueWithIndex: the TDs before the one whose last TRB is at the index,
-- that one, and those after it.
unfoldable pub find_td : ℕ → List Td → Option (List Td × (Td × List Td))
find_td index [] = none
find_td index (t ∷ ts) =
    if t.last_trb_index == index then some ([], (t, ts)) else skip_td t (find_td index ts)

-- What GetTDFromActiveQueueWithIndex returns and does.
unfoldable pub get_td_from_active_queue_with_index :
    Commands → Endpoint → ℕ → Option (Td × (Endpoint × (Commands × List Completed)))
get_td_from_active_queue_with_index cs e index = elim (find_td index e.scheduled) [
  | none ↦ none
  | some (orphans, (t, rest)) ↦
      let e' : Endpoint = record e { scheduled = rest; done = e.done ++ orphans } in
      some (t, (if is_empty orphans then (e', (cs, [])) else complete success cs e'))
]

-- The loop of Abort, with fuel.
unfoldable pub abort_loop : ℕ → ℕ → Endpoint → Option Endpoint
abort_loop zero num_trbs e = none
abort_loop (suc fuel) num_trbs e = elim e.scheduled [
  | [] ↦ some e
  | t ∷ ts ↦
      abort_loop fuel num_trbs
        (move_tds_from_ready_q_to_done_q (flush_tds num_trbs e t.command 0).0 t.command)
]

-- Abort. The flag `returnInProgress` of the ring, set for as long, is left out.
unfoldable pub abort : ℕ → ℕ → Commands → Endpoint → Option (Endpoint × (Commands × List Completed))
abort fuel num_trbs cs e = elim (abort_loop fuel num_trbs (record e { aborting = true })) [
  | none ↦ none
  | some e' ↦
      let e'' : Endpoint = record e' { aborting = false } in
      some (if is_empty e''.done then (e'', (cs, [])) else complete aborted cs e'')
]
