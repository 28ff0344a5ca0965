-- ===== src/Async/Tests.antt =====
-- Small runs of the asynchronous endpoint, with TDs of at most 100 bytes.
use os_x_generic_usb.Base.{
  ◌⊎◌, ℕ, ◌≡◌, inl, inr, refl, List, [], ◌∷◌, ◌++◌, some, true, false, arith,
}
use os_x_generic_usb.Async.{
  Td, blank_td, Endpoint, Commands, Completed, flush_tds, abort, complete_list,
}
use os_x_generic_usb.Async.Queues.{Split, flush_tds-Split}
use os_x_generic_usb.Async.Abort.{HaveCommands, num_tds, abort_empties}
use os_x_generic_usb.Async.Create.{Request}
use os_x_generic_usb.Async.Create.Pieces.{IsPiece, Pieces}
use os_x_generic_usb.Async.Timeouts.{Timers, Progress, check_timeouts}
use os_x_generic_usb.Async.Timeouts.Laws.{CompletionOverdue, StoodStill, check_timeouts_exactly}
use os_x_generic_usb.Async.Shortfall.{complete_list-Pieces}

abbrev td_of : ℕ → ℕ → Td
td_of command index = record blank_td { command = command; last_trb_index = index }

-- Two commands are scheduled, the first with two TDs, and a third TD of it is queued.
abbrev sample_endpoint : Endpoint
sample_endpoint = record {
  queued = td_of 5 0 ∷ [];
  scheduled = td_of 5 3 ∷ td_of 5 6 ∷ td_of 7 9 ∷ [];
  done = [];
  num_free = 0;
  aborting = false;
  max_packet_size = 10;
  max_burst = 0;
  multiple = 0;
  max_td_bytes = 100;
}

abbrev sample_commands : Commands
sample_commands = record { scratch = λ q. 0; has_action = λ q. true }

flush_tds-Split_example :
    let e' = (flush_tds 256 sample_endpoint 5 0).0 in
    (flushed : List Td) × Split 5 sample_endpoint.scheduled flushed e'.scheduled
    × (e'.done ≡ [] ++ flushed)
    × (e'.queued ≡ sample_endpoint.queued)
flush_tds-Split_example = flush_tds-Split 256 sample_endpoint 5 0 (omega arith)

abort_empties_example :
    (d : Endpoint) × (out : Commands × List Completed) × (abort 4 256 sample_commands
        sample_endpoint
      ≡ some (d, out))
    × (d.scheduled ≡ [])
    × (d.done ≡ [])
    × (d.aborting ≡ false)
    × (num_tds d ≡ 4)
unfolding HaveCommands
abort_empties_example =
    abort_empties 4 256 sample_commands sample_endpoint
      (omega arith, (omega arith, (omega arith, tt))) (omega arith)

-- A bulk request of 250 bytes.
abbrev sample_request : Request
sample_request = record {
  command = 5;
  req_count = 250;
  has_memory = true;
  stream_id = 0;
  mystery = 0;
  immediate_data_size = 255;
  immediate_data = [];
}

-- The two TDs of a request of 150 bytes.
abbrev first_piece : Td
first_piece = record blank_td {
  command = 5;
  bytes_this_td = 100;
  bytes_following_this_td = 50;
  shortfall = 100;
  interrupt_this_td = true;
}

abbrev last_piece : Td
last_piece = record blank_td {
  command = 5;
  bytes_this_td = 50;
  bytes_preceeding_this_td = 100;
  shortfall = 50;
  interrupt_this_td = true;
  final_td_in_transaction = true;
}

first_piece-IsPiece : IsPiece 5 150 100 0 first_piece
first_piece-IsPiece = record {
  of_command = refl;
  preceeding = refl;
  bounded = omega arith;
  following = refl;
  nothing_done = refl;
  relative = refl;
}

last_piece-IsPiece : IsPiece 5 150 100 100 last_piece
last_piece-IsPiece = record {
  of_command = refl;
  preceeding = refl;
  bounded = omega arith;
  following = refl;
  nothing_done = refl;
  relative = refl;
}

complete_list-Pieces_example :
    (complete_list 3 sample_commands (first_piece ∷ last_piece ∷ [])).1
    ≡ record { command = 5; status = 3; shortfall = 150 } ∷ []
unfolding Pieces
complete_list-Pieces_example =
    complete_list-Pieces 5 150 100 0 3 (first_piece ∷ last_piece ∷ []) sample_commands
      (first_piece-IsPiece, inr (refl, (last_piece-IsPiece, inl (refl, refl, refl, refl, refl))))
      refl refl (omega arith)

-- A command that is seen for more than its 10 frames.
abbrev slow_timers : Timers
slow_timers = record {
  no_data_timeout = 0;
  completion_timeout = 10;
  stopped_at = 0;
  stopped_short = 0;
  first_seen = 100;
  progress_frame = 0;
}

abbrev no_progress : Progress
no_progress = record { index = 3; shortfall = 100; absolute = false }

check_timeouts_exactly_example :
    ((check_timeouts slow_timers first_piece no_progress 200).returned ≡ true
      → CompletionOverdue slow_timers 200 ⊎ StoodStill slow_timers no_progress 200)
    × (CompletionOverdue slow_timers 200 ⊎ StoodStill slow_timers no_progress 200
        → (check_timeouts slow_timers first_piece no_progress 200).returned ≡ true)
check_timeouts_exactly_example = check_timeouts_exactly slow_timers first_piece no_progress 200
