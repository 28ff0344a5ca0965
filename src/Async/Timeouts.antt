-- ===== src/Async/Timeouts.antt =====
-- NeedTimeouts and UpdateTimeouts of Async.cpp: when a transfer that makes no progress is returned.
pub mod Laws
use os_x_generic_usb.Base.{
  ℕ, zero, suc, ◌+◌, ◌-◌, ◌*◌, ◌/◌, ◌%◌, ◌^◌, Option, none, some, Bool, true, false, not, ◌&&◌,
  ◌||◌, ◌==◌, ltb, leb, u32, sub32, field, has_bit, if◌then◌else◌, ℤ, pos, negsuc,
}
use os_x_generic_usb.Trb.{Trb, trb_error, get_trb_addr64, diff_trb_index}
use os_x_generic_usb.Ring.{Ring, trb_at, link_index, count_ring_to_ed}
use os_x_generic_usb.Async.{Td, index_after}

-- What the two functions use of a command: its two timeouts, and the scratch words 3 to 6.
pub record Timers : Type 0 where
  pub no_data_timeout : ℕ
  pub completion_timeout : ℕ
  -- Scratch word 3: where the ring stopped.
  pub stopped_at : ℕ
  -- Scratch word 4: the shortfall then, with the bit 31 for an absolute one.
  pub stopped_short : ℕ
  -- Scratch word 5: the frame in which the command was seen first.
  pub first_seen : ℕ
  -- Scratch word 6: the frame of the last progress.
  pub progress_frame : ℕ

-- NeedTimeouts for the first scheduled TD, if there is one, and its command's timers, if it has a
-- command.
unfoldable pub need_timeouts : Option (Td × Option Timers) → Bool × Option Timers
need_timeouts none = (true, none)
need_timeouts (some (t, none)) = (true, none)
need_timeouts (some (t, some k)) =
    let unused =
      not (t.stream_id == 0)
      || (leb k.completion_timeout k.no_data_timeout && not (k.completion_timeout == 0)) in
    let k' : Timers = if unused then record k { no_data_timeout = 0 } else k in
    (not (k'.no_data_timeout == 0) || not (k'.completion_timeout == 0), some k')

-- Where the endpoint stopped: the index, the shortfall, and whether that is an absolute one.
pub record Progress : Type 0 where
  pub index : ℕ
  pub shortfall : ℕ
  pub absolute : Bool

abbrev pub remainder : Trb → ℕ
remainder t = field 0 24 t.c

-- `XHCI_TRB_ERROR_LENGTH`.
abbrev pub error_length : ℕ
error_length = 27

-- The stop TRB is an event-data TRB.
unfoldable pub from_event_data : Bool → Td → Trb → ℕ → Progress
from_event_data absolute_edtla t stop i =
    let short = sub32 t.bytes_this_td (remainder stop) in
    record {
      index = i;
      shortfall = if absolute_edtla then u32 (short + t.bytes_preceeding_this_td) else short;
      absolute = absolute_edtla;
    }

-- The shortfall that CountRingToED begins with.
unfoldable pub stopped_shortfall : Ring → Trb → ℕ → ℕ
stopped_shortfall r stop i =
    if trb_error stop == error_length then field 0 17 (trb_at r i).c else remainder stop

unfoldable pub from_walk : ℕ → Ring → Trb → ℕ → Option Progress
from_walk fuel r stop i = elim (count_ring_to_ed fuel r i (stopped_shortfall r stop i)) [
  | none ↦ none
  | some (end, short) ↦ some (record { index = i; shortfall = short; absolute = false })
]

abbrev pub untouched : Ring → Td → Progress
untouched r t = record { index = r.dequeue_index; shortfall = t.bytes_this_td; absolute = false }

-- The progress at the index that the stop TRB names, which may be outside the ring.
unfoldable pub progress_at : ℕ → Bool → Ring → Td → Trb → ℤ → Option Progress
progress_at fuel absolute_edtla r t stop (negsuc n) = some (untouched r t)
progress_at fuel absolute_edtla r t stop (pos i) =
    let walked = from_walk fuel r stop i in
    if leb (link_index r) i
    then some (untouched r t)
    else if has_bit 2 stop.d
    then some (from_event_data absolute_edtla t stop i)
    else walked

unfoldable pub progress : ℕ → Bool → Ring → Td → Trb → Option Progress
progress fuel absolute_edtla r t stop =
    progress_at fuel absolute_edtla r t stop (diff_trb_index (get_trb_addr64 stop) r.phys_addr)

-- A TD with the shortfall that it is returned with.
abbrev pub with_shortfall : Td → ℕ → Bool → Td
with_shortfall t short absolute = record t { shortfall = short; absolute_shortfall = absolute }

-- What the tests of the timeouts leave: the timers, the TD, and whether it is returned.
pub record Verdict : Type 0 where
  pub timers : Timers
  pub td : Td
  pub returned : Bool

abbrev pub see_first : Timers → ℕ → Timers
see_first k frame = if k.first_seen == 0 then record k { first_seen = frame } else k

unfoldable pub completion_overdue : Timers → ℕ → Bool
completion_overdue k frame =
    not (k.completion_timeout == 0)
    && not (frame == 0)
    && ltb k.completion_timeout (sub32 frame k.first_seen)

-- The endpoint is not where it was at the last progress.
unfoldable pub has_moved : Timers → Progress → Bool
has_moved k p =
    k.progress_frame == 0
    || not (k.stopped_at == p.index)
    || not (field 0 31 k.stopped_short == p.shortfall)
    || not (k.stopped_short / 2 ^ 31 == (if p.absolute then 1 else 0))

abbrev pub note_progress : Timers → Progress → ℕ → Timers
note_progress k p frame = record k {
  stopped_at = u32 p.index;
  stopped_short = if p.absolute then field 0 31 p.shortfall + 2 ^ 31 else p.shortfall;
  progress_frame = frame;
}

unfoldable pub data_overdue : Timers → ℕ → Bool
data_overdue k frame = not (frame == 0) && ltb k.no_data_timeout (sub32 frame k.progress_frame)

-- The test of the timeout between two steps of progress.
unfoldable pub check_data : Verdict → Progress → ℕ → Verdict
check_data v p frame =
    let k = v.timers in
    if k.no_data_timeout == 0
    then v
    else if has_moved k p
    then record v { timers = note_progress k p frame }
    else if data_overdue k frame
    then record v {
      td = with_shortfall v.td (field 0 31 k.stopped_short) (not (k.stopped_short / 2 ^ 31 == 0));
      returned = true;
    }
    else v

unfoldable pub check_timeouts : Timers → Td → Progress → ℕ → Verdict
check_timeouts k t p frame =
    let k' = see_first k frame in
    let first : Verdict =
      if completion_overdue k' frame
      then record { timers = k'; td = with_shortfall t p.shortfall p.absolute; returned = true }
      else record { timers = k'; td = t; returned = false } in
    check_data first p frame

-- What UpdateTimeouts does with the first scheduled TD: the timers, and, if it takes the TD off the
-- scheduled queue, the TD with its return code and the index that SetTRDQPtr gets before RetireTDs.
pub data ReturnCode : Type 0 where
  transaction_timeout not_responding : ReturnCode

pub record Update : Type 0 where
  pub timers : Option Timers
  pub retired : Option (Td × (ReturnCode × ℕ))

unfoldable pub retire : Bool → Ring → Td → ReturnCode → Option (Td × (ReturnCode × ℕ))
retire needs_reset r t code =
    some (t, ((if needs_reset then not_responding else code), index_after r.num_trbs t))

abbrev pub update_from : Bool → Bool → Ring → Td → Option Timers → ℕ → Progress → Update
update_from abort_all needs_reset r t none frame p =
    if abort_all
    then record {
      timers = none;
      retired = retire needs_reset r (with_shortfall t p.shortfall p.absolute) not_responding;
    }
    else record { timers = none; retired = none }
update_from abort_all needs_reset r t (some k) frame p =
    let v = check_timeouts k t p frame in
    if abort_all
    then record {
      timers = some k;
      retired = retire needs_reset r (with_shortfall t p.shortfall p.absolute) not_responding;
    }
    else record {
      timers = some v.timers;
      retired = if v.returned then retire needs_reset r v.td transaction_timeout else none;
    }

-- UpdateTimeouts for the first scheduled TD, on the ring and its stop TRB; `none` means that the fuel of
-- CountRingToED ran out.
unfoldable pub update_timeouts :
    ℕ → Bool → Bool → Bool → Ring → Trb → Td → Option Timers → ℕ → Option Update
update_timeouts fuel absolute_edtla abort_all needs_reset r stop t k frame =
    elim (progress fuel absolute_edtla r t stop) [
      | none ↦ none
      | some p ↦ some (update_from abort_all needs_reset r t k frame p)
    ]
