-- ===== src/Async/Timeouts/Laws.antt =====
-- When the tests of the timeouts return a transfer.
use os_x_generic_usb.Base.{
  ℕ, ◌<◌, ◌/◌, ◌^◌, ◌≡◌, ◌⊎◌, inl, inr, true, arith, sub32, field, if◌then◌else◌,
}
use os_x_generic_usb.Async.{Td}
use os_x_generic_usb.Async.Timeouts.{
  Timers, Progress, completion_overdue, has_moved, data_overdue, check_data, check_timeouts,
}

-- The completion timeout is set, the frame number is known, and more frames than that have passed since
-- the frame in which the command was seen first.
abbrev pub CompletionOverdue : Timers → ℕ → Type 0
CompletionOverdue k frame =
    (0 < k.completion_timeout)
    × (0 < frame)
    × (0 < k.first_seen)
    × (k.completion_timeout < sub32 frame k.first_seen)

-- The no-data timeout is set, the frame number is known, progress was noted in some frame, more frames
-- than the timeout have passed since, and the endpoint is where it was then: at the same index, with
-- the same shortfall, absolute or not.
abbrev pub StoodStill : Timers → Progress → ℕ → Type 0
StoodStill k p frame =
    (0 < k.no_data_timeout)
    × (0 < frame)
    × (0 < k.progress_frame)
    × (k.no_data_timeout < sub32 frame k.progress_frame)
    × (k.stopped_at ≡ p.index)
    × (field 0 31 k.stopped_short ≡ p.shortfall)
    × (k.stopped_short / 2 ^ 31 ≡ (if p.absolute then 1 else 0))

-- The tests of the timeouts return a TD exactly if its completion timeout is set, the frame number is
-- known and more frames than the timeout have passed since the frame in which its command was seen
-- first, or if its no-data timeout is set and more frames than that have passed since the last
-- progress that was noted, where the endpoint still is: at that index with that shortfall, absolute or
-- not as then.
pub check_timeouts_exactly :
    (k : Timers) (t : Td) (p : Progress) (frame : ℕ)
    → ((check_timeouts k t p frame).returned ≡ true
        → CompletionOverdue k frame ⊎ StoodStill k p frame)
      × (CompletionOverdue k frame ⊎ StoodStill k p frame
          → (check_timeouts k t p frame).returned ≡ true)
unfolding check_timeouts check_data completion_overdue has_moved data_overdue
check_timeouts_exactly k t p frame =
    (λ h. ground (arith, h), λ h. elim h [ inl c ↦ ground (arith, c) | inr d ↦ ground (arith, d) ])
