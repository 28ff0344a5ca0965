-- ===== src/Retry.antt =====
-- DoSoftRetries and GenerateNextPhysicalSegment of Transfers.cpp.
pub mod Laws
mod Tests
use os_x_generic_usb.Base.{
  ℕ, zero, suc, ◌+◌, ◌-◌, ◌%◌, ◌^◌, Option, none, some, Bool, true, false, not, ◌==◌, ltb, u16, u32,
  if◌then◌else◌,
}
use os_x_generic_usb.Trb.{Trb, set_trb_addr64}

-- `softRetries` of `ringStruct`.
pub record SoftRetries : Type 0 where
  pub addr : ℕ
  pub shortfall : ℕ
  pub count : ℕ

-- DoSoftRetries on a ring: whether it restarts the endpoint, which it resets then.
unfoldable pub do_soft_retries : SoftRetries → ℕ → ℕ → Bool × SoftRetries
do_soft_retries s trb_shortfall trb_addr =
    if not (s.addr == trb_addr)
    then (true, record { addr = trb_addr; shortfall = trb_shortfall; count = 1 })
    else if s.shortfall == 0
    then (true, record { addr = trb_addr; shortfall = 0; count = 1 })
    else (not (ltb 2 (u32 (s.count + 1))), record s { count = u32 (s.count + 1) })

-- `n` errors at the same TRB.
unfoldable pub after_errors : ℕ → SoftRetries → ℕ → ℕ → SoftRetries
after_errors zero s trb_shortfall trb_addr = s
after_errors (suc n) s trb_shortfall trb_addr =
    (do_soft_retries (after_errors n s trb_shortfall trb_addr) trb_shortfall trb_addr).1

-- What `genIOVMSegments` answers to a request for one segment.
pub record Segment : Type 0 where
  pub num_segments : ℕ
  pub addr : ℕ
  pub length : ℕ

pub data SegmentResult : Type 0 where
  success : Trb → ℕ → SegmentResult
  dma_error internal_error : SegmentResult

-- The bytes of a segment that one TRB may have: as far as the next multiple of 2 ^ 16.
unfoldable pub segment_bytes : Segment → ℕ
segment_bytes seg =
    let room = 2 ^ 16 - u16 seg.addr in if ltb seg.length room then u32 seg.length else room

-- GenerateNextPhysicalSegment for a TRB that is to have `bytes` bytes: the TRB and its bytes.
unfoldable pub generate_next_physical_segment : Option Segment → Trb → ℕ → SegmentResult
generate_next_physical_segment answer t bytes = if bytes == 0 then success t 0 else elim answer [
  | none ↦ dma_error
  | some seg ↦
      if not (seg.num_segments == 1)
      then internal_error
      else success (set_trb_addr64 t seg.addr)
          (if ltb (segment_bytes seg) bytes then segment_bytes seg else bytes)
]
