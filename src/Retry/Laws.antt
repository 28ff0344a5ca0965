-- ===== src/Retry/Laws.antt =====
-- How often an error is retried, and what a TRB's buffer may be.
use os_x_generic_usb.Base.{
  ℕ, zero, suc, ◌+◌, ◌-◌, ◌%◌, ◌^◌, ◌<◌, ◌≤◌, ◌≡◌, ◌≢◌, some, true, arith, ◌==◌,
}
use os_x_generic_usb.Trb.{Trb, set_trb_addr64}
use os_x_generic_usb.Retry.{
  SoftRetries, do_soft_retries, after_errors, Segment, success, segment_bytes,
  generate_next_physical_segment,
}

-- The record after the first and `n` more errors.
counted :
    (n : ℕ) (s : SoftRetries) (trb_shortfall trb_addr : ℕ)
    → s.addr ≢ trb_addr
    → trb_shortfall ≢ 0
    → n < 2 ^ 32 - 1
    → let d = after_errors (suc n) s trb_shortfall trb_addr in
      (d.addr ≡ trb_addr) × (d.shortfall ≡ trb_shortfall) × (d.count ≡ n + 1)
unfolding after_errors do_soft_retries
counted zero s trb_shortfall trb_addr ne nz small = ground arith
counted (suc n) s trb_shortfall trb_addr ne nz small =
    let before = counted n s trb_shortfall trb_addr ne nz (omega arith) in
    ground (arith, before.0, before.1, before.2)

-- DoSoftRetries for errors at one TRB with a shortfall that is not 0, after errors at another one: the
-- second error is retried like the first, and none of the later ones, up to the 2 ^ 32 - 2-th.
pub do_soft_retries_limited :
    (n : ℕ) (s : SoftRetries) (trb_shortfall trb_addr : ℕ)
    → s.addr ≢ trb_addr
    → trb_shortfall ≢ 0
    → n < 2 ^ 32 - 2
    → let d = after_errors (suc n) s trb_shortfall trb_addr in
      (do_soft_retries d trb_shortfall trb_addr).0 ≡ (n == 0)
unfolding do_soft_retries
do_soft_retries_limited n s trb_shortfall trb_addr ne nz small =
    let before = counted n s trb_shortfall trb_addr ne nz (omega arith) in
    ground (arith, before.0, before.1, before.2)

first_retried :
    (s : SoftRetries) (trb_addr : ℕ)
    → s.addr ≢ trb_addr
    → (do_soft_retries (after_errors zero s 0 trb_addr) 0 trb_addr).0 ≡ true
unfolding do_soft_retries after_errors
first_retried s trb_addr ne = ground arith

zero_kept :
    (n : ℕ) (s : SoftRetries) (trb_addr : ℕ)
    → s.addr ≢ trb_addr
    → let d = after_errors (suc n) s 0 trb_addr in (d.addr ≡ trb_addr) × (d.shortfall ≡ 0)
unfolding after_errors do_soft_retries
zero_kept zero s trb_addr ne = ground arith
zero_kept (suc n) s trb_addr ne =
    let before = zero_kept n s trb_addr ne in ground (arith, before.0, before.1)

-- Errors at one TRB whose shortfall is 0, after errors at another one, are retried without limit.
pub do_soft_retries_unlimited :
    (n : ℕ) (s : SoftRetries) (trb_addr : ℕ)
    → s.addr ≢ trb_addr
    → (do_soft_retries (after_errors n s 0 trb_addr) 0 trb_addr).0 ≡ true
unfolding do_soft_retries
do_soft_retries_unlimited zero s trb_addr ne = first_retried s trb_addr ne
do_soft_retries_unlimited (suc n) s trb_addr ne =
    let before = zero_kept n s trb_addr ne in ground (arith, before.0, before.1)

-- A TRB that GenerateNextPhysicalSegment fills in, for at least one byte and from a segment shorter than
-- 2 ^ 32, points to the segment; its bytes are no more than those asked for, at least one unless the
-- segment is empty, and none of them is behind the segment's end or behind the next multiple of 2 ^ 16.
pub generate_next_physical_segment-success :
    (seg : Segment) (t u : Trb) (bytes done : ℕ)
    → 0 < bytes
    → seg.length < 2 ^ 32
    → generate_next_physical_segment (some seg) t bytes ≡ success u done
    → (u ≡ set_trb_addr64 t seg.addr)
      × (done ≤ bytes)
      × (done ≤ seg.length)
      × (seg.addr % 2 ^ 16 + done ≤ 2 ^ 16)
      × (0 < seg.length → 0 < done)
unfolding generate_next_physical_segment segment_bytes
generate_next_physical_segment-success seg t u bytes done some_bytes small h = ground (arith, h)
