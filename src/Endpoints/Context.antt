-- ===== src/Endpoints/Context.antt =====
-- The context of an endpoint says what was asked for.
use native.Mathlib.Nat.{mul-le-mul, two-pow-succ, one-le-pow, pow-le-pow_right}
use os_x_generic_usb.Base.{
  ℕ, zero, suc, ◌+◌, ◌-◌, ◌*◌, ◌/◌, ◌%◌, ◌^◌, ◌≤◌, ◌<◌, ◌≡◌, ◌≢◌, ◌⊎◌, ◌∙◌, inl, inr, refl, ap,
  arith, field, u32, ltb, ◌==◌, if◌then◌else◌, false, le→ltb,
}
use os_x_generic_usb.Ring.{Ring}
use os_x_generic_usb.Endpoints.{
  EndpointSpec, EndpointContext, endpoint_context, log2, ctz, is_isoch_type, is_interrupt_type,
}

-- The ranges of CreateEndpoint's arguments.
pub record InRange (p : EndpointSpec) : Type 0 where
  pub packet_size_in : p.max_packet_size ≤ 1024
  pub interval_in : p.interval ≤ 15
  pub type_in : p.endpoint_type ≤ 7
  pub burst_in : p.max_burst ≤ 15
  pub multiple_in : p.multiple ≤ 2

-- The types 1 and 5 are isochronous, out and in, and 3 and 7 are interrupt.
abbrev pub IsIsoch : EndpointSpec → Type 0
IsIsoch p = (p.endpoint_type ≡ 1) ⊎ (p.endpoint_type ≡ 5)

abbrev pub IsPeriodic : EndpointSpec → Type 0
IsPeriodic p = IsIsoch p ⊎ ((p.endpoint_type ≡ 3) ⊎ (p.endpoint_type ≡ 7))

-- What the controller reads in the context of an endpoint.
pub record Reads (p : EndpointSpec) (r : Ring) (c : EndpointContext) : Type 0 where
  pub interval_reads : field 16 8 c.word_0 ≡ p.interval
  pub multiple_reads : field 8 2 c.word_0 ≡ p.multiple
  pub type_reads : field 3 3 c.word_1 ≡ p.endpoint_type
  pub burst_reads : field 8 8 c.word_1 ≡ p.max_burst
  pub packet_size_reads : field 16 16 c.word_1 ≡ p.max_packet_size
  pub average_reads : field 0 16 c.word_4 ≡ p.max_packet_size
  pub pointer_reads : c.quad_2 - c.quad_2 % 16 ≡ r.phys_addr + r.dequeue_index * 16
  -- The number of retries, the payload for each interval, the streams, and the cycle state.
  pub no_retries : IsIsoch p → field 1 2 c.word_1 ≡ 0
  pub retries : ¬ IsIsoch p → field 1 2 c.word_1 ≡ 3
  pub payload_reads :
      IsPeriodic p → field 16 16 c.word_4 ≡ p.max_packet_size * (1 + p.max_burst) * (1 + p.multiple)
  pub no_payload : ¬ IsPeriodic p → field 16 16 c.word_4 ≡ 0
  pub no_streams :
      p.max_stream ≤ 1
      → (field 10 5 c.word_0 ≡ 0)
        × (field 15 1 c.word_0 ≡ 0)
        × (c.quad_2 % 16 ≡ (if r.cycle_state == 0 then 0 else 1))
  pub streams_read :
      (n : ℕ)
      → 1 ≤ n
      → n ≤ 15
      → p.max_stream + 1 ≡ 2 ^ suc n
      → (field 10 5 c.word_0 ≡ n) × (field 15 1 c.word_0 ≡ 1) × (c.quad_2 % 16 ≡ 0)

log2-pow : (fuel n : ℕ) → n ≤ fuel → log2 fuel (2 ^ n) ≡ n
unfolding log2
log2-pow zero n le = omega arith
log2-pow (suc fuel) zero le = refl
log2-pow (suc fuel) (suc n) le =
    let one : 1 ≤ 2 ^ n = one-le-pow n 2 (omega arith) in
    let half : 2 ^ suc n / 2 ≡ 2 ^ n = rw two-pow-succ (omega arith) in
    let big : ltb (2 ^ suc n) 2 ≡ false =
      le→ltb (2 ^ suc n) 2 (rw two-pow-succ (omega (arith, one))) in
    rw (log2, big, half) (ap suc (log2-pow fuel n (omega arith)))

u32_small : (x : ℕ) → x < 2 ^ 32 → u32 x ≡ x
u32_small x lt = omega arith

payload_exact :
    (p : EndpointSpec)
    → InRange p
    → (u32 (u32 (p.max_packet_size * (1 + p.max_burst)) * (1 + p.multiple))
        ≡ p.max_packet_size * (1 + p.max_burst) * (1 + p.multiple))
      × (p.max_packet_size * (1 + p.max_burst) * (1 + p.multiple) < 65536)
payload_exact p i =
    let a : p.max_packet_size * (1 + p.max_burst) ≤ 1024 * 16 =
      mul-le-mul {m₂ = 16} i.packet_size_in (omega (arith, i.burst_in)) in
    let b : p.max_packet_size * (1 + p.max_burst) * (1 + p.multiple) ≤ 1024 * 16 * 3 =
      mul-le-mul {m₂ = 3} a (omega (arith, i.multiple_in)) in
    (
      ap (λ (x : ℕ). u32 (x * (1 + p.multiple))) (u32_small _ (omega (arith, a)))
          ∙ u32_small _ (omega (arith, b)),
      omega (arith, b),
    )

-- For arguments in the ranges that CreateEndpoint documents, and a ring at an aligned address below
-- 2 ^ 63, the fields of the endpoint's context read back as the arguments, and its pointer as the
-- address of the TRB at the dequeue index. There are three retries unless the endpoint is isochronous;
-- an isochronous or interrupt endpoint, and no other, has a payload for each interval, which is that
-- of all packets of its bursts. With 2 ^ (n + 1) - 1 streams, for n from 1 to 15, the number of
-- streams reads back as n; with at most one stream there is none, and the pointer's lowest bit is the
-- ring's cycle state.
pub endpoint_context-Reads :
    (p : EndpointSpec) (r : Ring)
    → InRange p
    → r.phys_addr % 16 ≡ 0
    → r.phys_addr < 2 ^ 63
    → r.dequeue_index < 65536
    → Reads p r (endpoint_context p r)
unfolding endpoint_context is_isoch_type is_interrupt_type ctz
endpoint_context-Reads p r i al low dq =
    let pay = payload_exact p i in
    record {
      interval_reads = ground arith;
      multiple_reads = ground arith;
      type_reads = ground arith;
      burst_reads = ground arith;
      packet_size_reads = ground arith;
      average_reads = ground arith;
      pointer_reads = ground arith;
      no_retries = λ h. ground (arith, h);
      retries = λ h.
          let out : p.endpoint_type ≢ 1 = λ e. h (inl e) in
          let in_ : p.endpoint_type ≢ 5 = λ e. h (inr e) in ground arith;
      payload_reads = λ h. ground (arith, pay, h);
      no_payload = λ h.
          let a : p.endpoint_type ≢ 1 = λ e. h (inl (inl e)) in
          let b : p.endpoint_type ≢ 5 = λ e. h (inl (inr e)) in
          let c : p.endpoint_type ≢ 3 = λ e. h (inr (inl e)) in
          let d : p.endpoint_type ≢ 7 = λ e. h (inr (inr e)) in ground arith;
      no_streams = λ h. ground arith;
      streams_read = λ n a b e.
          let l = ap (log2 31) e ∙ log2-pow 31 (suc n) (omega arith) in
          let big : 2 ^ 2 ≤ 2 ^ suc n = pow-le-pow_right (omega arith) {i = 2} (omega arith) in
          ground (arith, l, big);
    }
