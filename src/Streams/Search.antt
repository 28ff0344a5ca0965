-- ===== src/Streams/Search.antt =====
-- The binary search finds the stream that holds an address.
use os_x_generic_usb.Base.{
  ℕ, zero, suc, ◌+◌, ◌-◌, ◌*◌, ◌/◌, ◌^◌, ◌<◌, ◌≤◌, ◌≡◌, inl, inr, refl, ap, List, some, arith, ltb,
  le→leb, ltb→lt, Bool-cases,
}
use os_x_generic_usb.Trb.{diff_trb_index}
use os_x_generic_usb.Trb.Laws.{diff_trb_index_from, diff_trb_index_below}
use os_x_generic_usb.Streams.{
  StreamRing, ring_at, below, above, inside, compare_with, find_loop, find_stream,
}

-- The rings of the streams up to `last` lie one after the other in the lower half of the address
-- space.
pub record IsSorted (rings : List StreamRing) (last : ℕ) : Type 0 where
  pub apart :
      (i j : ℕ)
      → 1 ≤ i
      → i < j
      → j ≤ last
      → (ring_at rings i).phys_addr + 16 * (ring_at rings i).num_trbs ≤ (ring_at rings j).phys_addr
  pub low :
      (i : ℕ)
      → 1 ≤ i
      → i ≤ last
      → (ring_at rings i).phys_addr + 16 * (ring_at rings i).num_trbs < 2 ^ 63
  pub sized :
      (i : ℕ)
      → 1 ≤ i
      → i ≤ last
      → (1 ≤ (ring_at rings i).num_trbs) × ((ring_at rings i).num_trbs ≤ 65535)

-- The address is in the ring, before its link TRB, at the TRB with the index `d`.
abbrev pub IsAt : StreamRing → ℕ → ℕ → Type 0
IsAt ring addr d =
    (ring.phys_addr + 16 * d ≤ addr)
    × (addr < ring.phys_addr + 16 * (d + 1))
    × (d + 1 < ring.num_trbs)

module _ (ring : StreamRing) (addr : ℕ) (bound : addr < 2 ^ 63) (small : ring.phys_addr < 2 ^ 63)
    (sized : (1 ≤ ring.num_trbs) × (ring.num_trbs ≤ 65535)) where
  compare-inside :
      (d : ℕ) → IsAt ring addr d → compare_with ring (diff_trb_index addr ring.phys_addr) ≡ inside d
  unfolding compare_with
  compare-inside d h =
      rw (diff_trb_index_from addr ring.phys_addr (omega (arith, h.0)) bound, compare_with)
        (ground (arith, h.0, h.1, h.2, sized))

  compare-below :
      addr < ring.phys_addr → compare_with ring (diff_trb_index addr ring.phys_addr) ≡ below
  unfolding compare_with
  compare-below h = rw ((diff_trb_index_below addr ring.phys_addr h small).1, compare_with) refl

  compare-above :
      ring.phys_addr + 16 * ring.num_trbs ≤ addr
      → compare_with ring (diff_trb_index addr ring.phys_addr) ≡ above
  unfolding compare_with
  compare-above h =
      rw (diff_trb_index_from addr ring.phys_addr (omega arith) bound, compare_with)
        (ground (arith, sized))

-- The step at the middle of a range that holds the stream `k`.
module _ (rings : List StreamRing) (last k d addr : ℕ) (sorted : IsSorted rings last)
    (pos_k : 1 ≤ k) (k_in : k ≤ last) (at_k : IsAt (ring_at rings k) addr d) where
  bound_k : addr < 2 ^ 63
  bound_k = omega (arith, sorted.low k pos_k k_in, at_k)

  step_up :
      (m : ℕ)
      → 1 ≤ m
      → m < k
      → compare_with (ring_at rings m) (diff_trb_index addr (ring_at rings m).phys_addr) ≡ above
  step_up m pos_m lt =
      compare-above (ring_at rings m) addr bound_k
        (omega (arith, sorted.low m pos_m (omega (arith, lt, k_in))))
        (sorted.sized m pos_m (omega (arith, lt, k_in)))
        (omega (arith, sorted.apart m k pos_m lt k_in, at_k))

  step_down :
      (m : ℕ)
      → k < m
      → m ≤ last
      → compare_with (ring_at rings m) (diff_trb_index addr (ring_at rings m).phys_addr) ≡ below
  step_down m lt m_in =
      compare-below (ring_at rings m) addr bound_k
        (omega (arith, sorted.low m (omega (arith, lt)) m_in))
        (sorted.sized m (omega (arith, lt)) m_in)
        (omega (arith, sorted.apart k m pos_k lt m_in, at_k))

  step_found :
      compare_with (ring_at rings k) (diff_trb_index addr (ring_at rings k).phys_addr) ≡ inside d
  step_found =
      compare-inside (ring_at rings k) addr bound_k (omega (arith, sorted.low k pos_k k_in))
        (sorted.sized k pos_k k_in) d at_k

  find_loop_finds :
      (fuel low high : ℕ)
      → 1 ≤ low
      → low ≤ k
      → k ≤ high
      → high ≤ last
      → high - low < fuel
      → find_loop fuel rings addr low high ≡ some (some (k, d))
  unfolding find_loop
  find_loop_finds zero low high pos_low lo hi top enough = absurd (omega arith)
  find_loop_finds (suc fuel) low high pos_low lo hi top enough =
      let m = (low + high) / 2 in
      elim (Bool-cases (ltb m k)) [
        | inl up ↦
            rw
              (
                le→leb low high (omega arith),
                find_loop,
                step_up m (omega arith) (ltb→lt m k up),
                find_loop,
              )
              (find_loop_finds fuel (m + 1) high (omega arith) (omega (arith, ltb→lt m k up)) hi top
                (omega (arith, ltb→lt m k up)))
        | inr not_up ↦ elim (Bool-cases (ltb k m)) [
          | inl down ↦
              rw
                (
                  le→leb low high (omega arith),
                  find_loop,
                  step_down m (ltb→lt k m down) (omega arith),
                  find_loop,
                )
                (find_loop_finds fuel low (m - 1) pos_low lo (omega (arith, ltb→lt k m down))
                  (omega arith) (omega (arith, ltb→lt k m down)))
          | inr not_down ↦
              let same : m ≡ k = ground arith in
              rw (le→leb low high (omega arith), find_loop, same, step_found, find_loop)
                (ap (λ (x : ℕ). some (some (x, d))) same)
        ]
      ]

-- FindStream, on rings that lie one after the other in the lower half of the address space, for the
-- address of a TRB before the link TRB of a stream's ring: with fuel for the streams it ends, and
-- finds that stream and the TRB's index.
pub find_stream_finds :
    (rings : List StreamRing) (last k d addr fuel : ℕ)
    → IsSorted rings last
    → 1 ≤ k
    → k ≤ last
    → IsAt (ring_at rings k) addr d
    → last < fuel
    → find_stream fuel rings last addr ≡ some (some (k, d))
unfolding find_stream
find_stream_finds rings last k d addr fuel sorted pos_k k_in at_k enough =
    find_loop_finds rings last k d addr sorted pos_k k_in at_k fuel 1 last (omega arith) pos_k k_in
      (omega arith) (omega arith)
