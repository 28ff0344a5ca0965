-- ===== src/Streams/Tests.antt =====
-- The search over the rings of three streams.
use os_x_generic_usb.Base.{ℕ, zero, suc, ◌+◌, ◌*◌, ◌<◌, ◌≤◌, ◌^◌, ◌≡◌, List, [], ◌∷◌, some, arith}
use os_x_generic_usb.Streams.{StreamRing, ring_at, find_stream}
use os_x_generic_usb.Streams.Search.{IsSorted, find_stream_finds}

abbrev page_at : ℕ → StreamRing
page_at addr = record { phys_addr = addr; num_trbs = 256 }

-- Index 0 is the context array itself.
abbrev three_streams : List StreamRing
three_streams = page_at 0 ∷ page_at 4096 ∷ page_at 12288 ∷ page_at 16384 ∷ []

three_streams-IsSorted : IsSorted three_streams 3
three_streams-IsSorted = record {
  apart = λ i j pos lt le. apart i j pos lt le;
  low = λ i pos le. low i pos le;
  sized = λ i pos le. sized i pos le;
}
  where
    apart :
        (i j : ℕ)
        → 1 ≤ i
        → i < j
        → j ≤ 3
        → (ring_at three_streams i).phys_addr + 16 * (ring_at three_streams i).num_trbs
          ≤ (ring_at three_streams j).phys_addr
    apart zero j pos lt le = absurd (omega arith)
    apart (suc zero) (suc (suc zero)) pos lt le = omega arith
    apart (suc zero) (suc (suc (suc zero))) pos lt le = omega arith
    apart (suc (suc zero)) (suc (suc (suc zero))) pos lt le = omega arith
    apart (suc i) zero pos lt le = absurd (omega arith)
    apart (suc i) (suc zero) pos lt le = absurd (omega arith)
    apart (suc (suc i)) (suc (suc zero)) pos lt le = absurd (omega arith)
    apart (suc (suc (suc i))) (suc (suc (suc zero))) pos lt le = absurd (omega arith)
    apart (suc i) (suc (suc (suc (suc j)))) pos lt le = absurd (omega arith)

    low :
        (i : ℕ)
        → 1 ≤ i
        → i ≤ 3
        → (ring_at three_streams i).phys_addr + 16 * (ring_at three_streams i).num_trbs < 2 ^ 63
    low zero pos le = absurd (omega arith)
    low (suc zero) pos le = omega arith
    low (suc (suc zero)) pos le = omega arith
    low (suc (suc (suc zero))) pos le = omega arith
    low (suc (suc (suc (suc i)))) pos le = absurd (omega arith)

    sized :
        (i : ℕ)
        → 1 ≤ i
        → i ≤ 3
        → (1 ≤ (ring_at three_streams i).num_trbs) × ((ring_at three_streams i).num_trbs ≤ 65535)
    sized zero pos le = absurd (omega arith)
    sized (suc zero) pos le = (omega arith, omega arith)
    sized (suc (suc zero)) pos le = (omega arith, omega arith)
    sized (suc (suc (suc zero))) pos le = (omega arith, omega arith)
    sized (suc (suc (suc (suc i)))) pos le = absurd (omega arith)

find_stream_finds_example : find_stream 4 three_streams 3 16416 ≡ some (some (3, 2))
find_stream_finds_example =
    find_stream_finds three_streams 3 3 2 16416 4 three_streams-IsSorted (omega arith) (omega arith)
      (omega arith, omega arith, omega arith) (omega arith)
