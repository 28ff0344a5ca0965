-- ===== src/Streams.antt =====
-- FindStream of Streams.cpp: the stream of an endpoint whose ring holds an address, by binary search
-- over the rings, which AllocStreamsContextArray sorts by their addresses.
pub mod Search
pub mod Sort
pub mod Create
mod Tests
use os_x_generic_usb.Base.{
  ℕ, zero, suc, ◌+◌, ◌-◌, ◌/◌, List, Option, none, some, Bool, get_or, sub32, ltb, leb,
  if◌then◌else◌, ℤ, pos, negsuc,
}
use os_x_generic_usb.Trb.{diff_trb_index}

-- What the search reads of a stream's ring: `physAddr` and `numTRBs`.
pub record StreamRing : Type 0 where
  pub phys_addr : ℕ
  pub num_trbs : ℕ

-- The rings of an endpoint by stream; out of range the source reads other memory, and the model an
-- empty ring.
abbrev pub ring_at : List StreamRing → ℕ → StreamRing
ring_at rings i = get_or rings i (record { phys_addr = 0; num_trbs = 0 })

-- Where the search goes from the stream in the middle.
pub data Step : Type 0 where
  below above : Step
  inside : ℕ → Step

unfoldable pub compare_with : StreamRing → ℤ → Step
compare_with ring (negsuc n) = below
compare_with ring (pos d) = if leb (sub32 ring.num_trbs 1) d then above else inside d

-- The loop with fuel: the stream and the index in its ring, or `some none` if there is none; `none` if
-- the fuel ran out.
unfoldable pub find_loop : ℕ → List StreamRing → ℕ → ℕ → ℕ → Option (Option (ℕ × ℕ))
find_loop zero rings addr low high = none
find_loop (suc fuel) rings addr low high =
    let middle = (low + high) / 2 in
    let ring = ring_at rings middle in
    let go_down = find_loop fuel rings addr low (middle - 1) in
    let go_up = find_loop fuel rings addr (middle + 1) high in
    let at_middle : Option (Option (ℕ × ℕ)) =
      elim (compare_with ring (diff_trb_index addr ring.phys_addr)) [
        | below ↦ go_down
        | above ↦ go_up
        | inside d ↦ some (some (middle, d))
      ] in
    if leb low high then at_middle else some none

unfoldable pub find_stream : ℕ → List StreamRing → ℕ → ℕ → Option (Option (ℕ × ℕ))
find_stream fuel rings last_stream addr = find_loop fuel rings addr 1 last_stream
