-- ===== src/Streams/Sort.antt =====
-- swap, partition and qsort of Streams.cpp, by which AllocStreamsContextArray sorts the memory of the
-- streams' rings by its addresses.
pub mod Order
pub mod Scan
pub mod Part
pub mod Pending
pub mod Settled
pub mod Sorted
pub mod Find
mod Tests
use os_x_generic_usb.Base.{
  ℕ, zero, suc, ◌+◌, ◌-◌, List, [], ◌∷◌, Option, none, some, Bool, true, false, not, ◌&&◌, ◌==◌,
  leb, ltb, length, if◌then◌else◌, ℤ, pos, negsuc,
}
use os_x_generic_usb.Trb.{diff_trb_index}

-- What `swap` moves: `physAddr`, `md` and `ptr`.
pub record StreamMemory : Type 0 where
  pub phys_addr : ℕ
  pub md : ℕ
  pub trbs : ℕ

-- The array of rings, by index.
abbrev pub StreamArray : Type 0
StreamArray = ℕ → StreamMemory

unfoldable pub swap : StreamArray → ℕ → ℕ → StreamArray
swap rows l r i = if i == r then rows l else if i == l then rows r else rows i

unfoldable pub is_positive : ℤ → Bool
is_positive (pos d) = ltb 0 d
is_positive (negsuc d) = false

-- `DiffTRBIndex(a, b) > 0`.
unfoldable pub is_above : ℕ → ℕ → Bool
is_above a b = is_positive (diff_trb_index a b)

-- The first inner loop of partition: where `R` stops. No index is below 1.
unfoldable pub scan_down : StreamArray → ℕ → ℕ → ℕ → ℕ
scan_down rows v l zero = zero
scan_down rows v l (suc r) =
    if leb l (suc r) && is_above (rows (suc r)).phys_addr v then scan_down rows v l r else suc r

-- The second, for a number of rings up to `R`: where `L` stops.
unfoldable pub scan_up : ℕ → StreamArray → ℕ → ℕ → ℕ
scan_up zero rows v l = l
scan_up (suc n) rows v l = if is_above (rows l).phys_addr v then l else scan_up n rows v (l + 1)

-- The outer loop, with fuel, for the pivot's address.
unfoldable pub partition_loop : ℕ → StreamArray → ℕ → ℕ → ℕ → Option (StreamArray × ℕ)
partition_loop zero rows v l r = none
partition_loop (suc fuel) rows v l r =
    let d = scan_down rows v l r in
    let u = scan_up (d + 1 - l) rows v l in
    let swapped = partition_loop fuel (swap rows u d) v (u + 1) (d - 1) in
    let again = partition_loop fuel rows v u d in
    if leb l r then if ltb u d then swapped else again else some (rows, r)

unfoldable pub partition : ℕ → StreamArray → ℕ → ℕ → ℕ → Option (StreamArray × ℕ)
partition fuel rows l r pivot = partition_loop fuel rows (rows pivot).phys_addr l r

-- The arrays `lefts` and `rights` up to `tos`, the top first.
abbrev pub Ranges : Type 0
Ranges = List (ℕ × ℕ)

-- A range is cut in two, and the smaller part comes first.
unfoldable pub cut : ℕ → ℕ → ℕ → Ranges → Ranges
cut l r at rest =
    if leb (r - at) (at + 1 - l) then (at + 1, r) ∷ (l, at) ∷ rest else (l, at) ∷ (at + 1, r) ∷ rest

-- The loop of qsort with fuel. It is stopped where it would leave the nine places of the arrays.
unfoldable pub qsort_loop : ℕ → StreamArray → Ranges → Option StreamArray
qsort_loop zero rows ranges = none
qsort_loop (suc fuel) rows [] = some rows
qsort_loop (suc fuel) rows ((l, r) ∷ rest) =
    let popped = qsort_loop fuel rows rest in
    let parted : Option StreamArray = elim (partition (r + 2) rows l r r) [
      | none ↦ none
      | some (rows', at) ↦
          let ranges = cut l r (if at == r then at - 1 else at) rest in
          let sorted = qsort_loop fuel rows' ranges in
          if ltb 9 (length ranges) then none else sorted
    ] in
    if leb r l then popped else parted

unfoldable pub qsort : ℕ → StreamArray → ℕ → Option StreamArray
qsort fuel rows max_stream = qsort_loop fuel rows ((1, max_stream) ∷ [])
