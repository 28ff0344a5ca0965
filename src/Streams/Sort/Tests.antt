-- ===== src/Streams/Sort/Tests.antt =====
-- A small run of qsort: three streams in the wrong order.
use os_x_generic_usb.Base.{ℕ, zero, suc, ◌+◌, ◌-◌, ◌*◌, ◌≡◌, refl, List, [], ◌∷◌, some, none, arith}
use os_x_generic_usb.Trb.{diff_trb_index}
use os_x_generic_usb.Streams.{StreamRing, find_stream}
use os_x_generic_usb.Streams.Sort.{
  StreamArray, swap, is_positive, is_above, scan_down, scan_up, partition_loop, partition, cut,
  qsort_loop, qsort,
}
use os_x_generic_usb.Streams.Sort.Order.{Rearranged}
use os_x_generic_usb.Streams.Sort.Settled.{AllLow}
use os_x_generic_usb.Streams.Sort.Sorted.{InOrder, qsort-InOrder}
use os_x_generic_usb.Streams.Sort.Find.{HavePages, Shows, find_stream-qsort}

-- The pages of the streams 1, 2 and 3 lie at 12288, 8192 and 4096.
abbrev backwards : StreamArray
backwards i = record { phys_addr = 4096 * (4 - i); md = 1; trbs = i }

backwards-AllLow : AllLow 3 backwards
backwards-AllLow i a b = (omega arith, ground arith)

qsort-InOrder_example :
    (rows' : StreamArray) × (qsort 6 backwards 3 ≡ some rows')
    × Rearranged 1 3 backwards rows'
    × InOrder 3 rows'
qsort-InOrder_example =
    qsort-InOrder 6 backwards 3 (omega arith) (omega arith) backwards-AllLow (omega arith)

backwards-HavePages : HavePages 3 backwards
backwards-HavePages = record {
  aligned = λ i a b. ground arith;
  low = λ i a b. omega arith;
  distinct = λ i j a b c d ne e. absurd (ne (omega arith));
}

-- The streams after the sort, and what FindStream reads of them.
abbrev forwards : StreamArray
forwards = elim (qsort 6 backwards 3) [ none ↦ backwards | some rows ↦ rows ]

abbrev page_at : ℕ → StreamRing
page_at addr = record { phys_addr = addr; num_trbs = 256 }

abbrev three_pages : List StreamRing
three_pages = page_at 0 ∷ page_at 4096 ∷ page_at 8192 ∷ page_at 12288 ∷ []

sorts_backwards : qsort 6 backwards 3 ≡ some forwards
unfolding qsort qsort_loop partition partition_loop scan_down scan_up swap cut is_above is_positive
    diff_trb_index
sorts_backwards = refl

forwards-Shows : Shows 3 forwards three_pages
unfolding qsort qsort_loop partition partition_loop scan_down scan_up swap cut is_above is_positive
    diff_trb_index
forwards-Shows zero a b = absurd (omega arith)
forwards-Shows (suc zero) a b = refl
forwards-Shows (suc (suc zero)) a b = refl
forwards-Shows (suc (suc (suc zero))) a b = refl
forwards-Shows (suc (suc (suc (suc i)))) a b = absurd (omega arith)

find_stream-qsort_example :
    find_stream 6 three_pages 3 ((forwards 2).phys_addr + 16 * 5) ≡ some (some (2, 5))
find_stream-qsort_example =
    find_stream-qsort 6 3 backwards forwards three_pages 2 5 (omega arith) (omega arith)
      backwards-HavePages (omega arith) sorts_backwards forwards-Shows (omega arith) (omega arith)
      (omega arith)
