-- ===== src/Streams/Sort/Find.antt =====
-- FindStream on the array that qsort of Streams.cpp leaves.
use os_x_generic_usb.Base.{
  ℕ, ◌+◌, ◌*◌, ◌%◌, ◌^◌, ◌≤◌, ◌<◌, ◌≡◌, ◌≢◌, ◌∙◌, refl, sym, ap, List, some, arith, inl, inr, ◌==◌,
  Bool-cases, if◌then◌else◌, subst,
}
use os_x_generic_usb.Streams.{StreamRing, ring_at, find_stream}
use os_x_generic_usb.Streams.Search.{IsSorted, find_stream_finds}
use os_x_generic_usb.Streams.Sort.{StreamMemory, StreamArray, swap, qsort}
use os_x_generic_usb.Streams.Sort.Order.{Rearranged, same, exchange}
use os_x_generic_usb.Streams.Sort.Sorted.{InOrder, qsort-InOrder}

-- Each stream has a page of its own in the lower half of the address space.
pub record HavePages (n : ℕ) (rows : StreamArray) : Type 0 where
  pub aligned : (i : ℕ) → 1 ≤ i → i ≤ n → (rows i).phys_addr % 4096 ≡ 0
  pub low : (i : ℕ) → 1 ≤ i → i ≤ n → (rows i).phys_addr + 4096 < 2 ^ 63
  pub distinct :
      (i j : ℕ) → 1 ≤ i → i ≤ n → 1 ≤ j → j ≤ n → i ≢ j → (rows i).phys_addr ≢ (rows j).phys_addr

-- Where swap takes a ring from.
abbrev from : ℕ → ℕ → ℕ → ℕ
from a b k = if k == b then a else if k == a then b else k

swap-from : (rows : StreamArray) (a b k : ℕ) → swap rows a b k ≡ rows (from a b k)
unfolding swap
swap-from rows a b k = elim (Bool-cases (k == b)) [
  | inl e ↦ rw e refl
  | inr e ↦ elim (Bool-cases (k == a)) [ inl f ↦ rw (e, f) refl | inr f ↦ rw (e, f) refl ]
]

swap-HavePages :
    (n a b : ℕ) (rows : StreamArray)
    → 1 ≤ a
    → a ≤ n
    → 1 ≤ b
    → b ≤ n
    → HavePages n rows
    → HavePages n (swap rows a b)
swap-HavePages n a b rows a1 an b1 bn h = record {
  aligned = λ i i1 le.
      subst (λ (m : StreamMemory). m.phys_addr % 4096 ≡ 0) (sym (swap-from rows a b i))
        (h.aligned (from a b i) (ground arith) (ground arith));
  low = λ i i1 le.
      subst (λ (m : StreamMemory). m.phys_addr + 4096 < 2 ^ 63) (sym (swap-from rows a b i))
        (h.low (from a b i) (ground arith) (ground arith));
  distinct = λ i j i1 le j1 lej ne e.
      h.distinct (from a b i) (from a b j) (ground arith) (ground arith) (ground arith)
        (ground arith) (λ f. ground arith)
        (ap (λ (m : StreamMemory). m.phys_addr) (sym (swap-from rows a b i))
          ∙ e
          ∙ ap (λ (m : StreamMemory). m.phys_addr) (swap-from rows a b j));
}

HavePages-kept :
    (n : ℕ) {rows rows' : StreamArray}
    → Rearranged 1 n rows rows'
    → HavePages n rows
    → HavePages n rows'
HavePages-kept n same h = h
HavePages-kept n {rows = rows} (exchange a b a1 an b1 bn rest) h =
    HavePages-kept n rest (swap-HavePages n a b rows a1 an b1 bn h)

-- The rings that FindStream reads have the addresses of the array, and a page each.
abbrev pub Shows : ℕ → StreamArray → List StreamRing → Type 0
Shows n rows rings =
    (i : ℕ)
    → 1 ≤ i
    → i ≤ n
    → ring_at rings i ≡ record { phys_addr = (rows i).phys_addr; num_trbs = 256 }

apart_in_order :
    (n i j : ℕ) (rows : StreamArray)
    → HavePages n rows
    → InOrder n rows
    → 1 ≤ i
    → i < j
    → j ≤ n
    → (rows i).phys_addr + 4096 ≤ (rows j).phys_addr
apart_in_order n i j rows h o one lt le =
    let a = h.aligned i one (omega arith) in
    let b = h.aligned j (omega arith) le in
    let ne = h.distinct i j one (omega arith) (omega arith) le (λ e. omega arith) in
    let ord = o i j one lt le in ground arith

InOrder-IsSorted :
    (n : ℕ) (rows : StreamArray) (rings : List StreamRing)
    → HavePages n rows
    → InOrder n rows
    → Shows n rows rings
    → IsSorted rings n
InOrder-IsSorted n rows rings h o shows = record {
  apart = λ i j one lt le.
      rw (shows i one (omega arith), shows j (omega arith) le)
        (apart_in_order n i j rows h o one lt le);
  low = λ i one le. rw (shows i one le) (h.low i one le);
  sized = λ i one le. rw (shows i one le) (omega arith, omega arith);
}

some_same : {A : Type 0} (a b : A) → some a ≡ some b → a ≡ b
some_same a b e = cc

-- For 1 to 511 streams with a page each, pages that differ and lie in the lower half of the address
-- space, and fuel for two rounds for each stream: in the array that qsort leaves, FindStream finds for
-- the address of a TRB before the link TRB of a stream's ring that stream and that TRB.
pub find_stream-qsort :
    (fuel n : ℕ) (rows rows' : StreamArray) (rings : List StreamRing) (k d : ℕ)
    → 1 ≤ n
    → n < 512
    → HavePages n rows
    → 2 * n ≤ fuel
    → qsort fuel rows n ≡ some rows'
    → Shows n rows' rings
    → 1 ≤ k
    → k ≤ n
    → d < 255
    → find_stream fuel rings n ((rows' k).phys_addr + 16 * d) ≡ some (some (k, d))
find_stream-qsort fuel n rows rows' rings k d one small h enough run shows k1 kn d_in =
    let (sorted, sorts, moved, order) =
      qsort-InOrder fuel rows n one small
        (λ i a b. let lo = h.low i a b in let al = h.aligned i a b in (omega arith, omega arith))
        enough in
    let e : sorted ≡ rows' = some_same sorted rows' (sym sorts ∙ run) in
    let pages = subst (HavePages n) e (HavePages-kept n moved h) in
    find_stream_finds rings n k d ((rows' k).phys_addr + 16 * d) fuel
      (InOrder-IsSorted n rows' rings pages (subst (InOrder n) e order) shows) k1 kn
      (rw (shows k k1 kn) (omega arith, omega arith, omega arith)) (omega arith)
