-- ===== src/Streams/Sort/Sorted.antt =====
-- qsort of Streams.cpp and the order of the addresses.
use os_x_generic_usb.Base.{
  ℕ, zero, suc, ◌-◌, ◌*◌, ◌≤◌, ◌<◌, ◌≡◌, ◌∙◌, refl, ap, [], ◌∷◌, Option, some, arith, inl, inr,
  ◌==◌, leb, if_cases, if◌then◌else◌,
}
use os_x_generic_usb.Streams.Sort.{StreamMemory, StreamArray, Ranges, cut, qsort_loop, qsort}
use os_x_generic_usb.Streams.Sort.Order.{
  is_above-lt, is_above-le, Rearranged, same, widen, and_then, lt_or_le,
}
use os_x_generic_usb.Streams.Sort.Part.{Parted, partition-Parted}
use os_x_generic_usb.Streams.Sort.Pending.{
  ApartFrom, Ready, rounds_left, cut-Ready, cut_rounds, Ready-fits,
}
use os_x_generic_usb.Streams.Sort.Settled.{
  Together, Settled, AllLow, AllLow-kept, cut-Settled, popped-Settled, nothing_left,
}

-- The rings from 1 to `n` are in the order of their addresses.
abbrev pub InOrder : ℕ → StreamArray → Type 0
InOrder n rows = (i j : ℕ) → 1 ≤ i → i < j → j ≤ n → (rows i).phys_addr ≤ (rows j).phys_addr

-- The outcome of the loop.
abbrev Sorts : ℕ → StreamArray → Option StreamArray → Type 0
Sorts n rows o =
    (rows' : StreamArray) × (o ≡ some rows') × Rearranged 1 n rows rows' × InOrder n rows'

-- Where a range is cut, behind the place where partition stopped.
abbrev cut_at : ℕ → ℕ → ℕ
cut_at r at = if at == r then at - 1 else at

record Halved (n l r : ℕ) (rest : Ranges) (rows rows' : StreamArray) (at : ℕ) : Type 0 where
  ready : Ready n (cut l r (cut_at r at) rest)
  settled : Settled n rows' (cut l r (cut_at r at) rest)
  fewer : rounds_left (cut l r (cut_at r at) rest) < rounds_left ((l, r) ∷ rest)
  rearranged : Rearranged 1 n rows rows'

after_partition :
    (n l r : ℕ) (rest : Ranges) (rows rows' : StreamArray) (at : ℕ)
    → l < r
    → AllLow n rows
    → Ready n ((l, r) ∷ rest)
    → Settled n rows ((l, r) ∷ rest)
    → Parted (rows r).phys_addr l r rows rows' at
    → l ≤ at
    → Halved n l r rest rows rows' at
unfolding Ready
after_partition n l r rest rows rows' at lt low h s p some_low =
    let v = (rows r).phys_addr in
    let c = cut_at r at in
    let over = p.not_over in
    let lc : l ≤ c = ground arith in
    let cr : c < r = ground arith in
    let ca : c ≤ at = ground arith in
    let all = widen l r 1 n h.0 h.2 p.rearranged in
    let low' = AllLow-kept n rows rows' all low in
    let v_low = low r (omega (arith, h.0)) h.2 in
    record {
      ready = cut-Ready n l r c rest h lc cr;
      settled =
          cut-Settled n l r rest rows rows' h p.rearranged s v c
            (λ i a b.
              is_above-le (rows' i).phys_addr v (low' i (omega (arith, h.0)) (omega (arith, h.2)))
                v_low (p.lows i a (omega arith)))
            (λ i a b. elim (lt_or_le at i) [
              | inl ai ↦
                  let gt =
                    is_above-lt (rows' i).phys_addr v
                      (low' i (omega (arith, h.0)) (omega (arith, h.2))) v_low (p.highs i ai b) in
                  omega arith
              | inr ia ↦
                  let end : at ≡ r = ground arith in
                  let here : i ≡ r = ground arith in
                  let e = ap (λ (m : StreamMemory). m.phys_addr) (ap rows' here ∙ p.unmoved end) in
                  omega arith
            ]);
      fewer = cut_rounds l r c rest lc cr;
      rearranged = all;
    }

qsort_loop-Sorts :
    (n : ℕ)
    → n < 512
    → (fuel : ℕ) (rows : StreamArray) (ranges : Ranges) → AllLow n rows
    → Ready n ranges
    → Settled n rows ranges
    → rounds_left ranges < fuel
    → Sorts n rows (qsort_loop fuel rows ranges)
unfolding qsort_loop Ready rounds_left
qsort_loop-Sorts n small zero rows ranges low h s enough = absurd (omega arith)
qsort_loop-Sorts n small (suc fuel) rows [] low h s enough =
    (rows, refl, same, λ i j one lt jn. nothing_left n rows i j one lt jn s)
qsort_loop-Sorts n small (suc fuel) rows ((l, r) ∷ rest) low h s enough =
    if_cases (Sorts n rows) (leb r l) _ _
      (λ one_left.
        qsort_loop-Sorts n small fuel rows rest low h.5
          (popped-Settled n l r rest rows (ground arith) s) (omega arith))
      (λ more.
        let lt : l < r = ground arith in
        let (rows', at, e, p, some_low) = partition-Parted rows l r h.0 h.1 in
        let k = after_partition n l r rest rows rows' at lt low h s p some_low in
        let (rows'', run, moved, done) =
          qsort_loop-Sorts n small fuel rows' (cut l r (cut_at r at) rest)
            (AllLow-kept n rows rows' k.rearranged low) k.ready k.settled
            (omega (arith, k.fewer)) in
        (
          rows'',
          rw (e, Ready-fits n (cut l r (cut_at r at) rest) small k.ready) run,
          and_then 1 n k.rearranged moved,
          done,
        ))

-- qsort of 1 to 511 streams, whose rings are at aligned addresses in the lower half of the address
-- space, with fuel for two rounds for each stream: it ends, without leaving the nine places of its
-- arrays; what it does are exchanges of the streams' memory, and the addresses are in order then.
pub qsort-InOrder :
    (fuel : ℕ) (rows : StreamArray) (max_stream : ℕ)
    → 1 ≤ max_stream
    → max_stream < 512
    → AllLow max_stream rows
    → 2 * max_stream ≤ fuel
    → (rows' : StreamArray) × (qsort fuel rows max_stream ≡ some rows')
      × Rearranged 1 max_stream rows rows'
      × InOrder max_stream rows'
unfolding qsort Ready ApartFrom rounds_left Together
qsort-InOrder fuel rows max_stream one small low enough =
    qsort_loop-Sorts max_stream small fuel rows ((1, max_stream) ∷ []) low
      (omega arith, one, omega arith, omega arith, tt, tt)
      (λ i j a lt jn. inl (inl (a, omega arith, omega arith, jn))) (omega arith)
