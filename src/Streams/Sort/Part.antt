-- ===== src/Streams/Sort/Part.antt =====
-- partition of Streams.cpp, on a range of the array.
use native.Mathlib.Decide.{ℕ_discrete}
use mathlib.Core.Bool.{true≢false}
use os_x_generic_usb.Base.{
  ℕ, zero, suc, ◌+◌, ◌-◌, ◌≤◌, ◌<◌, ◌≡◌, ◌∙◌, refl, sym, ap, Option, some, true, false, arith, leb,
  ltb, inl, inr, ◌⊎◌, if_cases, subst,
}
use os_x_generic_usb.Streams.Sort.{
  StreamMemory, StreamArray, swap, is_above, scan_down, scan_up, partition_loop, partition,
}
use os_x_generic_usb.Streams.Sort.Order.{
  Rearranged, same, exchange, widen, and_then, swap-left, swap-right, swap-other,
  Rearranged-outside, is_above-same, lt_or_le,
}
use os_x_generic_usb.Streams.Sort.Scan.{above_at, Down, Up, scan_down-Down, scan_up-Up}

-- The outcome of partition for a range: exchanges in it, and a place up to which no address is above
-- the pivot's and behind which all are. If the last ring was not above the pivot, one comes first.
pub record Parted (v l r : ℕ) (rows rows' : StreamArray) (at : ℕ) : Type 0 where
  pub rearranged : Rearranged l r rows rows'
  pub not_under : l ≤ at + 1
  pub not_over : at ≤ r
  pub lows : (i : ℕ) → l ≤ i → i ≤ at → above_at rows' v i ≡ false
  pub highs : (i : ℕ) → at < i → i ≤ r → above_at rows' v i ≡ true
  pub some_low : l ≤ r → above_at rows v r ≡ false → l ≤ at
  pub unmoved : at ≡ r → rows' r ≡ rows r

-- A round of the outer loop, after which the range is smaller.
record Narrowed (v l r : ℕ) (rows rows2 : StreamArray) (l2 r2 : ℕ) : Type 0 where
  exchanged : Rearranged l r rows rows2
  from_left : l ≤ l2
  from_right : r2 ≤ r
  meet : l2 ≤ r2 + 1
  lows : (i : ℕ) → l ≤ i → i < l2 → above_at rows2 v i ≡ false
  highs : (i : ℕ) → r2 < i → i ≤ r → above_at rows2 v i ≡ true
  moved : above_at rows v r ≡ false → l < l2
  unmoved : r2 ≡ r → rows2 r ≡ rows r

after_round :
    (v l r : ℕ) (rows rows2 rows' : StreamArray) (l2 r2 at : ℕ)
    → Narrowed v l r rows rows2 l2 r2
    → Parted v l2 r2 rows2 rows' at
    → Parted v l r rows rows' at
after_round v l r rows rows2 rows' l2 r2 at k p =
    let kept : (i : ℕ) → ((i < l2) ⊎ (r2 < i)) → rows' i ≡ rows2 i =
      λ i out. Rearranged-outside l2 r2 i out p.rearranged in
    record {
      rearranged = and_then l r k.exchanged (widen l2 r2 l r k.from_left k.from_right p.rearranged);
      not_under = omega (arith, p.not_under, k.from_left);
      not_over = omega (arith, p.not_over, k.from_right);
      lows = λ i a b. elim (lt_or_le i l2) [
        | inl lt ↦
            ap (λ (m : StreamMemory). is_above m.phys_addr v) (kept i (inl lt)) ∙ k.lows i a lt
        | inr ge ↦ p.lows i ge b
      ];
      highs = λ i a b. elim (lt_or_le r2 i) [
        | inl lt ↦
            ap (λ (m : StreamMemory). is_above m.phys_addr v) (kept i (inr lt)) ∙ k.highs i lt b
        | inr ge ↦ p.highs i a ge
      ];
      some_low = λ le low. omega (arith, k.moved low, p.not_under);
      unmoved = λ e.
          let e2 : r2 ≡ r = omega (arith, p.not_over, k.from_right) in
          subst (λ (j : ℕ). rows' j ≡ rows2 j) e2 (p.unmoved (e ∙ sym e2)) ∙ k.unmoved e2;
    }

module _ (v l r : ℕ) (rows : StreamArray) (one : 1 ≤ l) (le : l ≤ r) where
  abbrev down : ℕ
  down = scan_down rows v l r

  abbrev up : ℕ
  up = scan_up (down + 1 - l) rows v l

  down-Down : Down rows v l r down
  down-Down = scan_down-Down rows v l r one (omega arith)

  up-Up : Up rows v l (down + 1 - l) up
  up-Up = scan_up-Up (down + 1 - l) rows v l

  -- If the last ring is not above the pivot, the first scan stops at once.
  down-at : above_at rows v r ≡ false → down ≡ r
  down-at low = elim (lt_or_le down r) [
    | inl lt ↦ absurd (true≢false (sym (down-Down.passed r lt (omega arith)) ∙ low))
    | inr ge ↦ omega (arith, down-Down.not_over)
  ]

  swap_round : up < down → Narrowed v l r rows (swap rows up down) (up + 1) (down - 1)
  swap_round lt =
      let d = down-Down in
      let u = up-Up in
      let is_low : (m : StreamMemory) → Type 0 = λ m. is_above m.phys_addr v ≡ false in
      let is_high : (m : StreamMemory) → Type 0 = λ m. is_above m.phys_addr v ≡ true in
      record {
        exchanged =
            exchange up down u.not_under (omega (arith, d.not_over)) (omega (arith, u.not_under))
              d.not_over same;
        from_left = omega (arith, u.not_under);
        from_right = omega (arith, d.not_over);
        meet = omega arith;
        lows = λ i a b. elim (ℕ_discrete i up) [
          | yes e ↦
              subst is_low (sym (ap (swap rows up down) e ∙ swap-left rows up down))
                (d.stopped (omega (arith, u.not_under)))
          | no ne ↦
              subst is_low (sym (swap-other rows up down i ne (omega arith)))
                (u.passed i a (omega arith))
        ];
        highs = λ i a b. elim (ℕ_discrete i down) [
          | yes e ↦
              subst is_high (sym (ap (swap rows up down) e ∙ swap-right rows up down))
                (u.stopped (omega (arith, u.not_under)))
          | no ne ↦
              subst is_high (sym (swap-other rows up down i (omega arith) ne))
                (d.passed i (omega arith) b)
        ];
        moved = λ low. omega (arith, u.not_under);
        unmoved = λ e. absurd (omega (arith, d.not_over));
      }

  last_past : down ≤ up → up ≡ down + 1
  last_past ge =
      let d = down-Down in
      let u = up-Up in
      elim (lt_or_le down up) [
        | inl lt ↦ omega (arith, u.not_over, d.not_under)
        | inr le ↦
            let here : up ≡ down = omega arith in
            absurd (
              true≢false (
                sym (u.stopped (omega (arith, u.not_under)))
                ∙ ap (above_at rows v) here
                ∙ d.stopped (omega (arith, u.not_under))))
      ]

  last_round : down ≤ up → Narrowed v l r rows rows up down
  last_round ge =
      let d = down-Down in
      let u = up-Up in
      let past = last_past ge in
      record {
        exchanged = same;
        from_left = u.not_under;
        from_right = d.not_over;
        meet = omega arith;
        lows = u.passed;
        highs = d.passed;
        moved = λ low. omega (arith, down-at low);
        unmoved = λ e. refl;
      }

-- The loop of partition ends.
abbrev Ends : ℕ → ℕ → ℕ → StreamArray → Option (StreamArray × ℕ) → Type 0
Ends v l r rows o =
    (rows' : StreamArray) × (at : ℕ) × (o ≡ some (rows', at)) × Parted v l r rows rows' at

Ends-after :
    (v l r : ℕ) (rows rows2 : StreamArray) (l2 r2 : ℕ) (o : Option (StreamArray × ℕ))
    → Narrowed v l r rows rows2 l2 r2
    → Ends v l2 r2 rows2 o
    → Ends v l r rows o
Ends-after v l r rows rows2 l2 r2 o k (rows', at, e, p) =
    (rows', at, e, after_round v l r rows rows2 rows' l2 r2 at k p)

partition_loop-Ends :
    (fuel : ℕ) (rows : StreamArray) (v l r : ℕ)
    → 1 ≤ l
    → l ≤ r + 1
    → r + 1 < fuel + l
    → Ends v l r rows (partition_loop fuel rows v l r)
unfolding partition_loop
partition_loop-Ends zero rows v l r one le enough = absurd (omega arith)
partition_loop-Ends (suc fuel) rows v l r one le enough =
    let u = λ (f : l ≤ r). up v l r rows one f in
    let again : (rows2 : StreamArray) (l2 r2 : ℕ)
        → Narrowed v l r rows rows2 l2 r2
        → l + r2 < l2 + r
        → Ends v l r rows (partition_loop fuel rows2 v l2 r2) =
      λ rows2 l2 r2 k less.
        Ends-after v l r rows rows2 l2 r2 (partition_loop fuel rows2 v l2 r2) k (
          partition_loop-Ends fuel rows2 v l2 r2 (omega (arith, k.from_left)) k.meet
            (omega (arith, k.from_right))) in
    if_cases (Ends v l r rows) (leb l r) _ _
      (λ full.
        let f : l ≤ r = ground arith in
        let d = down-Down v l r rows one f in
        let up_ = up-Up v l r rows one f in
        if_cases (Ends v l r rows)
          (ltb (scan_up (scan_down rows v l r + 1 - l) rows v l) (scan_down rows v l r)) _ _
          (λ lt.
            again _ _ _ (swap_round v l r rows one f (ground arith))
              (omega (arith, d.not_over, up_.not_under)))
          (λ ge.
            let k = last_round v l r rows one f (ground arith) in
            again _ _ _ k (
              omega (
                arith,
                d.not_over,
                up_.not_under,
                k.meet,
                last_past v l r rows one f (ground arith),
              ))))
      (λ empty. (
        rows,
        r,
        refl,
        record {
          rearranged = same;
          not_under = le;
          not_over = omega arith;
          lows = λ i a b. absurd (ground arith);
          highs = λ i a b. absurd (omega arith);
          some_low = λ full low. absurd (ground arith);
          unmoved = λ e. refl;
        },
      ))

-- partition of a range, with its last ring as the pivot, ends.
pub partition-Parted :
    (rows : StreamArray) (l r : ℕ)
    → 1 ≤ l
    → l ≤ r
    → (rows' : StreamArray) × (at : ℕ) × (partition (r + 2) rows l r r ≡ some (rows', at))
      × Parted (rows r).phys_addr l r rows rows' at
      × (l ≤ at)
unfolding partition
partition-Parted rows l r one le =
    let (rows', at, e, p) =
      partition_loop-Ends (r + 2) rows (rows r).phys_addr l r one (omega arith) (omega arith) in
    (rows', at, e, p, p.some_low le (is_above-same (rows r).phys_addr))
