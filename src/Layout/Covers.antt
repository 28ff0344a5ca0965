-- ===== src/Layout/Covers.antt =====
-- What _createTransfer lays out covers the TD's bytes, and it ends.
use os_x_generic_usb.Base.{
  ℕ, zero, suc, ◌+◌, ◌-◌, ◌^◌, ◌≤◌, ◌<◌, ◌≡◌, ◌⊎◌, refl, ap, sym, subst, List, [], ◌∷◌, ◌++◌,
  Option, none, some, Bool, false, arith, length, length-append, inl, inr, Bool-cases, Option-cases,
  if_both, ◌==◌, ◌&&◌,
}
use os_x_generic_usb.Trb.{Trb}
use os_x_generic_usb.Ring.{Ring, trb_at}
use os_x_generic_usb.Ring.Fragment.{Next, get_next_trb}
use os_x_generic_usb.Ring.Fragment.Inv.{IsStart, Took, get_next_trb-Took}
use os_x_generic_usb.Retry.{
  Segment, SegmentResult, success, dma_error, internal_error, generate_next_physical_segment,
  segment_bytes,
}
use os_x_generic_usb.Layout.{
  TransferPlan, Work, Error, RoundResult, placed, failed, no_trb, no_segment, segment_refused, fill,
  copy_bytes, place_trb, end_fragment, ends_fragment, fill_and_place, round, layout_loop,
}
use os_x_generic_usb.Layout.Rounds.{Wrote, Rounds, one_more, place_trb-Wrote}
use os_x_generic_usb.Layout.Valid.{Keeps, Took-Keeps, place_trb-Keeps}

-- Pieces of a buffer that follow each other from one offset to another.
abbrev pub Follow : ℕ → List (ℕ × ℕ) → ℕ → Type 0
Follow from [] to = from ≡ to
Follow from ((offset, bytes) ∷ ps) to = (offset ≡ from) × Follow (from + bytes) ps to

Follow-snoc :
    (from to bytes : ℕ) (ps : List (ℕ × ℕ))
    → Follow from ps to
    → Follow from (ps ++ (to, bytes) ∷ []) (to + bytes)
Follow-snoc from to bytes [] f = (sym f, ap (λ (k : ℕ). k + bytes) f)
Follow-snoc from to bytes ((o, n) ∷ ps) f = (f.0, Follow-snoc (from + n) to bytes ps f.1)

-- What the command's DMA memory promises: a segment holds at least one byte, and fewer than 2 ^ 32.
abbrev pub IsMapped : (ℕ → Option Segment) → Type 0
IsMapped dma =
    (offset : ℕ) (seg : Segment) → dma offset ≡ some seg → (0 < seg.length) × (seg.length < 2 ^ 32)

generated :
    (answer : Option Segment) (t u : Trb) (bytes got : ℕ)
    → ((seg : Segment) → answer ≡ some seg → (0 < seg.length) × (seg.length < 2 ^ 32))
    → generate_next_physical_segment answer t bytes ≡ success u got
    → (got ≤ bytes) × (0 < bytes → 0 < got)
unfolding generate_next_physical_segment segment_bytes
generated none t u bytes got mapped e = ground arith
generated (some seg) t u bytes got mapped e = ground (arith, mapped seg refl)

immediate_all :
    (t u : Trb) (left got : ℕ) (bytes : List ℕ)
    → success (copy_bytes t bytes left) left ≡ success u got
    → (got ≤ left) × (0 < left → 0 < got)
immediate_all t u left got bytes e = ground (arith, e)

fill_bounded :
    (dma : ℕ → Option Segment) (p : TransferPlan) (w : Work) (t u : Trb) (got : ℕ)
    → IsMapped dma
    → fill dma p w t ≡ success u got
    → (got ≤ w.bytes_left) × (0 < w.bytes_left → 0 < got)
unfolding fill
fill_bounded dma p w t u got mapped e = elim (Option-cases p.immediate) [
  | inl data_less ↦
      generated (dma w.offset) t u w.bytes_left got (mapped w.offset) (rw data_less at e)
  | inr (bytes, some_data) ↦ immediate_all t u w.bytes_left got bytes (rw some_data at e)
]

-- Where the loop has come, with the pieces so far.
pub record Laid (p : TransferPlan) (ps : List (ℕ × ℕ)) (w : Work) : Type 0 where
  pub to_here : Follow p.offset ps w.offset
  pub rest : w.offset + w.bytes_left ≡ p.offset + p.bytes
  pub counted : w.count ≡ length ps

end_fragment-Laid :
    (p : TransferPlan) (ps : List (ℕ × ℕ)) (w : Work) → Laid p ps w → Laid p ps (end_fragment p w)
unfolding end_fragment
end_fragment-Laid p ps w l =
    if_both (Laid p ps) (ends_fragment p w.offset w.bytes_left) _ _
      (record { to_here = l.to_here; rest = l.rest; counted = l.counted }) l

place_trb-Laid :
    (p : TransferPlan) (ps : List (ℕ × ℕ)) (w : Work) (n : Next) (u : Trb) (got : ℕ)
    → got ≤ w.bytes_left
    → Laid p ps w
    → Laid p (ps ++ (w.offset, got) ∷ []) (place_trb p w n u got)
unfolding place_trb
place_trb-Laid p ps w n u got le l = end_fragment-Laid p _ _ (record {
  to_here = Follow-snoc p.offset w.offset got ps l.to_here;
  rest = omega (arith, l.rest);
  counted = omega (arith, l.counted, length-append ps ((w.offset, got) ∷ []));
})

place_left :
    (p : TransferPlan) (w : Work) (n : Next) (u : Trb) (got : ℕ)
    → (place_trb p w n u got).bytes_left ≡ w.bytes_left - got
unfolding place_trb end_fragment
place_left p w n u got = if_both (λ (v : Work). v.bytes_left ≡ w.bytes_left - got) _ _ _ refl refl

pub took :
    (num dequeue : ℕ) (w : Work) (n : Next) (is_last b : Bool)
    → Keeps num dequeue w.ring w.first
    → get_next_trb w.ring is_last w.first b ≡ some n
    → Took num dequeue n
took num dequeue w n is_last b k e =
    let start_in = subst (λ (m : ℕ). IsStart (m - 1) w.first) (sym k.size_kept) k.start_in in
    let t = get_next_trb-Took w.ring k.valid is_last w.first b n start_in e in
    rw (k.size_kept, k.dequeue_kept) at t

RoundResult-cases :
    (x : RoundResult)
    → ((e : Error) × (r : Ring) × (first : Option ℕ) × (x ≡ failed e r first))
      ⊎ ((w : Work) × (x ≡ placed w))
RoundResult-cases (failed e r first) = inl (e, r, first, refl)
RoundResult-cases (placed w) = inr (w, refl)

module _ (num dequeue : ℕ) (dma : ℕ → Option Segment) (p : TransferPlan) (mapped : IsMapped dma)
    (start : Work) where
  -- What holds of the state before and after each round.
  pub record Good (w : Work) : Type 0 where
    pub pieces : List (ℕ × ℕ)
    pub rounds : Rounds dma p start pieces w
    pub keeps : Keeps num dequeue w.ring w.first
    pub laid : Laid p pieces w

  -- What a round that does not fail gives: it has written a TRB, and has placed bytes if there were any
  -- to place.
  record Placed (w v : Work) : Type 0 where
    got : ℕ
    keeps : Keeps num dequeue v.ring v.first
    laid : (ps : List (ℕ × ℕ)) → Laid p ps w → Laid p (ps ++ (w.offset, got) ∷ []) v
    wrote : Wrote dma p w v got
    less : 0 < w.bytes_left → v.bytes_left < w.bytes_left
    none_left : w.bytes_left ≡ 0 → v.bytes_left ≡ 0

  -- What holds of a round's result.
  RoundGood : Work → RoundResult → Type 0
  RoundGood w (failed e r first) = Keeps num dequeue r first
  RoundGood w (placed v) = Placed w v

  filled :
      (w : Work) (n : Next) (result : SegmentResult)
      → Took num dequeue n
      → fill dma p w (trb_at n.ring n.index) ≡ result
      → RoundGood w (elim result [
        | success u got ↦ placed (place_trb p w n u got)
        | dma_error ↦ failed segment_refused n.ring n.first
        | internal_error ↦ failed no_segment n.ring n.first
      ])
  unfolding RoundGood
  filled w n (success u got) k e =
      let b = fill_bounded dma p w (trb_at n.ring n.index) u got mapped e in
      let l = place_left p w n u got in
      record {
        got = got;
        keeps = place_trb-Keeps num dequeue p w n u got k;
        laid = λ ps. place_trb-Laid p ps w n u got b.0;
        wrote = place_trb-Wrote num dequeue dma p w n u got (mapped w.offset) k e;
        less = λ lt. omega (arith, l, b.0, b.1 lt);
        none_left = λ z. omega (arith, l);
      }
  filled w n dma_error k e = Took-Keeps num dequeue n k
  filled w n internal_error k e = Took-Keeps num dequeue n k

  taken :
      (w : Work) (result : Option Next)
      → Keeps num dequeue w.ring w.first
      → get_next_trb w.ring false w.first (w.is_first_fragment && p.bytes_preceeding == 0) ≡ result
      → RoundGood w
          (elim result [ none ↦ failed no_trb w.ring w.first | some n ↦ fill_and_place dma p w n ])
  unfolding RoundGood fill_and_place
  taken w none k e = k
  taken w (some n) k e =
      filled w n (fill dma p w (trb_at n.ring n.index))
        (took num dequeue w n false (w.is_first_fragment && p.bytes_preceeding == 0) k e) refl

  round-RoundGood : (w : Work) → Keeps num dequeue w.ring w.first → RoundGood w (round dma p w)
  unfolding round
  round-RoundGood w k =
      taken w (get_next_trb w.ring false w.first (w.is_first_fragment && p.bytes_preceeding == 0)) k
        refl

  -- The state after another round.
  one_more-Good : (w v : Work) → Good w → round dma p w ≡ placed v → Placed w v → Good v
  one_more-Good w v g q r = record {
    pieces = g.pieces ++ (w.offset, r.got) ∷ [];
    rounds = one_more g.rounds q r.wrote;
    keeps = r.keeps;
    laid = r.laid g.pieces g.laid;
  }

  -- What holds of the loop's result.
  unfoldable pub Ended : RoundResult → Type 0
  Ended (failed e r first) = Keeps num dequeue r first
  Ended (placed w) = Good w × (w.bytes_left ≡ 0)

  pub layout_loop_ends :
      (fuel : ℕ) (w : Work)
      → Good w
      → w.bytes_left < fuel
      → (result : RoundResult) × (layout_loop fuel dma p w ≡ some result) × Ended result
  unfolding layout_loop Ended RoundGood
  layout_loop_ends zero w g lt = absurd (omega arith)
  layout_loop_ends (suc fuel) w g lt = elim (RoundResult-cases (round dma p w)) [
    | inl (e, r, first, q) ↦ (
      failed e r first,
      rw (layout_loop, q) refl,
      subst (RoundGood w) q (round-RoundGood w g.keeps),
    )
    | inr (w', q) ↦
        let r : Placed w w' = subst (RoundGood w) q (round-RoundGood w g.keeps) in
        let good = one_more-Good w w' g q r in
        elim (Bool-cases (w'.bytes_left == 0)) [
          | inl z ↦ (placed w', rw (layout_loop, q, z) refl, (good, ground arith))
          | inr more ↦
              let fewer : w'.bytes_left < fuel = ground (arith, r.less, r.none_left) in
              let (result, run, ended) = layout_loop_ends fuel w' good fewer in
              (result, rw (layout_loop, q, more) run, ended)
        ]
  ]
