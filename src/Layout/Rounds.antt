-- ===== src/Layout/Rounds.antt =====
-- The rounds of the loop of _createTransfer, and what each writes to the ring.
use os_x_generic_usb.Base.{
  ℕ, ◌-◌, ◌/◌, ◌%◌, ◌^◌, ◌≤◌, ◌<◌, ◌≡◌, ◌∙◌, refl, ap, subst, List, [], ◌∷◌, ◌++◌, Option, none,
  some, false, arith, length, set, get_or, get_or-set_self, get_or-set_ne, field, if_both,
  if◌then◌else◌, length-set, eq→==, ne→==, ◌==◌,
}
use native.Mathlib.Decide.{ℕ_discrete}
use os_x_generic_usb.Trb.{Trb, zero_trb, set_trb_addr64}
use os_x_generic_usb.Ring.{Ring, trb_at}
use os_x_generic_usb.Ring.Fragment.{Next, close_fragment}
use os_x_generic_usb.Ring.Fragment.Inv.{Took}
use os_x_generic_usb.Retry.{Segment, success, generate_next_physical_segment, segment_bytes}
use os_x_generic_usb.Layout.{
  TransferPlan, Work, placed, is_noop_or_status, third_word, fill, end_fragment, ends_fragment,
  place_trb, round,
}

-- What a round from `w` to `v` wrote for `got` bytes, in a TD without immediate data: the TRB at the
-- last index has them as its bytes, unless the TD is a no-op or a status stage, and its first two
-- words are the address of the segment at the round's offset, which has as many bytes at least; with
-- no bytes left the two words are 0.
pub record Wrote (dma : ℕ → Option Segment) (p : TransferPlan) (w v : Work) (got : ℕ) : Type 0 where
  pub bytes_written :
      p.immediate ≡ none
      → is_noop_or_status p ≡ false
      → field 0 17 (trb_at v.ring v.last_index).c ≡ got
  pub points :
      p.immediate ≡ none
      → 0 < w.bytes_left
      → (seg : Segment) × (dma w.offset ≡ some seg)
        × ((trb_at v.ring v.last_index).a ≡ seg.addr % 2 ^ 32)
        × ((trb_at v.ring v.last_index).b ≡ seg.addr / 2 ^ 32 % 2 ^ 32)
        × (got ≤ seg.length)
  pub cleared :
      w.bytes_left ≡ 0 → ((trb_at v.ring v.last_index).a ≡ 0) × ((trb_at v.ring v.last_index).b ≡ 0)

-- The rounds from a start on, with the offset and the bytes of each.
pub data Rounds (dma : ℕ → Option Segment) (p : TransferPlan) (start : Work)
    : List (ℕ × ℕ) → Work → Type 0 where
  none_yet : Rounds dma p start [] start
  one_more :
      {ps : List (ℕ × ℕ)} {w v : Work} {got : ℕ}
      → Rounds dma p start ps w
      → round dma p w ≡ placed v
      → Wrote dma p w v got
      → Rounds dma p start (ps ++ (w.offset, got) ∷ []) v

-- Two TRBs with the same first three words.
abbrev SameWords : Trb → Trb → Type 0
SameWords t u = (t.a ≡ u.a) × (t.b ≡ u.b) × (t.c ≡ u.c)

close_fragment-SameWords :
    (r : Ring) (first : Option ℕ) (fourth i : ℕ)
    → i < length r.trbs
    → SameWords (trb_at (close_fragment r first fourth) i) (trb_at r i)
unfolding close_fragment
close_fragment-SameWords r none fourth i lt = (refl, refl, refl)
close_fragment-SameWords r (some f) fourth i lt = elim (ℕ_discrete f i) [
  | yes e ↦
      subst (λ (j : ℕ). SameWords (trb_at (close_fragment r (some f) fourth) j) (trb_at r j)) e
        (rw (get_or-set_self r.trbs f _ zero_trb (omega (arith, lt))) (refl, refl, refl))
  | no ne ↦ rw (get_or-set_ne r.trbs f i _ zero_trb ne) (refl, refl, refl)
]

end_fragment-SameWords :
    (p : TransferPlan) (w : Work) (t : Trb)
    → w.last_index < length w.ring.trbs
    → SameWords (trb_at w.ring w.last_index) t
    → let v = end_fragment p w in SameWords (trb_at v.ring v.last_index) t
unfolding end_fragment
end_fragment-SameWords p w t lt same =
    let c = close_fragment-SameWords w.ring w.first w.fourth w.last_index lt in
    if_both (λ (v : Work). SameWords (trb_at v.ring v.last_index) t)
      (ends_fragment p w.offset w.bytes_left) _ _ (c.0 ∙ same.0, c.1 ∙ same.1, c.2 ∙ same.2) same

set-SameWords :
    (ts : List Trb) (i : ℕ) (t : Trb) → i < length ts → SameWords (get_or (set ts i t) i zero_trb) t
set-SameWords ts i t lt = rw (get_or-set_self ts i t zero_trb lt) (refl, refl, refl)

-- What GenerateNextPhysicalSegment gives.
generated_points :
    (answer : Option Segment) (t u : Trb) (bytes got : ℕ)
    → ((seg : Segment) → answer ≡ some seg → (0 < seg.length) × (seg.length < 2 ^ 32))
    → generate_next_physical_segment answer t bytes ≡ success u got
    → (got ≤ 65536)
      × (0 < bytes
          → (seg : Segment) × (answer ≡ some seg)
            × (u.a ≡ seg.addr % 2 ^ 32)
            × (u.b ≡ seg.addr / 2 ^ 32 % 2 ^ 32)
            × (got ≤ seg.length))
unfolding generate_next_physical_segment segment_bytes set_trb_addr64
generated_points none t u bytes got mapped e = (ground (arith, e), λ lt. absurd (ground (arith, e)))
generated_points (some seg) t u bytes got mapped e =
    let m = mapped seg refl in
    (
      ground (arith, e, m),
      λ lt. (seg, refl, ground (arith, e, m), ground (arith, e, m), ground (arith, e, m)),
    )

third_word_bytes :
    (p : TransferPlan) (got left : ℕ)
    → got ≤ 65536
    → is_noop_or_status p ≡ false
    → field 0 17 (third_word p got left) ≡ got
unfolding third_word
third_word_bytes p got left le data_stage = rw (third_word, data_stage) (ground (arith, le))

-- The words of the TRB that place_trb writes.
place_trb-SameWords :
    (num dequeue : ℕ) (p : TransferPlan) (w : Work) (n : Next) (u : Trb) (got : ℕ)
    → Took num dequeue n
    → let v = place_trb p w n u got in
      let t : Trb = if w.bytes_left == 0 then record u { a = 0; b = 0 } else u in
      SameWords
        (trb_at v.ring v.last_index)
        (record t { c = third_word p got (w.bytes_left - got) })
unfolding place_trb
place_trb-SameWords num dequeue p w n u got k =
    let v = k.valid in
    let lt : n.index < length n.ring.trbs = omega (arith, k.index_in, k.size_kept, v.size) in
    let t : Trb = if w.bytes_left == 0 then record u { a = 0; b = 0 } else u in
    end_fragment-SameWords p _ (record t { c = third_word p got (w.bytes_left - got) })
      (omega (arith, lt, length-set n.ring.trbs n.index _)) (set-SameWords n.ring.trbs n.index _ lt)

pub place_trb-Wrote :
    (num dequeue : ℕ) (dma : ℕ → Option Segment) (p : TransferPlan) (w : Work) (n : Next) (u : Trb)
    (got : ℕ)
    → ((seg : Segment) → dma w.offset ≡ some seg → (0 < seg.length) × (seg.length < 2 ^ 32))
    → Took num dequeue n
    → fill dma p w (trb_at n.ring n.index) ≡ success u got
    → Wrote dma p w (place_trb p w n u got) got
unfolding fill
place_trb-Wrote num dequeue dma p w n u got mapped k e =
    let same = place_trb-SameWords num dequeue p w n u got k in
    let from_dma = λ (h : p.immediate ≡ none).
      generated_points (dma w.offset) (trb_at n.ring n.index) u w.bytes_left got mapped
        (rw h at e) in
    record {
      bytes_written = λ h data_stage.
          ap (field 0 17) same.2
          ∙ third_word_bytes p got (w.bytes_left - got) (from_dma h).0 data_stage;
      points = λ h some_left.
          let (seg, there, a, b, le) = (from_dma h).1 some_left in
          (
            seg,
            there,
            same.0 ∙ rw (ne→== w.bytes_left 0 (λ z. omega (arith, some_left, z))) a,
            same.1 ∙ rw (ne→== w.bytes_left 0 (λ z. omega (arith, some_left, z))) b,
            le,
          );
      cleared = λ z.
          (same.0 ∙ rw (eq→== w.bytes_left 0 z) refl, same.1 ∙ rw (eq→== w.bytes_left 0 z) refl);
    }
