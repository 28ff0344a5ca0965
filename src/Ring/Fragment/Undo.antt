-- ===== src/Ring/Fragment/Undo.antt =====
-- PutBackTRB as the undoing of a fragment: what it leaves in the ring.
use os_x_generic_usb.Base.{
  ℕ, zero, suc, ◌+◌, ◌-◌, ◌≤◌, ◌<◌, ◌≡◌, ◌≢◌, ◌⊎◌, refl, some, Bool, true, false, arith, length,
  length-set, get_or-set_self, get_or-set_ne, set, ◌∙◌, ap, eq→==, ne→==, put_bit, bit, lt→ltb,
  ◌==◌,
}
use native.Mathlib.Decide.{ℕ_discrete}
use os_x_generic_usb.Trb.{Trb, zero_trb, cycle_bit}
use os_x_generic_usb.Ring.{Ring, trb_at}
use os_x_generic_usb.Ring.Fragment.{put_back_trb, put_back_loop, give_back, go_back}
use os_x_generic_usb.Ring.Fragment.Inv.{IsValid}

-- What is given back when the walk goes straight down from `top` to `index`: the cycle bits above
-- `index` up to `top` say that the driver owns the TRBs, and nothing else changes.
pub record GivenBack (r s : Ring) (index top : ℕ) : Type 0 where
  pub ends_at : s.enqueue_index ≡ index
  pub cycle_kept : s.cycle_state ≡ r.cycle_state
  pub size_kept : length s.trbs ≡ length r.trbs
  pub owned : (j : ℕ) → index < j → j ≤ top → cycle_bit (trb_at s j) ≡ 1 - r.cycle_state
  pub rest_below : (j : ℕ) → j ≤ index → trb_at s j ≡ trb_at r j
  pub rest_above : (j : ℕ) → top < j → trb_at s j ≡ trb_at r j

put_cycle : (c d : ℕ) → c ≤ 1 → bit 0 (put_bit 0 (c == 0) d) ≡ 1 - c
put_cycle c d h = ground arith

-- A round that gives a TRB back and goes down by one.
down : Ring → Ring
unfolding give_back go_back
down r = go_back (give_back r false)

down_fields :
    (r : Ring)
    → 0 < r.enqueue_index
    → ((down r).enqueue_index + 1 ≡ r.enqueue_index)
      × ((down r).cycle_state ≡ r.cycle_state)
      × ((down r).dequeue_index ≡ r.dequeue_index)
      × ((down r).trbs
          ≡ set r.trbs r.enqueue_index (record (trb_at r r.enqueue_index) {
            d = put_bit 0 (r.cycle_state == 0) (trb_at r r.enqueue_index).d;
          }))
unfolding down
down_fields r pos = ground arith

-- The TRB given back in a round has the driver's cycle bit, and the others stay.
down_trb :
    (r : Ring)
    → 0 < r.enqueue_index
    → r.enqueue_index < length r.trbs
    → r.cycle_state ≤ 1
    → (length (down r).trbs ≡ length r.trbs)
      × (cycle_bit (trb_at (down r) r.enqueue_index) ≡ 1 - r.cycle_state)
      × ((j : ℕ) → r.enqueue_index ≢ j → trb_at (down r) j ≡ trb_at r j)
down_trb r pos lt c =
    let t = trb_at r r.enqueue_index in
    let new : Trb = record t { d = put_bit 0 (r.cycle_state == 0) t.d } in
    let e = (down_fields r pos).3 in
    (
      rw e (length-set r.trbs r.enqueue_index new),
      rw (e, get_or-set_self r.trbs r.enqueue_index new zero_trb lt)
          (put_cycle r.cycle_state t.d c),
      λ j ne. rw e (get_or-set_ne r.trbs r.enqueue_index j new zero_trb ne),
    )

down_loop :
    (fuel index : ℕ) (r : Ring)
    → r.enqueue_index ≢ index
    → r.enqueue_index ≢ r.dequeue_index
    → put_back_loop (suc fuel) r index false ≡ put_back_loop fuel (down r) index false
unfolding put_back_loop down
down_loop fuel index r ne ne' =
    rw (ne→== r.enqueue_index index ne, ne→== r.enqueue_index r.dequeue_index ne')

at_loop :
    (fuel index : ℕ) (r : Ring) (b : Bool)
    → r.enqueue_index ≡ index
    → put_back_loop (suc fuel) r index b ≡ some r
unfolding put_back_loop
at_loop fuel index r b e = rw (eq→== r.enqueue_index index e)

GivenBack-down :
    (index : ℕ) (r s : Ring)
    → index < r.enqueue_index
    → r.enqueue_index < length r.trbs
    → r.cycle_state ≤ 1
    → GivenBack (down r) s index (down r).enqueue_index
    → GivenBack r s index r.enqueue_index
GivenBack-down index r s above lt c g =
    let f = down_fields r (omega arith) in
    let (len, bit_e, others) = down_trb r (omega arith) lt c in
    record {
      ends_at = g.ends_at;
      cycle_kept = g.cycle_kept ∙ f.1;
      size_kept = g.size_kept ∙ len;
      owned = λ j lo hi. elim (ℕ_discrete j r.enqueue_index) [
        | yes e ↦ rw (e, g.rest_above r.enqueue_index (omega arith)) bit_e
        | no ne ↦ g.owned j lo (omega arith) ∙ ap (λ (x : ℕ). 1 - x) f.1
      ];
      rest_below = λ j le. g.rest_below j le ∙ others j (omega arith);
      rest_above = λ j gt. g.rest_above j (omega arith) ∙ others j (omega arith);
    }

straight :
    (index k fuel : ℕ) (r : Ring)
    → r.enqueue_index ≡ index + k
    → r.enqueue_index < length r.trbs
    → r.cycle_state ≤ 1
    → (r.dequeue_index ≤ index) ⊎ (r.enqueue_index < r.dequeue_index)
    → k < fuel
    → (s : Ring) × (put_back_loop fuel r index false ≡ some s) × GivenBack r s index r.enqueue_index
straight index k zero r e lt c zone enough = elim enough [ ]
straight index zero (suc fuel) r e lt c zone enough = (
  r,
  at_loop fuel index r false (omega arith),
  record {
    ends_at = omega arith;
    cycle_kept = refl;
    size_kept = refl;
    owned = λ j lo hi. absurd (omega arith);
    rest_below = λ j _. refl;
    rest_above = λ j _. refl;
  },
)
straight index (suc k) (suc fuel) r e lt c zone enough =
    let f = down_fields r (omega arith) in
    let len = (down_trb r (omega arith) lt c).0 in
    let (s, got, g) =
      straight index k fuel (down r) (omega arith) (omega arith) (omega arith) (omega arith)
        (omega arith) in
    (
      s,
      down_loop fuel index r (omega arith) (omega arith) ∙ got,
      GivenBack-down index r s (omega arith) lt c g,
    )

-- The first round only steps back.
first_loop :
    (fuel index : ℕ) (r : Ring)
    → r.enqueue_index ≢ index
    → r.enqueue_index ≢ r.dequeue_index
    → 0 < r.enqueue_index
    → put_back_loop (suc fuel) r index true
      ≡ put_back_loop fuel (record r { enqueue_index = r.enqueue_index - 1 }) index false
unfolding put_back_loop give_back go_back
first_loop fuel index r ne ne' pos = rw (
  ne→== r.enqueue_index index ne,
  ne→== r.enqueue_index r.dequeue_index ne',
  ne→== r.enqueue_index 0 (omega arith),
)

straight_first :
    (index k fuel : ℕ) (r : Ring)
    → IsValid r
    → r.enqueue_index ≡ index + k
    → (r.dequeue_index ≤ index) ⊎ (r.enqueue_index < r.dequeue_index)
    → k < fuel
    → (s : Ring) × (put_back_loop fuel r index true ≡ some s)
      × GivenBack r s index (r.enqueue_index - 1)
straight_first index k zero r v e zone enough = elim enough [ ]
straight_first index zero (suc fuel) r v e zone enough = (
  r,
  at_loop fuel index r true (omega arith),
  record {
    ends_at = omega arith;
    cycle_kept = refl;
    size_kept = refl;
    owned = λ j lo hi. absurd (omega arith);
    rest_below = λ j _. refl;
    rest_above = λ j _. refl;
  },
)
straight_first index (suc k) (suc fuel) r v e zone enough =
    let r' : Ring = record r { enqueue_index = r.enqueue_index - 1 } in
    let (s, got, g) =
      straight index k fuel r' (omega arith) (omega (arith, v.size, v.enqueue_in)) v.cycle_in
        (omega arith) (omega arith) in
    (
      s,
      first_loop fuel index r (omega arith) (omega arith) (omega arith) ∙ got,
      record {
        ends_at = g.ends_at;
        cycle_kept = g.cycle_kept;
        size_kept = g.size_kept;
        owned = g.owned;
        rest_below = g.rest_below;
        rest_above = g.rest_above;
      },
    )

-- PutBackTRB on a fragment of `k` TRBs from `index` on that no wrap splits: the enqueue index is
-- back at `index` with the cycle state as it was, each TRB of the fragment after the first shows
-- the cycle bit that keeps the controller off it, and no other TRB changes.
pub put_back_trb_straight :
    (index k fuel : ℕ) (r : Ring)
    → IsValid r
    → r.enqueue_index ≡ index + k
    → (r.dequeue_index ≤ index) ⊎ (r.enqueue_index < r.dequeue_index)
    → k < fuel
    → (s : Ring) × (put_back_trb fuel r (some index) ≡ some s)
      × GivenBack r s index (r.enqueue_index - 1)
unfolding put_back_trb
put_back_trb_straight index k fuel r v e zone enough =
    rw (lt→ltb index r.num_trbs (omega (arith, v.enqueue_in)))
      (straight_first index k fuel r v e zone enough)
