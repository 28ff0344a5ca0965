-- ===== src/Ring/Walk.antt =====
-- The walks of CountRingToED and NextTransferDQ.
use os_x_generic_usb.Base.{
  ℕ, zero, suc, ◌+◌, ◌-◌, ◌*◌, ◌<◌, ◌≡◌, ◌≢◌, ◌⊎◌, inl, inr, refl, Option, none, some, arith,
  Option-cases, bit, eq→==, ne→==, ltb, if◌then◌else◌,
}
use os_x_generic_usb.Trb.{trb_type, chain_bit, type_link, type_event_data}
use os_x_generic_usb.Ring.{
  Ring, trb_at, link_index, count_after, count_next, count_loop, count_ring_to_ed, add_bytes,
  next_transfer_dq,
}
use os_x_generic_usb.Ring.Fragment.Inv.{IsValid}
use native.Mathlib.Decide.{ℕ_discrete}

-- The index that NextTransferDQ computes on a valid ring lies before the link TRB.
pub next_transfer_dq-lt :
    (r : Ring) (index : ℕ) → IsValid r → next_transfer_dq r index < link_index r
unfolding next_transfer_dq
next_transfer_dq-lt r index v = ground arith

-- No TRB that the enqueue index has passed since its last wrap is a link TRB.
abbrev pub NoLinkBelow : Ring → Type 0
NoLinkBelow r = (j : ℕ) → j < r.enqueue_index → trb_type (trb_at r j) ≢ type_link

-- How many rounds the walk can still make.
abbrev pub rounds : Ring → ℕ → ℕ
rounds r index =
    if ltb index r.enqueue_index
    then r.enqueue_index - index
    else r.num_trbs - index + r.enqueue_index

-- The reasons for which the walk stops at an index.
abbrev pub Stops : Ring → ℕ → Type 0
Stops r index =
    (trb_type (trb_at r index) ≡ type_event_data)
    ⊎ ((bit chain_bit (trb_at r index).d ≡ 0) ⊎ (count_after r index ≡ r.enqueue_index))

count_next-none : (r : Ring) (index : ℕ) → count_next r index ≡ none → Stops r index
unfolding count_next
count_next-none r index e = ground arith

count_next-some :
    (r : Ring) (index next : ℕ)
    → count_next r index ≡ some next
    → (next ≡ count_after r index) × (count_after r index ≢ r.enqueue_index)
unfolding count_next
count_next-some r index next e = ground arith

count_after_closer :
    (r : Ring) (index : ℕ)
    → IsValid r
    → NoLinkBelow r
    → index < link_index r
    → index ≢ r.enqueue_index
    → count_after r index ≢ r.enqueue_index
    → (count_after r index < link_index r) × (rounds r (count_after r index) < rounds r index)
unfolding count_after
count_after_closer r index v no_link lt ne ne' = ground (arith, no_link index)

-- What CountRingToED promises of its result.
Counted : Ring → Option (ℕ × ℕ) → Type 0
Counted r none = ⊥
Counted r (some (index, shortfall)) = (index < link_index r) × Stops r index

count_loop-Counted :
    (fuel index shortfall : ℕ) (r : Ring)
    → IsValid r
    → NoLinkBelow r
    → index < link_index r
    → index ≢ r.enqueue_index
    → rounds r index < fuel
    → Counted r (count_loop fuel r index shortfall)
unfolding count_loop Counted
count_loop-Counted zero index shortfall r v no_link lt ne enough = absurd (omega arith)
count_loop-Counted (suc fuel) index shortfall r v no_link lt ne enough =
    elim (Option-cases (count_next r index)) [
      | inl e ↦ rw (e, count_loop, Counted) (lt, count_next-none r index e)
      | inr (next, e) ↦
          let (is_after, ne') = count_next-some r index next e in
          let closer = count_after_closer r index v no_link lt ne ne' in
          rw (e, count_loop)
            (count_loop-Counted fuel next (add_bytes (trb_at r next) shortfall) r v no_link
              (rw is_after (closer.0)) (rw is_after ne') (rw is_after (omega (arith, closer.1))))
    ]

Counted-some :
    (r : Ring) (o : Option (ℕ × ℕ))
    → Counted r o
    → (index shortfall : ℕ) × (o ≡ some (index, shortfall)) × (index < link_index r) × Stops r index
unfolding Counted
Counted-some r none h = elim h [ ]
Counted-some r (some (index, shortfall)) h = (index, shortfall, refl, h.0, h.1)

-- From an index before the link TRB, on a valid ring with no link TRB below the enqueue index, the
-- walk of CountRingToED ends within twice the ring's length, before the link TRB. If it begins at the
-- enqueue index it stays there and leaves the shortfall as it was. If not, it ends at an event-data
-- TRB, at a TRB with no chain bit, or at the TRB before the enqueue index.
pub count_ring_to_ed_ends :
    (fuel index shortfall : ℕ) (r : Ring)
    → IsValid r
    → NoLinkBelow r
    → index < link_index r
    → 2 * r.num_trbs < fuel
    → (end total : ℕ) × (count_ring_to_ed fuel r index shortfall ≡ some (end, total))
      × (end < link_index r)
      × (index ≡ r.enqueue_index → (end ≡ index) × (total ≡ shortfall))
      × (index ≢ r.enqueue_index → Stops r end)
unfolding count_ring_to_ed
count_ring_to_ed_ends fuel index shortfall r v no_link lt enough =
    elim (ℕ_discrete index r.enqueue_index) [
      | yes e ↦ (
        index,
        shortfall,
        rw (eq→== index r.enqueue_index e) refl,
        lt,
        λ _. (refl, refl),
        λ ne. absurd (ne e),
      )
      | no ne ↦
          let (end, total, got, inside, stops) =
            Counted-some r (count_loop fuel r index shortfall)
              (count_loop-Counted fuel index shortfall r v no_link lt ne (ground arith)) in
          (
            end,
            total,
            rw (ne→== index r.enqueue_index ne) got,
            inside,
            λ e. absurd (ne e),
            λ _. stops,
          )
    ]
