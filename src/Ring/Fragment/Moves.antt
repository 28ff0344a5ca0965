-- ===== src/Ring/Fragment/Moves.antt =====
-- The three ways in which GetNextTRB succeeds, each as an equation under its conditions.
use os_x_generic_usb.Base.{
  ℕ, ◌+◌, ◌-◌, ◌≤◌, ◌<◌, ◌≡◌, ◌≢◌, Option, none, some, Bool, arith, le→ltb, eq→==, ne→==, leb,
}
use os_x_generic_usb.Ring.{Ring, link_index}
use os_x_generic_usb.Ring.Fragment.{
  get_next_trb, continue_fragment, step_forward, relocate_and_take, relocate, take_trb,
  wrap_over_link,
}
use os_x_generic_usb.Ring.Fragment.Inv.{IsValid}

lt→leb : (a b : ℕ) → a < b → leb b a ≡ Bool.false
lt→leb a b h = ground arith

-- A fragment may be stepped forward: it has no TRB yet, or the enqueue index is not 0.
abbrev pub Steps : Ring → Option ℕ → Type 0
Steps r none = Unit {0}
Steps r (some f) = r.enqueue_index ≢ 0

module _ (r : Ring) (v : IsValid r) (is_last b : Bool) where
  pub get_next_trb_wrap :
      (first : Option ℕ)
      → r.enqueue_index + 1 ≡ link_index r
      → r.dequeue_index ≢ 0
      → get_next_trb r is_last first b ≡ some (take_trb (wrap_over_link r is_last) 0 first)
  unfolding get_next_trb
  get_next_trb_wrap first e ne = rw (
    lt→leb r.enqueue_index (link_index r) v.enqueue_in,
    eq→== r.enqueue_index (link_index r - 1) (omega arith),
    ne→== r.dequeue_index 0 ne,
  )

  pub get_next_trb_step :
      (first : Option ℕ)
      → r.enqueue_index + 1 < link_index r
      → r.enqueue_index + 1 ≢ r.dequeue_index
      → Steps r first
      → get_next_trb r is_last first b ≡ some (take_trb r (r.enqueue_index + 1) first)
  unfolding get_next_trb continue_fragment step_forward
  get_next_trb_step none lt ne s = rw (
    lt→leb r.enqueue_index (link_index r) v.enqueue_in,
    ne→== r.enqueue_index (link_index r - 1) (omega arith),
    ne→== (r.enqueue_index + 1) r.dequeue_index ne,
  )
  get_next_trb_step (some f) lt ne s = rw (
    lt→leb r.enqueue_index (link_index r) v.enqueue_in,
    ne→== r.enqueue_index (link_index r - 1) (omega arith),
    ne→== r.enqueue_index 0 s,
    ne→== (r.enqueue_index + 1) r.dequeue_index ne,
  )

  pub get_next_trb-relocate :
      (f : ℕ)
      → r.enqueue_index ≡ 0
      → link_index r + 2 - f ≤ r.dequeue_index
      → get_next_trb r is_last (some f) b
        ≡ some (take_trb (relocate r f b) (link_index r - f + 1) (some 0))
  unfolding get_next_trb continue_fragment relocate_and_take
  get_next_trb-relocate f e enough = rw (
    lt→leb r.enqueue_index (link_index r) v.enqueue_in,
    ne→== r.enqueue_index (link_index r - 1) (omega (arith, v.room)),
    eq→== r.enqueue_index 0 e,
    le→ltb r.dequeue_index (link_index r + 2 - f) enough,
  )
