-- ===== src/Ring/Tests.antt =====
-- Small runs of the transfer ring's operations, on rings of four and of eight TRBs.
use os_x_generic_usb.Base.{
  ℕ, zero, suc, ◌<◌, ◌≢◌, ◌≡◌, inl, refl, List, [], ◌∷◌, Option, none, some, Bool, true, false,
  arith,
}
use os_x_generic_usb.Trb.{Trb, zero_trb}
use os_x_generic_usb.Ring.{Ring, alloc_ring, count_ring_to_ed}
use os_x_generic_usb.Ring.Alloc.{IsFresh, alloc_ring-IsFresh}
use os_x_generic_usb.Ring.Walk.{NoLinkBelow, Stops, count_ring_to_ed_ends}
use os_x_generic_usb.Ring.Fragment.{
  Next, get_next_trb, put_back_trb, max_trbs_for, num_fit, can_td_fragment_fit, take_trb,
  step_forward, continue_fragment,
}
use os_x_generic_usb.Ring.Fragment.Inv.{IsValid, Took, get_next_trb-Took}
use os_x_generic_usb.Ring.Fragment.Fit.{take_all, Spans, take_all_of_fit}
use os_x_generic_usb.Ring.Fragment.Back.{Walks, EndsAt, put_back_trb_ends}
use os_x_generic_usb.Ring.Fragment.Undo.{GivenBack, put_back_trb_straight}

abbrev link_trb : Trb
link_trb = record { a = 4096; b = 0; c = 0; d = 0x1802 }

-- Index 1 is the oldest TRB in use, index 4 the next free one.
abbrev in_use : Ring
in_use = record {
  trbs = zero_trb ∷ zero_trb ∷ zero_trb ∷ zero_trb ∷ zero_trb ∷ zero_trb ∷ zero_trb ∷ link_trb ∷ [];
  phys_addr = 4096;
  num_trbs = 8;
  num_pages = 1;
  cycle_state = 1;
  enqueue_index = 4;
  dequeue_index = 1;
  last_seen_dequeue_index = 0;
  last_seen_frame = 0;
  next_isoc_frame = 0;
}

in_use-IsValid : IsValid in_use
in_use-IsValid = record {
  size = refl;
  room = omega arith;
  enqueue_in = omega arith;
  dequeue_in = omega arith;
  cycle_in = omega arith;
}

in_use-NoLinkBelow : NoLinkBelow in_use
in_use-NoLinkBelow zero lt = omega arith
in_use-NoLinkBelow (suc zero) lt = omega arith
in_use-NoLinkBelow (suc (suc zero)) lt = omega arith
in_use-NoLinkBelow (suc (suc (suc zero))) lt = omega arith
in_use-NoLinkBelow (suc (suc (suc (suc j)))) lt = absurd (omega arith)

-- The two calls of GetNextTRB for a fragment of one TRB and its event-data TRB.
abbrev two_calls : List (Bool × Bool)
two_calls = (false, true) ∷ (true, true) ∷ []

take_all_of_fit_example :
    (s : Ring) × (first : Option ℕ) × (take_all two_calls in_use none ≡ some (s, first))
    × IsValid s
    × Spans s first 2
unfolding can_td_fragment_fit num_fit max_trbs_for
take_all_of_fit_example = take_all_of_fit two_calls in_use 0 in_use-IsValid refl (omega arith)

abbrev taken : Next
taken = take_trb in_use 5 none

in_use-taken : get_next_trb in_use false none true ≡ some taken
unfolding get_next_trb continue_fragment step_forward take_trb
in_use-taken = refl

get_next_trb-Took_example : Took 8 1 taken
get_next_trb-Took_example =
    get_next_trb-Took in_use in_use-IsValid false none true taken tt in_use-taken

put_back_trb_ends_example :
    (s : Ring) × (put_back_trb 9 in_use (some 6) ≡ some s) × Walks 8 1 s × EndsAt 1 6 in_use s
put_back_trb_ends_example = put_back_trb_ends in_use 6 9 in_use-IsValid (omega arith) (omega arith)

put_back_trb_straight_example :
    (s : Ring) × (put_back_trb 9 in_use (some 2) ≡ some s) × GivenBack in_use s 2 3
put_back_trb_straight_example =
    put_back_trb_straight 2 2 9 in_use in_use-IsValid refl (inl (omega arith)) (omega arith)

count_ring_to_ed_ends_example :
    (end total : ℕ) × (count_ring_to_ed 17 in_use 2 0 ≡ some (end, total))
    × (end < 7)
    × (2 ≡ in_use.enqueue_index → (end ≡ 2) × (total ≡ 0))
    × (2 ≢ in_use.enqueue_index → Stops in_use end)
count_ring_to_ed_ends_example =
    count_ring_to_ed_ends 17 2 0 in_use in_use-IsValid in_use-NoLinkBelow (omega arith)
      (omega arith)

-- A kernel that has one page, at the address 8192.
abbrev one_page : ℕ → Option ℕ
one_page n = some 8192

alloc_ring-IsFresh_example :
    (s : Ring) × (alloc_ring one_page in_use 1 ≡ some s)
    × IsFresh s
    × (s.num_trbs ≡ 256)
    × (s.phys_addr ≡ 8192)
    × (s.cycle_state ≡ 1)
alloc_ring-IsFresh_example =
    alloc_ring-IsFresh one_page in_use 1 8192 (omega arith) (omega arith) refl (omega arith)
      (omega arith) refl
