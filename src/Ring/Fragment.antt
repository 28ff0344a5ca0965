-- ===== src/Ring/Fragment.antt =====
-- GetNextTRB, CloseFragment, PutBackTRB, CanTDFragmentFit and FreeSlotsOnRing of Transfers.cpp.
-- A pointer into the ring is an index; `*ppFirstTrbInFragment` is an `Option` of one.
pub mod Inv
pub mod Moves
pub mod Fit
pub mod Back
pub mod Undo
use os_x_generic_usb.Base.{
  ℕ, zero, suc, ◌+◌, ◌-◌, ◌/◌, ◌%◌, List, Option, none, some, Bool, true, false, get_or, set, u16,
  u32, flip_bit, put_bit, clear_bit, ltb, leb, ◌==◌, ◌&&◌, not, if◌then◌else◌,
}
use os_x_generic_usb.Trb.{Trb, zero_trb, chain_bit, flip_cycle, clear_trb, cycle_bit}
use os_x_generic_usb.Ring.{Ring, trb_at, link_index, page_size}

-- What GetNextTRB returns through its result and its arguments.
pub record Next : Type 0 where
  pub index : ℕ
  pub first : Option ℕ
  pub ring : Ring

-- `d` of the link TRB when the ring goes on over it.
abbrev pub link_fourth : Ring → Bool → ℕ → ℕ
link_fourth r is_last d = put_bit 0 (not (r.cycle_state == 0)) (put_bit chain_bit (not is_last) d)

-- The branch at the last index before the link TRB: the new TRB is the one there, and the ring goes
-- on over the link TRB to index 0.
unfoldable pub wrap_over_link : Ring → Bool → Ring
wrap_over_link r is_last =
    let t = trb_at r (link_index r) in
    record r {
      trbs = set r.trbs (link_index r) (record t { d = link_fourth r is_last t.d });
      cycle_state = flip_bit 0 r.cycle_state;
    }

-- The `for` loop that copies the TRBs of a split fragment to the start of the ring: `n` rounds,
-- from index `i` to index `j`.
unfoldable pub copy_trbs : ℕ → ℕ → ℕ → List Trb → List Trb
copy_trbs zero i j ts = ts
copy_trbs (suc n) i j ts =
    copy_trbs n (i + 1) (j + 1) (set ts j (flip_cycle (get_or ts i zero_trb)))

-- The fragment that begins at `first` moves to index 0, and a copy of the link TRB takes its place.
unfoldable pub relocate : Ring → ℕ → Bool → Ring
relocate r first is_first_fragment =
    let queued = link_index r - first in
    let ts = copy_trbs queued first 0 r.trbs in
    let link = get_or ts (link_index r) zero_trb in
    let fourth = put_bit chain_bit (not is_first_fragment) link.d in
    record r { trbs = set ts first (record link { d = fourth }); enqueue_index = queued }

-- The end of GetNextTRB: the TRB at the enqueue index is cleared but for its cycle bit and returned.
unfoldable pub take_trb : Ring → ℕ → Option ℕ → Next
take_trb r new_enqueue_index first = record {
  index = r.enqueue_index;
  first = elim first [ none ↦ some r.enqueue_index | some f ↦ some f ];
  ring = record r {
    trbs = set r.trbs r.enqueue_index (clear_trb (trb_at r r.enqueue_index) false);
    enqueue_index = new_enqueue_index;
  };
}

-- The branch that neither wraps nor relocates.
unfoldable pub step_forward : Ring → Option ℕ → Option Next
step_forward r first =
    let new_index = r.enqueue_index + 1 in
    if new_index == r.dequeue_index then none else some (take_trb r new_index first)

unfoldable pub relocate_and_take : Ring → ℕ → Bool → Option Next
relocate_and_take r first is_first_fragment =
    if ltb r.dequeue_index (link_index r + 2 - first)
    then none
    else let s = relocate r first is_first_fragment in
      some (take_trb s (link_index r - first + 1) (some 0))

unfoldable pub continue_fragment : Ring → Option ℕ → Bool → Option Next
continue_fragment r none is_first_fragment = step_forward r none
continue_fragment r (some first) is_first_fragment =
    if r.enqueue_index == 0
    then relocate_and_take r first is_first_fragment
    else step_forward r (some first)

-- A failing call leaves the ring and the fragment's start as they were.
unfoldable pub get_next_trb : Ring → Bool → Option ℕ → Bool → Option Next
get_next_trb r is_last first is_first_fragment =
    if leb (link_index r) r.enqueue_index
    then none
    else if r.enqueue_index == link_index r - 1
    then (if r.dequeue_index == 0 then none else some (take_trb (wrap_over_link r is_last) 0 first))
    else continue_fragment r first is_first_fragment

-- `d` of the fragment's first TRB when the fragment is handed over: the new word, with the cycle bit
-- that the TRB has inverted.
unfoldable pub close_fragment : Ring → Option ℕ → ℕ → Ring
close_fragment r none new_fourth = r
close_fragment r (some first) new_fourth =
    let t = trb_at r first in
    record r {
      trbs = set r.trbs first (record t { d = flip_bit 0 (clear_bit 0 new_fourth + cycle_bit t) });
    }

-- One round of the loop of PutBackTRB without its test: the cycle bit of the TRB at the enqueue
-- index is given back, but not in the first round; then the enqueue index goes back.
unfoldable pub give_back : Ring → Bool → Ring
give_back r is_first =
    let t = trb_at r r.enqueue_index in
    if is_first then r else record r {
      trbs = set r.trbs r.enqueue_index (record t { d = put_bit 0 (r.cycle_state == 0) t.d });
    }

unfoldable pub go_back : Ring → Ring
go_back r =
    if r.enqueue_index == 0
    then record r { enqueue_index = link_index r; cycle_state = flip_bit 0 r.cycle_state }
    else record r { enqueue_index = r.enqueue_index - 1 }

-- The loop of PutBackTRB, with fuel.
unfoldable pub put_back_loop : ℕ → Ring → ℕ → Bool → Option Ring
put_back_loop zero r index is_first = none
put_back_loop (suc fuel) r index is_first =
    let s = give_back r is_first in
    let rest = put_back_loop fuel (go_back s) index false in
    if r.enqueue_index == index
    then some r
    else if r.enqueue_index == r.dequeue_index
    then some s
    else rest

unfoldable pub put_back_trb : ℕ → Ring → Option ℕ → Option Ring
put_back_trb fuel r none = some r
put_back_trb fuel r (some index) =
    if ltb index r.num_trbs then put_back_loop fuel r index true else some r

-- The number of TRBs that the longest unsplit stretch of the ring takes (`numFit`).
unfoldable pub num_fit : Ring → ℕ
num_fit r =
    if ltb r.enqueue_index r.dequeue_index
    then r.dequeue_index - 1 - r.enqueue_index
    else let fit = r.num_trbs - r.enqueue_index in
      if r.dequeue_index == 0
      then (if ltb 2 fit then fit - 2 else 0)
      else if ltb (fit - 1) (r.dequeue_index - 1)
      then r.dequeue_index - 1
      else fit - 1

-- The TRBs that a fragment of `bytes` bytes may take (`maxNumPages`).
unfoldable pub max_trbs_for : ℕ → ℕ
max_trbs_for bytes =
    let pages = bytes / page_size + 2 in if ltb 1 (bytes % page_size) then pages + 1 else pages

unfoldable pub can_td_fragment_fit : Ring → ℕ → Bool
can_td_fragment_fit r bytes = leb (max_trbs_for bytes) (num_fit r)

unfoldable pub free_slots_on_ring : Ring → ℕ
free_slots_on_ring r =
    if ltb r.enqueue_index r.dequeue_index
    then r.dequeue_index - 1 - r.enqueue_index
    else let v = r.dequeue_index + r.num_trbs - r.enqueue_index in if ltb 3 v then v - 3 else 0
