-- ===== src/TransferEvent/Keeps.antt =====
-- The TDs of an asynchronous endpoint, when a transfer event is handled.
use native.Mathlib.Decide.{ℕ_discrete}
use os_x_generic_usb.Base.{
  ℕ, ◌+◌, ◌*◌, ◌<◌, ◌≡◌, ◌≢◌, ◌∙◌, refl, ap, sym, List, [], ◌∷◌, ◌++◌, Option, none, some, true,
  false, not, arith, length, length-append, inl, inr, ◌⊎◌, ◌&&◌, ◌==◌, eq→==, ne→==, if◌then◌else◌,
  subst, if_both,
}
use os_x_generic_usb.Ring.{Ring, link_index}
use os_x_generic_usb.Ring.Fragment.Inv.{IsValid}
use os_x_generic_usb.Ring.Walk.{NoLinkBelow, count_ring_to_ed_ends}
use os_x_generic_usb.Layout.Covers.{IsMapped}
use os_x_generic_usb.Async.{
  Td, Endpoint, Commands, Completed, find_td, get_td_from_active_queue_with_index, complete,
  is_empty, success,
}
use os_x_generic_usb.Async.Queues.{Found, find_td-Found}
use os_x_generic_usb.Async.Abort.{num_tds}
use os_x_generic_usb.Schedule.{Control, Context, Pipe}
use os_x_generic_usb.Schedule.Retire.{IsLawful, retire_tds_keeps}
use os_x_generic_usb.TransferEvent.{
  Words, Setting, index_behind, update_dq, take_td, on_td, note_shortfall, result_code, on_no_td,
  on_async, is_halted,
}

-- What the search for a TD leaves.
unfoldable Taken : {C : Type 0} → Pipe C → Option (Td × Pipe C) → Type 0
Taken s none = Unit {0}
Taken s (some (t, s')) =
    (s'.ring ≡ s.ring)
    × (s'.endpoint.aborting ≡ s.endpoint.aborting)
    × (num_tds s'.endpoint + 1 ≡ num_tds s.endpoint)

-- What becomes of the TDs: none is lost, or one where the ring's indices were equal.
unfoldable pub Handled : {C : Type 0} → Pipe C → Option (Pipe C) → Type 0
Handled {C = C} s o =
    (s' : Pipe C) × (o ≡ some s')
    × ((num_tds s'.endpoint ≡ num_tds s.endpoint)
        ⊎ ((num_tds s'.endpoint + 1 ≡ num_tds s.endpoint)
            × (s.ring.enqueue_index ≡ s.ring.dequeue_index)))

completed_if :
    {C : Type 0} (s : Pipe C) (index : ℕ) (o : Option (List Td × (Td × List Td)))
    → Found index s.endpoint.scheduled o
    → Taken s
        (elim (elim o as (λ _. Option (Td × (Endpoint × (Commands × List Completed)))) [
          | none ↦ none
          | some (orphans, (t, rest)) ↦
              let e = s.endpoint in
              let e' : Endpoint = record e { scheduled = rest; done = e.done ++ orphans } in
              some (
                t,
                (if is_empty orphans
                    then (e', (s.commands, []))
                    else complete success s.commands e'),
              )
        ])
          as (λ _. Option (Td × Pipe C)) [
            | none ↦ none
            | some (t, (e, (cs, reports))) ↦
                some
                  (t, record s { endpoint = e; commands = cs; completed = s.completed ++ reports })
          ])
unfolding Taken Found complete
completed_if s index none f = tt
completed_if s index (some ([], (t, rest))) f = (
  refl,
  refl,
  omega (arith, ap (λ (l : List Td). length l) f.0, length-append s.endpoint.done []),
)
completed_if s index (some (u ∷ us, (t, rest))) f = (
  refl,
  refl,
  omega (
    arith,
    ap (λ (l : List Td). length l) f.0,
    length-append (u ∷ us) (t ∷ rest),
    length-append s.endpoint.done (u ∷ us),
  ),
)

take_td-Taken :
    {C : Type 0} (ctl : Control C) (x : Context) (g : Setting) (s : Pipe C) (index : ℕ)
    → Taken s (take_td ctl x g s index)
unfolding take_td get_td_from_active_queue_with_index
take_td-Taken ctl x g s index =
    completed_if s index (find_td index s.endpoint.scheduled)
      (find_td-Found index s.endpoint.scheduled)

update_dq-IsValid :
    {C : Type 0} (ctl : Control C) (x : Context) (g : Setting) (s : Pipe C) (index : ℕ)
    → IsValid s.ring
    → IsValid (update_dq ctl x g s index).ring
unfolding update_dq index_behind
update_dq-IsValid ctl x g s index v = ground (arith, v)

module _ {C : Type 0} (ctl : Control C) (x : Context) (g : Setting) (law : IsLawful ctl)
    (some_size : x.max_packet_size ≢ 0) (mapped : (command : ℕ) → IsMapped (x.dma command)) where
  on_td-Handled :
      (e : Words) (s s' : Pipe C) (t : Td) (index shortfall : ℕ)
      → IsValid s.ring
      → s.endpoint.aborting ≡ false
      → Taken s (some (t, s'))
      → Handled s (on_td ctl x g e s' t index shortfall)
  unfolding on_td Handled Taken update_dq
  on_td-Handled e s s' t index shortfall v going taken =
      let t' = note_shortfall g e t shortfall in
      let v' = subst IsValid (sym taken.0) v in
      let is_error = not (e.err == 1) in
      let call = if is_error then true else t.interrupt_this_td in
      let flush = is_error && not t.final_td_in_transaction in
      let (s'', run, num, done) =
        retire_tds_keeps ctl x law some_size mapped (update_dq ctl x g s' index) t'
          (result_code g e) call flush (update_dq-IsValid ctl x g s' index v') (taken.1 ∙ going) in
      elim (ℕ_discrete s'.ring.enqueue_index s'.ring.dequeue_index) [
        | yes same ↦
            rw (on_td, eq→== s'.ring.enqueue_index s'.ring.dequeue_index same)
              (
                s',
                refl,
                inr (
                  taken.2,
                  ap (λ (r : Ring). r.enqueue_index) (sym taken.0)
                      ∙ same
                      ∙ ap (λ (r : Ring). r.dequeue_index) taken.0,
                ),
              )
        | no ne ↦
            rw (on_td, ne→== s'.ring.enqueue_index s'.ring.dequeue_index ne)
              (s'', run, inl (num ∙ taken.2))
      ]

  moved_on : (s : Pipe C) (index : ℕ) → Handled s (some (update_dq ctl x g s index))
  unfolding Handled update_dq
  moved_on s index = (update_dq ctl x g s index, refl, inl refl)

  -- What is done with a TD that was searched for, or without it.
  searched :
      (e : Words) (s : Pipe C) (index shortfall : ℕ) (otherwise : Option (Pipe C))
      (o : Option (Td × Pipe C))
      → IsValid s.ring
      → s.endpoint.aborting ≡ false
      → Handled s otherwise
      → Taken s o
      → Handled s (elim o as (λ _. Option (Pipe C)) [
        | some (t, s') ↦ on_td ctl x g e s' t index shortfall
        | none ↦ otherwise
      ])
  searched e s index shortfall otherwise none v going h taken = h
  searched e s index shortfall otherwise (some (t, s')) v going h taken =
      on_td-Handled e s s' t index shortfall v going taken

  module _ (fuel : ℕ) (e : Words) (s : Pipe C) (v : IsValid s.ring)
      (going : s.endpoint.aborting ≡ false) (no_link : NoLinkBelow s.ring)
      (enough : 2 * s.ring.num_trbs < fuel) where
    on_no_td-Handled :
        (index : ℕ) → index < link_index s.ring → Handled s (on_no_td ctl x g fuel e s index)
    unfolding on_no_td
    on_no_td-Handled index lt =
        let (end, total, got, inside, at_enqueue, stops) =
          count_ring_to_ed_ends fuel index e.shortfall s.ring v no_link lt enough in
        rw (on_no_td, got)
          (if_both (Handled s) (end == index) _ _ (moved_on s index) (
            searched e s end total (some (update_dq ctl x g s end)) (take_td ctl x g s end) v going
              (moved_on s end) (take_td-Taken ctl x g s end)))

    -- An event for a TRB before the link TRB of an asynchronous endpoint's valid ring, with no link TRB
    -- below the enqueue index, an endpoint with a packet size that is not being aborted, DMA segments of
    -- at least one byte and fewer than 2 ^ 32, a SetTRDQPtr that keeps a valid ring valid, and fuel for
    -- more than twice the ring's TRBs: it is handled, whatever the event says and whatever the
    -- endpoint's state, and the endpoint owns as many TDs as before, or one fewer where the ring's
    -- indices were equal.
    pub on_async_keeps :
        (index : ℕ)
        → index < link_index s.ring
        → (s' : Pipe C) × (on_async ctl x g fuel e s index ≡ some s')
          × ((num_tds s'.endpoint ≡ num_tds s.endpoint)
              ⊎ ((num_tds s'.endpoint + 1 ≡ num_tds s.endpoint)
                  × (s.ring.enqueue_index ≡ s.ring.dequeue_index)))
    unfolding on_async Handled
    on_async_keeps index lt =
        let stopped =
          if_both (Handled s) (is_halted (ctl.ep_state s.control)) _ _ (on_no_td-Handled index lt)
            (moved_on s index) in
        searched e s index e.shortfall _ (take_td ctl x g s index) v going stopped
          (take_td-Taken ctl x g s index)
