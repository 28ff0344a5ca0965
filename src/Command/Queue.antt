-- ===== src/Command/Queue.antt =====
-- The command ring as a bounded queue of the commands that wait for their completion.
use os_x_generic_usb.Base.{
  ℕ, ◌+◌, ◌-◌, ◌*◌, ◌^◌, ◌≤◌, ◌<◌, ◌≡◌, ◌≢◌, ◌∙◌, refl, List, [], ◌∷◌, ◌++◌, Option, none, some,
  true, arith, length, set, lt→ltb, ◌==◌, ne→==, u16, Bool-cases, inl, inr,
}
use os_x_generic_usb.Base.Window.{after, places_between}
use os_x_generic_usb.Base.Circle.{contents, length-contents, contents_put, contents_take}
use os_x_generic_usb.Trb.{Trb, trb_error, get_trb_addr64}
use os_x_generic_usb.Trb.Laws.{diff_trb_index_above}
use os_x_generic_usb.Command.{
  CommandRing, callback_at, error_cmd_ring_stop, next_enqueue, with_command, enque_cmd, complete_at,
  complete_if_inside, do_cmd_completion,
}
use os_x_generic_usb.Command.Inv.{IsValid, with_command-Keeps, callbacks-with_command}

-- The indices that commands take.
abbrev pub capacity : CommandRing → ℕ
capacity r = r.num_trbs - 1

-- The callbacks of the commands between the dequeue index and the enqueue index, oldest first.
abbrev pub pending : CommandRing → List (Option ℕ)
pending r = contents none (capacity r) r.callbacks r.dequeue_index r.enqueue_index

pub length-pending :
    (r : CommandRing)
    → length (pending r) ≡ places_between (capacity r) r.dequeue_index r.enqueue_index
length-pending r = length-contents none (capacity r) r.callbacks r.dequeue_index r.enqueue_index

-- A ring that differs from `r` by an entry written at the enqueue index, which moves on.
pending_written :
    (r s : CommandRing) (x : Option ℕ)
    → IsValid r
    → after (capacity r) r.enqueue_index ≢ r.dequeue_index
    → s.num_trbs ≡ r.num_trbs
    → s.dequeue_index ≡ r.dequeue_index
    → s.callbacks ≡ set r.callbacks r.enqueue_index x
    → s.enqueue_index ≡ after (capacity r) r.enqueue_index
    → pending s ≡ pending r ++ x ∷ []
pending_written r s x v ne num deq cbs enq =
    rw (num, deq, cbs, enq)
      (contents_put none (capacity r) r.callbacks r.dequeue_index r.enqueue_index x v.dequeue_in
        v.enqueue_in ne (omega (arith, v.callbacks_size)))

-- An event that completes the command at the dequeue index.
pub record CompletesFirst (r : CommandRing) (trb : Trb) : Type 0 where
  pub addr : get_trb_addr64 trb ≡ r.phys_addr + 16 * r.dequeue_index
  pub addr_pos : 0 < r.phys_addr
  pub addr_in : r.phys_addr + 16 * 65536 < 2 ^ 64
  pub not_stop : trb_error trb ≢ error_cmd_ring_stop

-- A ring that differs from `r` by an entry cleared at the dequeue index, which moves on.
pending_cleared :
    (r s : CommandRing) (first : Option ℕ) (rest : List (Option ℕ))
    → IsValid r
    → pending r ≡ first ∷ rest
    → s.num_trbs ≡ r.num_trbs
    → s.enqueue_index ≡ r.enqueue_index
    → s.callbacks ≡ set r.callbacks r.dequeue_index none
    → s.dequeue_index ≡ after (capacity r) r.dequeue_index
    → (callback_at r r.dequeue_index ≡ first) × (pending s ≡ rest)
pending_cleared r s first rest v e num enq cbs deq =
    let p =
      contents_take none (capacity r) r.callbacks r.dequeue_index r.enqueue_index none first rest
        v.dequeue_in v.enqueue_in e in
    (p.0, rw (num, enq, cbs, deq) p.1)

module _ (r : CommandRing) (v : IsValid r) where
  next_enqueue-after : next_enqueue r ≡ after (capacity r) r.enqueue_index
  unfolding next_enqueue
  next_enqueue-after = ground (arith, v.enqueue_in)

  next_enqueue-small : next_enqueue r ≤ 65534
  unfolding next_enqueue
  next_enqueue-small = ground (arith, v.small)

  full_iff_next :
      (next_enqueue r ≡ r.dequeue_index → length (pending r) + 1 ≡ capacity r)
      × (next_enqueue r ≢ r.dequeue_index → length (pending r) + 1 < capacity r)
  full_iff_next =
      let n = next_enqueue-after in
      let l = length-pending r in
      (
        λ e. ground (arith, v.enqueue_in, v.dequeue_in),
        λ e. ground (arith, v.enqueue_in, v.dequeue_in),
      )

  -- EnqueCMD on a valid ring fails when the ring holds one command fewer than it has indices.
  pub enque_cmd_full :
      (trb : Trb) (trb_type param : ℕ)
      → length (pending r) + 1 ≡ capacity r
      → enque_cmd r trb trb_type param ≡ none
  unfolding enque_cmd
  enque_cmd_full trb trb_type param full = elim (Bool-cases (next_enqueue r == r.dequeue_index)) [
    | inl e ↦ rw e
    | inr e ↦ absurd (omega (arith, full_iff_next.1 (ground arith)))
  ]

  enque_cmd_appends :
      (trb : Trb) (trb_type param : ℕ)
      → next_enqueue r ≢ r.dequeue_index
      → (s : CommandRing) × (enque_cmd r trb trb_type param ≡ some s)
        × (pending s ≡ pending r ++ some param ∷ [])
  unfolding enque_cmd
  enque_cmd_appends trb trb_type param ne =
      let next = next_enqueue r in
      let k = with_command-Keeps r trb trb_type param v next in
      let s : CommandRing = record (with_command r trb trb_type param next) {
        enqueue_index = u16 next;
      } in
      (
        s,
        rw (ne→== next r.dequeue_index ne),
        pending_written r s (some param) v (rw next_enqueue-after at ne) k.size_kept k.dequeue_kept
            (callbacks-with_command r trb trb_type param next)
            (omega (arith, next_enqueue-after, next_enqueue-small)),
      )

  -- EnqueCMD on a valid ring that is not full succeeds, and puts the command's callback behind those
  -- that wait.
  pub enque_cmd_refines :
      (trb : Trb) (trb_type param : ℕ)
      → length (pending r) + 1 < capacity r
      → (s : CommandRing) × (enque_cmd r trb trb_type param ≡ some s)
        × (pending s ≡ pending r ++ some param ∷ [])
  enque_cmd_refines trb trb_type param free =
      enque_cmd_appends trb trb_type param (λ e. omega (arith, full_iff_next.0 e))

  completes_at :
      (trb : Trb)
      → CompletesFirst r trb
      → do_cmd_completion r trb ≡ complete_at r trb r.dequeue_index
  unfolding do_cmd_completion complete_if_inside
  completes_at trb c = rw (
    ne→== (get_trb_addr64 trb) 0 (omega (arith, c.addr, c.addr_pos)),
    c.addr,
    diff_trb_index_above r.phys_addr r.dequeue_index
        (omega (arith, c.addr_in, v.dequeue_in, v.small)) (omega (arith, v.dequeue_in, v.small)),
    complete_if_inside,
    lt→ltb r.dequeue_index (r.num_trbs - 1) v.dequeue_in,
  )

  -- The fields of what that leaves.
  completes_first :
      (trb : Trb)
      → CompletesFirst r trb
      → let c = do_cmd_completion r trb in
        (c.handled ≡ true)
        × (c.call ≡ callback_at r r.dequeue_index)
        × (c.ring.cycle_state ≡ r.cycle_state)
        × (c.ring.num_trbs ≡ r.num_trbs)
        × (c.ring.enqueue_index ≡ r.enqueue_index)
        × (c.ring.callbacks ≡ set r.callbacks r.dequeue_index none)
        × (c.ring.dequeue_index ≡ after (capacity r) r.dequeue_index)
  unfolding complete_at
  completes_first trb c =
      rw (completes_at trb c, complete_at, ne→== (trb_error trb) error_cmd_ring_stop c.not_stop)
        (refl, refl, refl, refl, refl, refl, ground (arith, v.dequeue_in, v.small))

  -- On a valid ring at a bus address that is not 0 and leaves room below 2 ^ 64, an event for the
  -- oldest command that waits, other than a ring stop, makes DoCMDCompletion call that command's
  -- callback, and the others go on waiting in their order.
  pub do_cmd_completion_refines :
      (trb : Trb) (first : Option ℕ) (rest : List (Option ℕ))
      → CompletesFirst r trb
      → pending r ≡ first ∷ rest
      → let c = do_cmd_completion r trb in
        (c.handled ≡ true) × (c.call ≡ first) × (pending c.ring ≡ rest)
  do_cmd_completion_refines trb first rest c e =
      let at_first = completes_first trb c in
      let p =
        pending_cleared r (do_cmd_completion r trb).ring first rest v e at_first.3 at_first.4
          at_first.5 at_first.6 in
      (at_first.0, at_first.1 ∙ p.0, p.1)
