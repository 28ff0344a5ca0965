-- ===== src/Events/Filter/Laws.antt =====
-- FilterEventRing: what becomes of an event, and that the loop of FilterInterrupt ends.
use os_x_generic_usb.Base.{
  ℕ, zero, suc, ◌+◌, ◌≤◌, ◌<◌, ◌≡◌, ◌≢◌, refl, [], ◌∷◌, ◌++◌, true, false, arith, Bool, length,
  ◌==◌, inl, inr, Bool-cases, get_or, if◌then◌else◌, if_cases, ltb, bit, flip_bit, u32,
}
use os_x_generic_usb.Trb.{Trb, zero_trb}
use os_x_generic_usb.Events.{
  Event, command_event, transfer_event, mfindex_wrap, port_change, other_event, event_of, EventRing,
  Handlers, Host, next_event, is_stale, advance, bounce,
}
use os_x_generic_usb.Events.Filter.{
  Handling, bounced, finished, handle, Filtered, settle, filter_event_ring,
}
use os_x_generic_usb.Events.Queue.{
  IsValid, waiting, bounce-IsValid, bounce_refines, bounce_full, has_room,
}

-- What the dequeue index and the cycle state of the controller's ring keep to.
pub record IsPlaced (e : EventRing) : Type 0 where
  pub small : e.num_xhc_entries ≤ 65535
  pub index_in : e.xhc_dequeue_index < e.num_xhc_entries
  pub cycle_in : e.cycle_state ≤ 1

count : (ℕ → Bool) → ℕ → ℕ
count f zero = 0
count f (suc n) = count f n + (if f n then 1 else 0)

count_same : (f g : ℕ → Bool) (n : ℕ) → ((j : ℕ) → j < n → f j ≡ g j) → count f n ≡ count g n
unfolding count
count_same f g zero e = refl
count_same f g (suc n) e =
    ground (arith, count_same f g n (λ j lt. e j (omega arith)), e n (omega arith))

count_one_less :
    (f g : ℕ → Bool) (n k : ℕ)
    → k < n
    → f k ≡ true
    → g k ≡ false
    → ((j : ℕ) → j < n → j ≢ k → f j ≡ g j)
    → count f n ≡ suc (count g n)
unfolding count
count_one_less f g zero k lt on off e = absurd (omega arith)
count_one_less f g (suc n) k lt on off e = elim (Bool-cases (n == k)) [
  | inl q ↦
      let k_n : k ≡ n = ground arith in
      let c = count_same f g n (λ j lt. e j (omega arith) (λ o. omega arith)) in
      let on' = rw k_n at on in let off' = rw k_n at off in rw (on', off') (omega (arith, c))
  | inr q ↦
      let c = count_one_less f g n k (ground arith) on off (λ j lt. e j (omega arith)) in
      let here = e n (omega arith) (λ o. ground arith) in ground arith
]

-- Whether an entry of the controller's ring shows the cycle state that the driver expects there, and
-- how many do.
fresh : EventRing → ℕ → Bool
fresh e j =
    bit 0 (get_or e.erst j zero_trb).d
    == bit 0 (if ltb j e.xhc_dequeue_index then flip_bit 0 e.cycle_state else e.cycle_state)

pub fresh_count : EventRing → ℕ
fresh_count e = count (fresh e) e.num_xhc_entries

count_bound : (f : ℕ → Bool) (n : ℕ) → count f n ≤ n
unfolding count
count_bound f zero = omega arith
count_bound f (suc n) = ground (arith, count_bound f n)

pub advance-IsPlaced : (e : EventRing) → IsPlaced e → IsPlaced (advance e)
unfolding advance
advance-IsPlaced e p = ground arith

fresh_elsewhere :
    (e : EventRing) (j : ℕ)
    → IsPlaced e
    → j < e.num_xhc_entries
    → j ≢ e.xhc_dequeue_index
    → fresh e j ≡ fresh (advance e) j
unfolding fresh advance
fresh_elsewhere e j p lt ne = ground arith

fresh_here : (e : EventRing) → is_stale e ≡ false → fresh e e.xhc_dequeue_index ≡ true
unfolding fresh is_stale
fresh_here e h = ground arith

fresh_past :
    (e : EventRing)
    → IsPlaced e
    → is_stale e ≡ false
    → fresh (advance e) e.xhc_dequeue_index ≡ false
unfolding fresh is_stale advance
fresh_past e p h = ground arith

-- An event that is taken is not fresh any more, and nothing else changes.
pub fresh_count-advance :
    (e : EventRing)
    → IsPlaced e
    → is_stale e ≡ false
    → fresh_count e ≡ suc (fresh_count (advance e))
unfolding fresh_count advance
fresh_count-advance e p h =
    count_one_less (fresh e) (fresh (advance e)) e.num_xhc_entries e.xhc_dequeue_index p.index_in
      (fresh_here e h) (fresh_past e p h) (λ j. fresh_elsewhere e j p)

pub fresh_count-le : (e : EventRing) → fresh_count e ≤ e.num_xhc_entries
unfolding fresh_count
fresh_count-le e = count_bound (fresh e) e.num_xhc_entries

-- Whether an event needs no more work after the interrupt: a command's completion that
-- DoCMDCompletion recognizes, a transfer event of which processTransferEvent wants no copy, and a port
-- status change.
unfoldable pub AtOnce : {C : Type 0} → Handlers C → Host C → Trb → Event → Type 0
AtOnce h s t command_event = (h.do_cmd_completion s.driver t).1 ≡ true
AtOnce h s t transfer_event = (h.process_transfer_event s.driver t).1 ≡ false
AtOnce h s t mfindex_wrap = ⊥
AtOnce h s t port_change = Unit {0}
AtOnce h s t other_event = ⊥

-- What becomes of the event that FilterEventRing takes.
pub data Fate {C : Type 0} (h : Handlers C) (s : Host C) (e : EventRing) (f : Filtered h)
    : Type 0 where
  dealt_with :
      AtOnce h s (next_event e) (event_of s.renesas (next_event e))
      → f.more ≡ true
      → f.events ≡ advance e
      → Fate h s e f
  kept :
      ¬ AtOnce h s (next_event e) (event_of s.renesas (next_event e))
      → f.more ≡ true
      → f.invoke ≡ true
      → waiting f.events ≡ waiting e ++ next_event e ∷ []
      → f.events.num_bounce_queue_overflows ≡ e.num_bounce_queue_overflows
      → Fate h s e f
  lost :
      ¬ AtOnce h s (next_event e) (event_of s.renesas (next_event e))
      → f.more ≡ false
      → length (waiting e) + 1 ≡ e.num_bounce_entries
      → waiting f.events ≡ waiting e
      → f.events.num_bounce_queue_overflows ≡ u32 (e.num_bounce_queue_overflows + 1)
      → Fate h s e f

advance-IsValid : (e : EventRing) → IsValid e → IsValid (advance e)
unfolding advance
advance-IsValid e v = ground arith

pub waiting-advance : (e : EventRing) → waiting (advance e) ≡ waiting e
unfolding advance
waiting-advance e = refl

-- The bounce queue's part and the controller's part of the ring do not touch each other.
pub record SameRing (d e : EventRing) : Type 0 where
  pub same_index : d.xhc_dequeue_index ≡ e.xhc_dequeue_index
  pub same_cycle : d.cycle_state ≡ e.cycle_state
  pub same_size : d.num_xhc_entries ≡ e.num_xhc_entries
  pub same_entries : d.erst ≡ e.erst

pub fresh_count-SameRing : (d e : EventRing) → SameRing d e → fresh_count d ≡ fresh_count e
unfolding fresh_count fresh
fresh_count-SameRing d e r = rw (r.same_index, r.same_cycle, r.same_size, r.same_entries) refl

pub IsPlaced-SameRing : (d e : EventRing) → SameRing d e → IsPlaced e → IsPlaced d
IsPlaced-SameRing d e r p = ground arith

pub is_stale-SameRing : (d e : EventRing) → SameRing d e → is_stale d ≡ is_stale e
unfolding is_stale
is_stale-SameRing d e r = rw (r.same_index, r.same_cycle, r.same_entries) refl

pub advance-SameRing : (d e : EventRing) → SameRing d e → SameRing (advance d) (advance e)
unfolding advance
advance-SameRing d e r = ground arith

bounce-SameRing : (e : EventRing) (t : Trb) → SameRing (bounce e t).0 e
unfolding bounce
bounce-SameRing e t = ground arith

module _ {C : Type 0} (h : Handlers C) where
  settle-SameRing :
      (s : Host C) (e : EventRing) (t : Trb) (invoke : Bool) (g : Handling)
      → SameRing (settle h s e t invoke g).events e
  unfolding settle
  settle-SameRing s e t invoke bounced = bounce-SameRing e t
  settle-SameRing s e t invoke (finished w) = record {
    same_index = refl;
    same_cycle = refl;
    same_size = refl;
    same_entries = refl;
  }

  settle-IsValid :
      (s : Host C) (e : EventRing) (t : Trb) (invoke : Bool) (g : Handling)
      → IsValid e
      → IsValid (settle h s e t invoke g).events
  unfolding settle
  settle-IsValid s e t invoke bounced v = bounce-IsValid e t v
  settle-IsValid s e t invoke (finished w) v = v

  -- The switch leaves an event to the bounce queue exactly if it is not dealt with at once.
  abbrev Sorted : Type 0 → Handling → Type 0
  Sorted once bounced = ¬ once
  Sorted once (finished wakes) = once

  handle-Sorted :
      (now : ℕ) (s : Host C) (t : Trb) (k : Event)
      → event_of s.renesas t ≡ k
      → Sorted (AtOnce h s t k) (handle h now s t).1
  unfolding handle AtOnce
  handle-Sorted now s t command_event e =
      rw (e, handle)
        (if_cases (Sorted ((h.do_cmd_completion s.driver t).1 ≡ true))
          (h.do_cmd_completion s.driver t).1 _ _ (λ y. y) (λ n y. ground (arith, n, y)))
  handle-Sorted now s t transfer_event e =
      rw (e, handle)
        (if_cases (Sorted ((h.process_transfer_event s.driver t).1 ≡ false))
          (h.process_transfer_event s.driver t).1 _ _ (λ y n. ground (arith, n, y)) (λ n. n))
  handle-Sorted now s t mfindex_wrap e = rw (e, handle) (λ o. o)
  handle-Sorted now s t port_change e = rw (e, handle) tt
  handle-Sorted now s t other_event e = rw (e, handle) (λ o. o)

  settle-Fate :
      (before s : Host C) (e : EventRing) (invoke : Bool) (g : Handling)
      → Sorted (AtOnce h before (next_event e) (event_of before.renesas (next_event e))) g
      → IsValid e
      → Fate h before e (settle h s (advance e) (next_event e) invoke g)
  unfolding settle advance
  settle-Fate before s e invoke (finished w) o v = dealt_with o refl refl
  settle-Fate before s e invoke bounced o v =
      let v' = advance-IsValid e v in
      let t = next_event e in
      elim (has_room e v) [
        | inl free ↦
            let (put, queue, same) = bounce_refines (advance e) v' t free in
            kept o put (rw put refl) queue same
        | inr full ↦
            let (put, queue, more) = bounce_full (advance e) v' t full in lost o put full queue more
      ]

  -- FilterEventRing on a valid bounce queue, when the controller has written the entry at the dequeue
  -- index: the entry is taken. An event that a handler deals with at once, and no other, leaves the
  -- bounce queue as it was: a completion that DoCMDCompletion recognizes, a transfer event of which
  -- processTransferEvent wants no copy, or a port status change. Any other is kept as the last that
  -- waits for the work loop, or lost and counted because the bounce queue is full; only a lost event
  -- makes it return false. The bounce queue stays valid.
  pub filter_event_ring-Fate :
      (now : ℕ) (s : Host C) (e : EventRing) (invoke : Bool)
      → IsValid e
      → is_stale e ≡ false
      → let f = filter_event_ring h now s e invoke in
        Fate h s e f × IsValid f.events × SameRing f.events (advance e)
  unfolding filter_event_ring
  filter_event_ring-Fate now s e invoke v fresh =
      let (s', g) = handle h now s (next_event e) in
      let sorted = handle-Sorted now s (next_event e) (event_of s.renesas (next_event e)) refl in
      rw fresh (
        settle-Fate s s' e invoke g sorted v,
        settle-IsValid s' (advance e) (next_event e) invoke g (advance-IsValid e v),
        settle-SameRing s' (advance e) (next_event e) invoke g,
      )
