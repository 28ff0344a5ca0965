-- ===== src/Events/Poll/Drain.antt =====
-- PollEventRing2 handles the oldest event that waits, and PollInterrupts' loop all of them, in order.
use os_x_generic_usb.Base.{
  ℕ, zero, suc, ◌<◌, ◌≡◌, ◌≢◌, refl, ap, List, [], ◌∷◌, some, true, false, arith, Bool, length,
  ◌==◌, ne→==, eq→==, ◌||◌, inl, inr, Bool-cases,
}
use os_x_generic_usb.Base.Circle.{contents_none, contents_some}
use os_x_generic_usb.Trb.{Trb, zero_trb}
use os_x_generic_usb.Events.{EventRing, Handlers, Host, take_bounced}
use os_x_generic_usb.Events.Poll.{before_poll, poll_event, poll_event_ring2, poll_all}
use os_x_generic_usb.Events.Queue.{IsValid, waiting, take_bounced_refines, take_bounced-IsValid}

-- What polling a list of events, oldest first, leaves of the driver's state.
module _ {C : Type 0} (h : Handlers C) (hse_last : Bool) where
  unfoldable pub drained : (ℕ → Bool) → Host C → ℕ → List Trb → Host C
  drained hse s overflows [] =
      let s' : Host C = before_poll h (hse 0) s overflows in
      record s' { hse_detected = hse_last || s'.hse_detected }
  drained hse s overflows (t ∷ ts) =
      drained (λ k. hse (suc k)) (poll_event h (before_poll h (hse 0) s overflows) t) 0 ts

  -- The ring when the overflows are taken note of.
  abbrev noted : EventRing → EventRing
  noted e = record e { num_bounce_queue_overflows = 0 }

  noted-IsValid : (e : EventRing) → IsValid e → IsValid (noted e)
  noted-IsValid e v = ground arith

  -- Events wait exactly where the indices differ.
  differ :
      (e : EventRing) (t : Trb) (ts : List Trb)
      → waiting e ≡ t ∷ ts
      → e.bounce_dequeue_index ≢ e.bounce_enqueue_index
  differ e t ts q i =
      let n = contents_none zero_trb e.num_bounce_entries e.bounce_queue e.bounce_dequeue_index in
      absurd (ground arith)

  same :
      (e : EventRing) → IsValid e → waiting e ≡ [] → e.bounce_dequeue_index ≡ e.bounce_enqueue_index
  same e v q = elim (Bool-cases (e.bounce_dequeue_index == e.bounce_enqueue_index)) [
    | inl i ↦ ground arith
    | inr ne ↦
        let (t, ts, p) =
          contents_some zero_trb e.num_bounce_entries e.bounce_queue e.bounce_dequeue_index
            e.bounce_enqueue_index v.dequeue_in v.enqueue_in (ground arith) in
        absurd (ground arith)
  ]

  -- PollEventRing2 on a valid bounce queue in which events wait: it returns true, having handled the
  -- oldest, and the others go on waiting in their order.
  pub poll_event_ring2_first :
      (hse : Bool) (s : Host C) (e : EventRing) (t : Trb) (ts : List Trb)
      → IsValid e
      → waiting e ≡ t ∷ ts
      → (e' : EventRing) × (poll_event_ring2 h hse hse_last s e
          ≡ (poll_event h (before_poll h hse s e.num_bounce_queue_overflows) t, e', true))
        × (waiting e' ≡ ts)
        × IsValid e'
        × (e'.num_bounce_queue_overflows ≡ 0)
  unfolding poll_event_ring2 take_bounced
  poll_event_ring2_first hse s e t ts v q =
      let r = take_bounced_refines (noted e) (noted-IsValid e v) t ts q in
      let k = take_bounced-IsValid (noted e) (noted-IsValid e v) in
      (
        (take_bounced (noted e)).1,
        rw (ne→== _ _ (differ e t ts q)) (
            ap
              (λ (t : Trb). (
                poll_event h (before_poll h hse s e.num_bounce_queue_overflows) t,
                (take_bounced (noted e)).1,
                true,
              ))
              r.0),
        r.1,
        k,
        refl,
      )

  poll_event_ring2_none :
      (hse : ℕ → Bool) (s : Host C) (e : EventRing)
      → IsValid e
      → waiting e ≡ []
      → poll_event_ring2 h (hse 0) hse_last s e
        ≡ (drained hse s e.num_bounce_queue_overflows [], noted e, false)
  unfolding poll_event_ring2 drained
  poll_event_ring2_none hse s e v q = rw (eq→== _ _ (same e v q)) refl

  -- The loop of PollInterrupts over PollEventRing2 on a valid bounce queue, with fuel for the events
  -- that wait: it ends, having handled all of them in their order, and the queue is empty and valid.
  pub poll_all_drains :
      (fuel : ℕ) (hse : ℕ → Bool) (s : Host C) (e : EventRing) (ts : List Trb)
      → IsValid e
      → waiting e ≡ ts
      → length ts < fuel
      → (e' : EventRing) × (poll_all h fuel hse hse_last s e
          ≡ some (drained hse s e.num_bounce_queue_overflows ts, e'))
        × IsValid e'
        × (waiting e' ≡ [])
  unfolding poll_all drained
  poll_all_drains zero hse s e ts v q lt = absurd (omega arith)
  poll_all_drains (suc fuel) hse s e [] v q lt =
      (noted e, rw (poll_event_ring2_none hse s e v q) refl, noted-IsValid e v, q)
  poll_all_drains (suc fuel) hse s e (t ∷ ts) v q lt =
      let (e1, step, w, v1, z) = poll_event_ring2_first (hse 0) s e t ts v q in
      let (e2, run, v2, w2) =
        poll_all_drains fuel (λ k. hse (suc k))
          (poll_event h (before_poll h (hse 0) s e.num_bounce_queue_overflows) t) e1 ts v1 w
          (omega arith) in
      (e2, rw step (rw z at run), v2, w2)
