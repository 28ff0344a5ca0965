-- ===== src/Events/Queue.antt =====
-- The bounce queue as a bounded queue of events, between the interrupt filter that fills it and the
-- work loop that empties it.
use os_x_generic_usb.Base.{
  ◌⊎◌, ℕ, ◌+◌, ◌≤◌, ◌<◌, ◌≡◌, ◌≢◌, refl, List, [], ◌∷◌, ◌++◌, true, false, arith, length,
  length-set, get_or, ◌==◌, ne→==, u32, Bool-cases, inl, inr,
}
use os_x_generic_usb.Base.Window.{after, places_between}
use os_x_generic_usb.Base.Circle.{contents, length-contents, contents_put, contents_take}
use os_x_generic_usb.Trb.{Trb, zero_trb, clear_trb}
use os_x_generic_usb.Events.{EventRing, bounce_after, bounce, take_bounced}

-- What the indices of the bounce queue keep to. In an array of `cap` events, `cap` - 1 have room.
pub record IsValid (e : EventRing) : Type 0 where
  pub size : length e.bounce_queue ≡ e.num_bounce_entries
  pub room : 2 ≤ e.num_bounce_entries
  pub small : e.num_bounce_entries ≤ 65535
  pub enqueue_in : e.bounce_enqueue_index < e.num_bounce_entries
  pub dequeue_in : e.bounce_dequeue_index < e.num_bounce_entries

-- The events that wait for the work loop, oldest first.
abbrev pub waiting : EventRing → List Trb
waiting e =
    contents zero_trb e.num_bounce_entries e.bounce_queue e.bounce_dequeue_index
      e.bounce_enqueue_index

pub bounce_after-after :
    (e : EventRing) (i : ℕ)
    → e.num_bounce_entries ≤ 65535
    → i < e.num_bounce_entries
    → bounce_after e i ≡ after e.num_bounce_entries i
unfolding bounce_after
bounce_after-after e i small lt = ground arith

-- FilterEventRing's last step keeps the bounce queue valid.
pub bounce-IsValid : (e : EventRing) (t : Trb) → IsValid e → IsValid (bounce e t).0
unfolding bounce
bounce-IsValid e t v = ground (
  arith,
  length-set e.bounce_queue e.bounce_enqueue_index t,
  bounce_after-after e e.bounce_enqueue_index v.small v.enqueue_in,
)

pub take_bounced-IsValid : (e : EventRing) → IsValid e → IsValid (take_bounced e).1
unfolding take_bounced
take_bounced-IsValid e v = ground (
  arith,
  length-set e.bounce_queue e.bounce_dequeue_index
      (clear_trb (get_or e.bounce_queue e.bounce_dequeue_index zero_trb) false),
  bounce_after-after e e.bounce_dequeue_index v.small v.dequeue_in,
)

module _ (e : EventRing) (v : IsValid e) where
  length-waiting :
      length (waiting e)
      ≡ places_between e.num_bounce_entries e.bounce_dequeue_index e.bounce_enqueue_index
  length-waiting =
      length-contents zero_trb e.num_bounce_entries e.bounce_queue e.bounce_dequeue_index
        e.bounce_enqueue_index

  full_iff_next :
      (bounce_after e e.bounce_enqueue_index ≡ e.bounce_dequeue_index
        → length (waiting e) + 1 ≡ e.num_bounce_entries)
      × (bounce_after e e.bounce_enqueue_index ≢ e.bounce_dequeue_index
          → length (waiting e) + 1 < e.num_bounce_entries)
  full_iff_next =
      let n = bounce_after-after e e.bounce_enqueue_index v.small v.enqueue_in in
      let l = length-waiting in
      (
        λ q. ground (arith, v.enqueue_in, v.dequeue_in),
        λ q. ground (arith, v.enqueue_in, v.dequeue_in),
      )

  -- A valid bounce queue has room for an event, or is full.
  pub has_room :
      (length (waiting e) + 1 < e.num_bounce_entries)
      ⊎ (length (waiting e) + 1 ≡ e.num_bounce_entries)
  has_room = elim (Bool-cases (bounce_after e e.bounce_enqueue_index == e.bounce_dequeue_index)) [
    | inl q ↦ inr (full_iff_next.0 (ground arith))
    | inr q ↦ inl (full_iff_next.1 (ground arith))
  ]

  -- On a valid bounce queue with room, the event is put behind those that wait, and no overflow is
  -- counted.
  pub bounce_refines :
      (t : Trb)
      → length (waiting e) + 1 < e.num_bounce_entries
      → ((bounce e t).1 ≡ true)
        × (waiting (bounce e t).0 ≡ waiting e ++ t ∷ [])
        × ((bounce e t).0.num_bounce_queue_overflows ≡ e.num_bounce_queue_overflows)
  unfolding bounce
  bounce_refines t free =
      let ne : bounce_after e e.bounce_enqueue_index ≢ e.bounce_dequeue_index =
        λ q. omega (arith, full_iff_next.0 q) in
      let a = bounce_after-after e e.bounce_enqueue_index v.small v.enqueue_in in
      rw (ne→== _ _ ne) (
        refl,
        rw a (
            contents_put zero_trb e.num_bounce_entries e.bounce_queue e.bounce_dequeue_index
              e.bounce_enqueue_index t v.dequeue_in v.enqueue_in (rw a at ne)
              (omega (arith, v.size))),
        refl,
      )

  -- On a valid bounce queue that is full, the event is lost and counted, and those that wait go on
  -- waiting.
  pub bounce_full :
      (t : Trb)
      → length (waiting e) + 1 ≡ e.num_bounce_entries
      → ((bounce e t).1 ≡ false)
        × (waiting (bounce e t).0 ≡ waiting e)
        × ((bounce e t).0.num_bounce_queue_overflows ≡ u32 (e.num_bounce_queue_overflows + 1))
  unfolding bounce
  bounce_full t full =
      elim (Bool-cases (bounce_after e e.bounce_enqueue_index == e.bounce_dequeue_index)) [
        | inl q ↦ rw q (refl, refl, refl)
        | inr q ↦ absurd (omega (arith, full_iff_next.1 (ground arith)))
      ]

  -- On a valid bounce queue, the oldest event that waits is taken, and the others go on waiting in
  -- their order.
  pub take_bounced_refines :
      (first : Trb) (rest : List Trb)
      → waiting e ≡ first ∷ rest
      → ((take_bounced e).0 ≡ first) × (waiting (take_bounced e).1 ≡ rest)
  unfolding take_bounced
  take_bounced_refines first rest q =
      let w = clear_trb (get_or e.bounce_queue e.bounce_dequeue_index zero_trb) false in
      let p =
        contents_take zero_trb e.num_bounce_entries e.bounce_queue e.bounce_dequeue_index
          e.bounce_enqueue_index w first rest v.dequeue_in v.enqueue_in q in
      (p.0, rw (bounce_after-after e e.bounce_dequeue_index v.small v.dequeue_in) p.1)
