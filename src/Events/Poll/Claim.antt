-- ===== src/Events/Poll/Claim.antt =====
-- PollForCMDCompletions goes over the events that wait, oldest first, handles those that it claims,
-- and leaves cleared entries in their places.
use os_x_generic_usb.Base.{
  ℕ, zero, suc, ◌-◌, ◌≤◌, ◌<◌, ◌≡◌, ◌≢◌, ◌∙◌, refl, sym, ap, List, [], ◌∷◌, some, true, false,
  arith, length, ne→==, eq→==, inl, inr, Bool-cases, get_or, set, length-set, get_or-set_self,
  get_or-set_ne, if◌then◌else◌,
}
use mathlib.Core.Path.{ap₂}
use os_x_generic_usb.Base.Window.{after, places_on, places_between, places_on-after, window}
use os_x_generic_usb.Base.Circle.{length-contents}
use os_x_generic_usb.Trb.{Trb, zero_trb, clear_trb}
use os_x_generic_usb.Events.{EventRing, Handlers, Host}
use os_x_generic_usb.Events.Poll.{claimed, poll_at, poll_loop, poll_for_cmd_completions}
use os_x_generic_usb.Events.Queue.{IsValid, waiting, bounce_after-after}

window_agree {ℓ} :
    {A : Type ℓ} (d : A) (cap : ℕ) (xs ys : List A) (i n : ℕ)
    → ((m : ℕ) → m < n → get_or xs (places_on cap i m) d ≡ get_or ys (places_on cap i m) d)
    → i < cap
    → n ≤ cap
    → window d cap xs i n ≡ window d cap ys i n
unfolding window
window_agree d cap xs ys i zero agree lt le = refl
window_agree d cap xs ys i (suc n) agree lt le =
    let here : places_on cap i 0 ≡ i = ground arith in
    let a = agree 0 (omega arith) in
    ap₂ ◌∷◌ (rw here at a) (
      window_agree d cap xs ys (after cap i) n
        (λ m lt'.
          let k : places_on cap (after cap i) m ≡ places_on cap i (suc m) =
            places_on-after cap i m lt (omega arith) in
          rw k (agree (suc m) (omega arith)))
        (ground arith) (omega arith))

module _ {C : Type 0} (h : Handlers C) where
  -- The driver's state and the event that one event leaves.
  unfoldable pub claim : Host C → Trb → Host C × Trb
  claim s t = let (done, s') = claimed h s t in if done then (s', clear_trb t false) else (s, t)

  -- The same for events, oldest first.
  unfoldable pub claim_all : Host C → List Trb → Host C × List Trb
  claim_all s [] = (s, [])
  claim_all s (t ∷ ts) =
      let (s', t') = claim s t in let (s'', ts') = claim_all s' ts in (s'', t' ∷ ts')

  -- What a round leaves: at most the entry at `i` differs.
  poll_at-claim :
      (s : Host C) (e : EventRing) (i : ℕ)
      → i < length e.bounce_queue
      → let t = get_or e.bounce_queue i zero_trb in
        (q : List Trb) × (poll_at h s e i ≡ ((claim s t).0, record e { bounce_queue = q }))
        × (length q ≡ length e.bounce_queue)
        × (get_or q i zero_trb ≡ (claim s t).1)
        × ((j : ℕ) → j ≢ i → get_or q j zero_trb ≡ get_or e.bounce_queue j zero_trb)
  unfolding poll_at claim
  poll_at-claim s e i lt =
      let t = get_or e.bounce_queue i zero_trb in
      elim (Bool-cases (claimed h s t).0) [
        | inl y ↦ rw y (
          set e.bounce_queue i (clear_trb t false),
          refl,
          length-set e.bounce_queue i (clear_trb t false),
          get_or-set_self e.bounce_queue i (clear_trb t false) zero_trb lt,
          λ j ne. get_or-set_ne e.bounce_queue i j (clear_trb t false) zero_trb (λ o. ne (sym o)),
        )
        | inr n ↦ rw n (e.bounce_queue, refl, refl, refl, λ j ne. refl)
      ]

  -- What the loop leaves from the index `i` on, where `n` events wait there: the entries that it
  -- reaches are claimed, and no other entry changes.
  record Reached (s : Host C) (e : EventRing) (i n : ℕ) (s' : Host C) (q : List Trb) : Type 0 where
    host : s' ≡ (claim_all s (window zero_trb e.num_bounce_entries e.bounce_queue i n)).0
    events :
        window zero_trb e.num_bounce_entries q i n
        ≡ (claim_all s (window zero_trb e.num_bounce_entries e.bounce_queue i n)).1
    kept : length q ≡ length e.bounce_queue
    others :
        (m : ℕ)
        → n ≤ m
        → m < e.num_bounce_entries
        → let k = places_on e.num_bounce_entries i m in
          get_or q k zero_trb ≡ get_or e.bounce_queue k zero_trb

  -- The round at `i`, which leaves the entries `q`, and then the rounds behind it.
  Reached-step :
      (s s' : Host C) (e : EventRing) (i n : ℕ) (q q' : List Trb)
      → i < e.num_bounce_entries
      → n < e.num_bounce_entries
      → length q ≡ length e.bounce_queue
      → let c = claim s (get_or e.bounce_queue i zero_trb) in
        get_or q i zero_trb ≡ c.1
        → ((j : ℕ) → j ≢ i → get_or q j zero_trb ≡ get_or e.bounce_queue j zero_trb)
        → Reached c.0 (record e { bounce_queue = q }) (after e.num_bounce_entries i) n s' q'
        → Reached s e i (suc n) s' q'
  unfolding window claim_all
  Reached-step s s' e i n q q' lt lt' len self rest r =
      let cap = e.num_bounce_entries in
      let same : window zero_trb cap q (after cap i) n
          ≡ window zero_trb cap e.bounce_queue (after cap i) n =
        window_agree zero_trb cap q e.bounce_queue (after cap i) n
          (λ m lt''. rest (places_on cap (after cap i) m) (λ o. ground arith)) (ground arith)
          (omega arith) in
      let back : places_on cap (after cap i) (cap - 1) ≡ i = ground arith in
      record {
        host = rw same at r.host;
        events =
            ap₂ ◌∷◌
              ((ap (λ (k : ℕ). get_or q' k zero_trb) (sym back)
                  ∙ r.others (cap - 1) (omega arith) (omega arith)
                  ∙ ap (λ (k : ℕ). get_or q k zero_trb) back)
                ∙ self)
              (rw same at r.events);
        kept = r.kept ∙ len;
        others = λ m le lt''.
            let k : places_on cap (after cap i) (m - 1) ≡ places_on cap i m = ground arith in
            let o = r.others (m - 1) (omega arith) (omega arith) in
            (rw k at o) ∙ rest (places_on cap i m) (λ o. ground arith);
      }

  poll_loop-Reached :
      (n : ℕ) (s : Host C) (e : EventRing) (i : ℕ)
      → IsValid e
      → i < e.num_bounce_entries
      → places_between e.num_bounce_entries i e.bounce_enqueue_index ≡ n
      → (s' : Host C) × (q : List Trb) × (poll_loop h (suc n) true s e i
          ≡ some (s', record e { bounce_queue = q }))
        × Reached s e i n s' q
  unfolding poll_loop window claim_all
  poll_loop-Reached zero s e i v lt c =
      let i_end : i ≡ e.bounce_enqueue_index = ground (arith, v.enqueue_in) in
      (
        s,
        e.bounce_queue,
        rw (eq→== _ _ i_end) refl,
        record { host = refl; events = refl; kept = refl; others = λ m le lt'. refl },
      )
  poll_loop-Reached (suc n) s e i v lt c =
      let cap = e.num_bounce_entries in
      let t = get_or e.bounce_queue i zero_trb in
      let (q, round, len, self, rest) = poll_at-claim s e i (omega (arith, v.size)) in
      let e1 : EventRing = record e { bounce_queue = q } in
      let v1 : IsValid e1 = ground (arith, v) in
      let next = bounce_after-after e i v.small lt in
      let (s', q', run, r) =
        poll_loop-Reached n (claim s t).0 e1 (after cap i) v1 (ground arith) (ground arith) in
      let ne : i ≢ e.bounce_enqueue_index = λ o. ground arith in
      (
        s',
        q',
        rw (ne→== _ _ ne, next, round) run,
        Reached-step s s' e i n q q' lt (ground (arith, v.enqueue_in)) len self rest r,
      )

  -- PollForCMDCompletions on a valid bounce queue, where the register space stays valid, with fuel for
  -- the events that wait: it ends, and leaves what claiming them one by one leaves, oldest first, of
  -- the driver's state and of the events. The queue stays valid, with its indices.
  pub poll_for_cmd_completions_claims :
      (s : Host C) (e : EventRing)
      → IsValid e
      → let c = claim_all s (waiting e) in
        (e' : EventRing) × (poll_for_cmd_completions h (suc (length (waiting e))) true s e
          ≡ some (c.0, e'))
        × (waiting e' ≡ c.1)
        × IsValid e'
        × (e'.bounce_dequeue_index ≡ e.bounce_dequeue_index)
        × (e'.bounce_enqueue_index ≡ e.bounce_enqueue_index)
  unfolding poll_for_cmd_completions
  poll_for_cmd_completions_claims s e v =
      let n = places_between e.num_bounce_entries e.bounce_dequeue_index e.bounce_enqueue_index in
      let len =
        length-contents zero_trb e.num_bounce_entries e.bounce_queue e.bounce_dequeue_index
          e.bounce_enqueue_index in
      let (s', q, run, r) = poll_loop-Reached n s e e.bounce_dequeue_index v v.dequeue_in refl in
      (
        record e { bounce_queue = q },
        rw (len, sym r.host) run,
        r.events,
        ground (arith, v, r.kept),
        refl,
        refl,
      )
