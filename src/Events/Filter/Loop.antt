-- ===== src/Events/Filter/Loop.antt =====
-- The loop of FilterInterrupt over FilterEventRing, on memory that the controller does not write
-- meanwhile.
use os_x_generic_usb.Base.{
  ℕ, zero, suc, ◌<◌, ◌≡◌, ◌∙◌, refl, sym, ap, List, [], ◌∷◌, ◌++◌, some, true, false, arith, Bool,
  inl, inr, Bool-cases, if◌then◌else◌, get_or,
}
use mathlib.Core.List.{append_assoc, append-nil}
use mathlib.Core.Path.{ap₂}
use os_x_generic_usb.Trb.{Trb, zero_trb}
use os_x_generic_usb.Events.{EventRing, Handlers, Host, next_event, is_stale, advance}
use os_x_generic_usb.Events.Filter.{Filtered, filter_event_ring, filter_all}
use os_x_generic_usb.Events.Filter.Laws.{
  IsPlaced, advance-IsPlaced, fresh_count, fresh_count-advance, SameRing, fresh_count-SameRing,
  IsPlaced-SameRing, is_stale-SameRing, advance-SameRing, dealt_with, kept, lost,
  filter_event_ring-Fate, waiting-advance,
}
use os_x_generic_usb.Events.Queue.{IsValid, waiting}

-- The events that the controller has written, in the order of the ring, at most `n` of them.
pub arrived : ℕ → EventRing → List Trb
arrived zero e = []
arrived (suc n) e =
    let rest = arrived n (advance e) in if is_stale e then [] else next_event e ∷ rest

-- Some of the items of a list, in its order.
pub data Among : List Trb → List Trb → Type 0 where
  stop : (ys : List Trb) → Among [] ys
  pick : (y : Trb) {xs ys : List Trb} → Among xs ys → Among (y ∷ xs) (y ∷ ys)
  skip : (y : Trb) {xs ys : List Trb} → Among xs ys → Among xs (y ∷ ys)

arrived-SameRing : (n : ℕ) (d e : EventRing) → SameRing d e → arrived n d ≡ arrived n e
unfolding arrived
arrived-SameRing zero d e r = refl
arrived-SameRing (suc n) d e r =
    let next : next_event d ≡ next_event e =
      ap₂ (λ (l : List Trb) (i : ℕ). get_or l i zero_trb) r.same_entries r.same_index in
    simp (
      is_stale-SameRing d e r,
      next,
      arrived-SameRing n (advance d) (advance e) (advance-SameRing d e r),
    )

arrived_more :
    (n : ℕ) (e : EventRing)
    → is_stale e ≡ false
    → arrived (suc n) e ≡ next_event e ∷ arrived n (advance e)
unfolding arrived
arrived_more n e fresh = rw fresh refl

module _ {C : Type 0} (h : Handlers C) (now : ℕ) where
  -- What the loop leaves.
  pub record Swept (n : ℕ) (e : EventRing) (f : Filtered h) : Type 0 where
    pub more_waiting : List Trb
    pub behind : waiting f.events ≡ waiting e ++ more_waiting
    pub among : Among more_waiting (arrived n e)
    pub valid : IsValid f.events
    pub placed : IsPlaced f.events

  abbrev Result : ℕ → Host C → EventRing → Bool → ℕ → Type 0
  Result fuel s e invoke n =
      (f : Filtered h) × (filter_all h fuel now s e invoke ≡ some f) × Swept n e f

  swept_stale :
      (n : ℕ) (s : Host C) (e : EventRing) (invoke : Bool)
      → IsValid e
      → IsPlaced e
      → is_stale e ≡ true
      → Result (suc n) s e invoke (suc n)
  unfolding filter_all filter_event_ring
  swept_stale n s e invoke v p stale = (
    record { host = s; events = e; more = false; invoke = invoke },
    rw stale refl,
    record {
      more_waiting = [];
      behind = sym (append-nil (waiting e));
      among = stop _;
      valid = v;
      placed = p;
    },
  )

  -- A round that keeps `xs`, and those behind it.
  swept_more :
      (n : ℕ) (s : Host C) (e : EventRing) (invoke : Bool) (xs : List Trb)
      → let f1 = filter_event_ring h now s e invoke in
        f1.more ≡ true
        → waiting f1.events ≡ waiting e ++ xs
        → ((ys : List Trb) → Among ys (arrived n f1.events) → Among (xs ++ ys) (arrived (suc n) e))
        → Result n f1.host f1.events f1.invoke n
        → Result (suc n) s e invoke (suc n)
  unfolding filter_all
  swept_more n s e invoke xs more behind among (f, run, r) = (
    f,
    rw more run,
    record {
      more_waiting = xs ++ r.more_waiting;
      behind =
          r.behind
          ∙ ap (λ (l : List Trb). l ++ r.more_waiting) behind
          ∙ append_assoc (waiting e) xs r.more_waiting;
      among = among r.more_waiting r.among;
      valid = r.valid;
      placed = r.placed;
    },
  )

  -- A round that loses its event ends the loop.
  swept_lost :
      (n : ℕ) (s : Host C) (e : EventRing) (invoke : Bool)
      → let f1 = filter_event_ring h now s e invoke in
        f1.more ≡ false
        → waiting f1.events ≡ waiting e
        → IsValid f1.events
        → IsPlaced f1.events
        → Result (suc n) s e invoke (suc n)
  unfolding filter_all
  swept_lost n s e invoke more same v p = (
    filter_event_ring h now s e invoke,
    rw more refl,
    record {
      more_waiting = [];
      behind = same ∙ sym (append-nil (waiting e));
      among = stop _;
      valid = v;
      placed = p;
    },
  )

  -- The loop of FilterInterrupt over FilterEventRing, on valid indices, with fuel for the entries of
  -- the controller's ring that show the cycle state expected there: it ends, and behind the events
  -- that waited there wait some of those that the controller has written, in their order. The indices
  -- stay valid.
  pub filter_all-Swept :
      (fuel : ℕ) (s : Host C) (e : EventRing) (invoke : Bool)
      → IsValid e
      → IsPlaced e
      → fresh_count e < fuel
      → (f : Filtered h) × (filter_all h fuel now s e invoke ≡ some f) × Swept fuel e f
  filter_all-Swept zero s e invoke v p lt = absurd (omega arith)
  filter_all-Swept (suc fuel) s e invoke v p lt = elim (Bool-cases (is_stale e)) [
    | inl stale ↦ swept_stale fuel s e invoke v p stale
    | inr fresh ↦
        let f1 : Filtered h = filter_event_ring h now s e invoke in
        let (fate, v1, r) = filter_event_ring-Fate h now s e invoke v fresh in
        let p1 = IsPlaced-SameRing f1.events (advance e) r (advance-IsPlaced e p) in
        let same_arrived = arrived-SameRing fuel f1.events (advance e) r in
        let less = fresh_count-SameRing f1.events (advance e) r in
        let rest =
          filter_all-Swept fuel f1.host f1.events f1.invoke v1 p1
            (omega (arith, fresh_count-advance e p fresh, less)) in
        let arr = arrived_more fuel e fresh in
        elim fate [
          | dealt_with once more ev ↦
              swept_more fuel s e invoke [] more
                (ap waiting ev ∙ waiting-advance e ∙ sym (append-nil (waiting e)))
                (λ ys a. rw arr (skip (next_event e) (rw same_arrived at a))) rest
          | kept later more inv behind over ↦
              swept_more fuel s e invoke (next_event e ∷ []) more behind
                (λ ys a. rw arr (pick (next_event e) (rw same_arrived at a))) rest
          | lost later more full same over ↦ swept_lost fuel s e invoke more same v1 p1
        ]
  ]
