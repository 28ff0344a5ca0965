-- ===== src/Ring/Fragment/Fit.antt =====
-- CanTDFragmentFit against GetNextTRB: what the test grants, the calls get.
use os_x_generic_usb.Base.{
  ℕ, suc, ◌+◌, ◌-◌, ◌≤◌, ◌<◌, ◌≡◌, ◌≢◌, ◌⊎◌, inl, inr, refl, List, [], ◌∷◌, Option, none, some,
  Bool, true, arith, length,
}
use os_x_generic_usb.Ring.{Ring, link_index}
use os_x_generic_usb.Ring.Fragment.{
  Next, get_next_trb, relocate, take_trb, wrap_over_link, num_fit, can_td_fragment_fit,
  max_trbs_for,
}
use os_x_generic_usb.Ring.Fragment.Inv.{
  IsValid, IsStart, take_trb-Took, wrap-IsValid, relocate-IsValid,
}
use os_x_generic_usb.Ring.Fragment.Moves.{
  Steps, get_next_trb_wrap, get_next_trb_step, get_next_trb-relocate,
}
use native.Mathlib.Decide.{ℕ_discrete, dec_lt}

-- The calls of GetNextTRB that build one fragment: each with its two flags, the fragment's start
-- passed from one to the next. `none` if one of them fails.
pub take_all : List (Bool × Bool) → Ring → Option ℕ → Option (Ring × Option ℕ)
take_all [] r first = some (r, first)
take_all ((is_last, is_first_fragment) ∷ calls) r first =
    elim (get_next_trb r is_last first is_first_fragment) [
      | none ↦ none
      | some n ↦ take_all calls n.ring n.first
    ]

-- There is room for `n` TRBs from index `f` on: without a wrap, up to the link TRB, or at the
-- ring's start.
abbrev HasRoom : Ring → ℕ → ℕ → Type 0
HasRoom r f n =
    ((f + n ≤ link_index r) × (0 < r.dequeue_index))
    ⊎ ((f + n < link_index r) ⊎ (n < r.dequeue_index))

-- Where a fragment of `k` TRBs from index `f` on, that may grow to `n`, stands in a ring: before the
-- dequeue index, or behind it, where it may still move to the start.
data Place (r : Ring) (f k n : ℕ) : Type 0 where
  below : r.enqueue_index ≡ f + k → f + n < r.dequeue_index → Place r f k n
  above :
      r.dequeue_index ≤ f
      → f + k < link_index r
      → r.enqueue_index ≡ f + k
      → HasRoom r f n
      → Place r f k n
  at_end :
      r.dequeue_index ≤ f
      → f + k ≡ link_index r
      → r.enqueue_index ≡ 0
      → HasRoom r f n
      → Place r f k n

record Grows (k n : ℕ) (x : Next) : Type 0 where
  valid : IsValid x.ring
  start : ℕ
  is_start : x.first ≡ some start
  place : Place x.ring start k n

-- A call that succeeds, with what holds of its result.
abbrev Succeeds : (Next → Type 0) → Option Next → Type 0
Succeeds P none = ⊥
Succeeds P (some x) = P x

module _ (r : Ring) (v : IsValid r) (is_last b : Bool) where
  wrapped_Grows :
      (f k n : ℕ) (first : Option ℕ)
      → IsStart (link_index r) first
      → (take_trb (wrap_over_link r is_last) 0 first).first ≡ some f
      → r.enqueue_index + 1 ≡ link_index r
      → f + suc k ≡ link_index r
      → 0 < r.dequeue_index
      → r.dequeue_index ≤ f
      → HasRoom r f n
      → Succeeds (Grows (suc k) n) (get_next_trb r is_last first b)
  unfolding take_trb wrap_over_link
  wrapped_Grows f k n first st e last at_link pos le room =
      rw (get_next_trb_wrap r v is_last b first last (omega arith)) (record {
        valid =
            (take_trb-Took (wrap_over_link r is_last) (wrap-IsValid r v is_last) 0 first st
              (omega (arith, v.room)) (omega arith)).valid;
        start = f;
        is_start = e;
        place = at_end le at_link refl room;
      })

  stepped_Grows :
      (f k n : ℕ) (first : Option ℕ)
      → IsStart (link_index r) first
      → (take_trb r (r.enqueue_index + 1) first).first ≡ some f
      → r.enqueue_index + 1 < link_index r
      → r.enqueue_index + 1 ≢ r.dequeue_index
      → Steps r first
      → Place (take_trb r (r.enqueue_index + 1) first).ring f (suc k) n
      → Succeeds (Grows (suc k) n) (get_next_trb r is_last first b)
  stepped_Grows f k n first st e lt ne s place =
      rw (get_next_trb_step r v is_last b first lt ne s) (record {
        valid = (take_trb-Took r v (r.enqueue_index + 1) first st lt ne).valid;
        start = f;
        is_start = e;
        place = place;
      })

  relocated_Grows :
      (f k n : ℕ)
      → f + k ≡ link_index r
      → 0 < k
      → r.enqueue_index ≡ 0
      → k < n
      → n < r.dequeue_index
      → Succeeds (Grows (suc k) n) (get_next_trb r is_last (some f) b)
  unfolding take_trb relocate
  relocated_Grows f k n at_link pos e lt fits =
      rw (get_next_trb-relocate r v is_last b f e (omega arith)) (record {
        valid =
            (take_trb-Took (relocate r f b) (relocate-IsValid r v f b (omega arith))
              (link_index r - f + 1) (some 0) (omega (arith, v.room)) (omega (arith, v.dequeue_in))
              (omega arith)).valid;
        start = 0;
        is_start = refl;
        place = below (omega arith) (omega arith);
      })

  -- The first TRB of a fragment.
  first_Grows :
      (n : ℕ) → suc n ≤ num_fit r → Succeeds (Grows 1 (suc n)) (get_next_trb r is_last none b)
  unfolding num_fit take_trb wrap_over_link
  first_Grows n fits = elim (dec_lt r.enqueue_index r.dequeue_index) [
    | yes lt ↦
        stepped_Grows r.enqueue_index 0 (suc n) none tt refl (omega (arith, v.dequeue_in))
          (ground arith) tt (below (omega arith) (ground arith))
    | no ge ↦ elim (ℕ_discrete (r.enqueue_index + 1) (link_index r)) [
      | yes last ↦
          wrapped_Grows r.enqueue_index 0 (suc n) none tt refl last (omega arith) (ground arith)
            (omega arith) (ground arith)
      | no inside ↦
          stepped_Grows r.enqueue_index 0 (suc n) none tt refl (omega (arith, v.enqueue_in))
            (omega arith) tt
            (above (omega arith) (omega (arith, v.enqueue_in)) (omega arith) (ground arith))
    ]
  ]

  -- One more TRB of a fragment that has some.
  next_Grows :
      (f k n : ℕ)
      → 0 < k
      → k < n
      → Place r f k n
      → Succeeds (Grows (suc k) n) (get_next_trb r is_last (some f) b)
  unfolding take_trb
  next_Grows f k n pos lt (below e fits) =
      stepped_Grows f k n (some f) (omega (arith, v.dequeue_in)) refl (omega (arith, v.dequeue_in))
        (omega arith) (omega arith) (below (omega arith) fits)
  next_Grows f k n pos lt (above le inside e room) =
      elim (ℕ_discrete (r.enqueue_index + 1) (link_index r)) [
        | yes last ↦
            wrapped_Grows f k n (some f) (omega arith) refl last (omega arith) (omega arith) le room
        | no more ↦
            stepped_Grows f k n (some f) (omega arith) refl (omega arith) (omega arith)
              (omega arith) (above le (omega arith) (omega arith) room)
      ]
  next_Grows f k n pos lt (at_end le at_link e room) =
      relocated_Grows f k n at_link pos e lt (omega arith)

-- A fragment of `n` TRBs fills a stretch of the ring that no wrap interrupts and that ends at the
-- enqueue index.
abbrev pub Spans : Ring → Option ℕ → ℕ → Type 0
Spans s none n = n ≡ 0
Spans s (some f) n = (s.enqueue_index ≡ f + n) ⊎ ((s.enqueue_index ≡ 0) × (f + n ≡ link_index s))

abbrev Built : ℕ → Option (Ring × Option ℕ) → Type 0
Built n none = ⊥
Built n (some (s, first)) = IsValid s × Spans s first n

Place-Spans : (s : Ring) (f k n : ℕ) → Place s f k n → Spans s (some f) k
Place-Spans s f k n (below e _) = inl e
Place-Spans s f k n (above _ _ e _) = inl e
Place-Spans s f k n (at_end _ e z _) = inr (z, e)

next_of : (o : Option Next) (P : Next → Type 0) → Succeeds P o → (x : Next) × (o ≡ some x) × P x
next_of none P h = elim h [ ]
next_of (some x) P h = (x, refl, h)

-- The calls that follow the first one.
rest_Built :
    (calls : List (Bool × Bool)) (r : Ring) (first : Option ℕ) (f k n : ℕ)
    → IsValid r
    → first ≡ some f
    → 0 < k
    → Place r f k n
    → k + length calls ≡ n
    → Built n (take_all calls r first)
unfolding take_all
rest_Built [] r first f k n v e pos place count =
    let e' : k ≡ n = omega arith in rw e (v, rw (← e') (Place-Spans r f k n place))
rest_Built ((is_last, b) ∷ calls) r first f k n v e pos place count =
    let (x, got, g) =
      next_of (get_next_trb r is_last (some f) b) (Grows (suc k) n)
        (next_Grows r v is_last b f k n pos (omega arith) place) in
    rw (e, got, take_all)
      (rest_Built calls x.ring x.first g.start (suc k) n g.valid g.is_start (omega arith) g.place
        (omega arith))

fits_Built :
    (calls : List (Bool × Bool)) (r : Ring)
    → IsValid r
    → length calls ≤ num_fit r
    → Built (length calls) (take_all calls r none)
unfolding take_all
fits_Built [] r v fits = (v, refl)
fits_Built ((is_last, b) ∷ calls) r v fits =
    let (x, got, g) =
      next_of (get_next_trb r is_last none b) (Grows 1 (suc (length calls)))
        (first_Grows r v is_last b (length calls) fits) in
    rw (got, take_all)
      (rest_Built calls x.ring x.first g.start 1 (suc (length calls)) g.valid g.is_start
        (omega arith) g.place (omega arith))

Built-some :
    (n : ℕ) (o : Option (Ring × Option ℕ))
    → Built n o
    → (s : Ring) × (first : Option ℕ) × (o ≡ some (s, first)) × IsValid s × Spans s first n
Built-some n none h = elim h [ ]
Built-some n (some (s, first)) h = (s, first, refl, h.0, h.1)

-- If CanTDFragmentFit accepts `bytes` on a valid ring, then any sequence of GetNextTRB calls for one
-- fragment, of no more TRBs than CanTDFragmentFit reckons with for `bytes`, succeeds call by call,
-- also where the fragment has to move over the link TRB; the ring stays valid, and the fragment
-- fills one stretch that ends at the enqueue index, with no wrap inside.
pub take_all_of_fit :
    (calls : List (Bool × Bool)) (r : Ring) (bytes : ℕ)
    → IsValid r
    → can_td_fragment_fit r bytes ≡ true
    → length calls ≤ max_trbs_for bytes
    → (s : Ring) × (first : Option ℕ) × (take_all calls r none ≡ some (s, first))
      × IsValid s
      × Spans s first (length calls)
unfolding can_td_fragment_fit
take_all_of_fit calls r bytes v fit short =
    Built-some (length calls) _ (fits_Built calls r v (ground arith))
