-- ===== src/Ring/Fragment/Inv.antt =====
-- The shape of a transfer ring, and that GetNextTRB keeps it: indices stay before the link TRB and
-- the ring never fills, so that equal indices mean an empty ring.
use os_x_generic_usb.Base.{
  ℕ, zero, suc, ◌+◌, ◌-◌, ◌≤◌, ◌<◌, ◌≡◌, ◌≢◌, ◌∙◌, refl, List, Option, none, some, Bool, arith,
  length, length-set, get_or, ltb, leb, ◌==◌, if-eq-some, guard-eq-some,
}
use os_x_generic_usb.Trb.{Trb, zero_trb, flip_cycle, clear_trb}
use os_x_generic_usb.Ring.{Ring, trb_at, link_index}
use os_x_generic_usb.Ring.Fragment.{
  Next, get_next_trb, continue_fragment, step_forward, relocate_and_take, relocate, copy_trbs,
  take_trb, wrap_over_link, link_fourth,
}

pub record IsValid (r : Ring) : Type 0 where
  pub size : length r.trbs ≡ r.num_trbs
  pub room : 3 ≤ r.num_trbs
  pub enqueue_in : r.enqueue_index < link_index r
  pub dequeue_in : r.dequeue_index < link_index r
  pub cycle_in : r.cycle_state ≤ 1

-- A fragment's start, where there is one, lies before the link TRB at `link`.
abbrev pub IsStart : ℕ → Option ℕ → Type 0
IsStart link none = Unit {0}
IsStart link (some f) = f < link

-- What GetNextTRB promises of its result, on a ring of `num` TRBs with dequeue index `dequeue`.
pub record Took (num dequeue : ℕ) (n : Next) : Type 0 where
  pub valid : IsValid n.ring
  pub not_full : n.ring.enqueue_index ≢ n.ring.dequeue_index
  pub index_in : n.index < num - 1
  pub dequeue_kept : n.ring.dequeue_index ≡ dequeue
  pub size_kept : n.ring.num_trbs ≡ num
  pub starts : (f : ℕ) × (n.first ≡ some f) × (f < num - 1)

pub length-copy_trbs : (n i j : ℕ) (ts : List Trb) → length (copy_trbs n i j ts) ≡ length ts
unfolding copy_trbs
length-copy_trbs zero i j ts = refl
length-copy_trbs (suc n) i j ts =
    length-copy_trbs n (i + 1) (j + 1) _ ∙ length-set ts j (flip_cycle (get_or ts i zero_trb))

pub length-relocate :
    (r : Ring) (first : ℕ) (b : Bool) → length (relocate r first b).trbs ≡ length r.trbs
unfolding relocate
length-relocate r first b =
    length-set (copy_trbs (link_index r - first) first 0 r.trbs) first _
    ∙ length-copy_trbs (link_index r - first) first 0 r.trbs

started :
    (first : Option ℕ) (i link : ℕ)
    → IsStart link first
    → i < link
    → (f : ℕ) × (elim first [ none ↦ some i | some f ↦ some f ] ≡ some f) × (f < link)
started none i link h lt = (i, refl, lt)
started (some f) i link h lt = (f, refl, h)

module _ (r : Ring) (v : IsValid r) where
  pub take_trb-Took :
      (new_index : ℕ) (first : Option ℕ)
      → IsStart (link_index r) first
      → new_index < link_index r
      → new_index ≢ r.dequeue_index
      → Took r.num_trbs r.dequeue_index (take_trb r new_index first)
  unfolding take_trb
  take_trb-Took new_index first st lt ne =
      let l = length-set r.trbs r.enqueue_index (clear_trb (trb_at r r.enqueue_index) Bool.false) in
      record {
        valid = ground arith;
        not_full = ne;
        index_in = v.enqueue_in;
        dequeue_kept = refl;
        size_kept = refl;
        starts = started first r.enqueue_index (link_index r) st v.enqueue_in;
      }

  pub wrap-IsValid : (b : Bool) → IsValid (wrap_over_link r b)
  unfolding wrap_over_link
  wrap-IsValid b =
      let t = trb_at r (link_index r) in
      let l = length-set r.trbs (link_index r) (record t { d = link_fourth r b t.d }) in
      ground arith

  pub relocate-IsValid :
      (first : ℕ) (b : Bool)
      → link_index r + 2 - first ≤ r.dequeue_index
      → IsValid (relocate r first b)
  unfolding relocate
  relocate-IsValid first b enough = ground (arith, length-relocate r first b)

-- The three ways in which a TRB is taken.
module _ (r : Ring) (v : IsValid r) where
  step_forward-Took :
      (first : Option ℕ) (n : Next)
      → IsStart (link_index r) first
      → r.enqueue_index + 1 < link_index r
      → step_forward r first ≡ some n
      → Took r.num_trbs r.dequeue_index n
  unfolding step_forward
  step_forward-Took first n st lt e =
      guard-eq-some (Took r.num_trbs r.dequeue_index) (r.enqueue_index + 1 == r.dequeue_index) _ e
        λ free. take_trb-Took r v (r.enqueue_index + 1) first st lt (ground arith)

  wrap-Took :
      (b : Bool) (first : Option ℕ)
      → IsStart (link_index r) first
      → r.dequeue_index ≢ 0
      → Took r.num_trbs r.dequeue_index (take_trb (wrap_over_link r b) 0 first)
  unfolding wrap_over_link
  wrap-Took b first st ne =
      take_trb-Took (wrap_over_link r b) (wrap-IsValid r v b) 0 first st (ground arith)
        (ground arith)

  relocate_take-Took :
      (first : ℕ) (b : Bool)
      → first < link_index r
      → link_index r + 2 - first ≤ r.dequeue_index
      → Took r.num_trbs r.dequeue_index
          (take_trb (relocate r first b) (link_index r - first + 1) (some 0))
  unfolding relocate
  relocate_take-Took first b lt enough =
      take_trb-Took (relocate r first b) (relocate-IsValid r v first b enough)
        (link_index r - first + 1) (some 0) (ground arith) (ground arith) (ground arith)

  continue-Took :
      (first : Option ℕ) (b : Bool) (n : Next)
      → IsStart (link_index r) first
      → r.enqueue_index + 1 < link_index r
      → continue_fragment r first b ≡ some n
      → Took r.num_trbs r.dequeue_index n
  unfolding continue_fragment relocate_and_take
  continue-Took none b n st lt e = step_forward-Took none n st lt e
  continue-Took (some f) b n st lt e =
      if-eq-some (r.enqueue_index == 0) (relocate_and_take r f b) (step_forward r (some f)) e
        (λ _ e'.
          guard-eq-some (Took r.num_trbs r.dequeue_index)
            (ltb r.dequeue_index (link_index r + 2 - f)) _ e'
            λ enough. relocate_take-Took f b st (ground arith))
        (λ _ e'. step_forward-Took (some f) n st lt e')

  -- What GetNextTRB returns on a valid ring, for a fragment that has not begun or begins before the
  -- link TRB, is a TRB before the link TRB. The ring that it leaves is valid, not full, of the same
  -- size and with the same dequeue index, and the fragment begins before the link TRB.
  pub get_next_trb-Took :
      (is_last : Bool) (first : Option ℕ) (b : Bool) (n : Next)
      → IsStart (link_index r) first
      → get_next_trb r is_last first b ≡ some n
      → Took r.num_trbs r.dequeue_index n
  unfolding get_next_trb
  get_next_trb-Took is_last first b n st e =
      if-eq-some (leb (link_index r) r.enqueue_index) none _ e (λ _ e'. cc)
        λ _ e'.
          if-eq-some (r.enqueue_index == link_index r - 1) _ (continue_fragment r first b) e'
            (λ _ w.
              guard-eq-some (Took r.num_trbs r.dequeue_index) (r.dequeue_index == 0) _ w
                λ ne. wrap-Took is_last first st (ground arith))
            (λ ne c. continue-Took first b n st (ground arith) c)
