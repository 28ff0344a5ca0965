-- ===== src/Layout/Total.antt =====
-- What _createTransfer returns, for every TD.
use os_x_generic_usb.Base.{
  ℕ, ◌+◌, ◌<◌, ◌≡◌, ◌≢◌, ◌∙◌, refl, subst, List, [], Option, none, some, arith, length, if_both,
  if_cases, ne→==, if◌then◌else◌, ◌==◌, ◌&&◌, ◌||◌, not,
}
use os_x_generic_usb.Ring.{Ring}
use os_x_generic_usb.Ring.Fragment.{Next, get_next_trb, put_back_trb}
use os_x_generic_usb.Ring.Fragment.Inv.{IsValid}
use os_x_generic_usb.Ring.Fragment.Back.{put_back_trb_ends}
use os_x_generic_usb.Retry.{Segment}
use os_x_generic_usb.Layout.{
  TransferPlan, Work, start_layout, Error, RoundResult, placed, failed, no_trb,
}
use os_x_generic_usb.Layout.Finish.{
  finish, finish_single, finish_long, place_event, close_last, TransferResult, created, refused,
  undo, conclude, after_loop, create_transfer,
}
use os_x_generic_usb.Layout.Rounds.{Rounds, none_yet}
use os_x_generic_usb.Layout.Valid.{Keeps, place_event-Keeps, finish_single-Keeps, close_last-Keeps}
use os_x_generic_usb.Layout.Covers.{Follow, IsMapped, Good, Ended, layout_loop_ends, took}

-- The TRBs of a TD: one, or one for each piece and an event-data TRB.
abbrev pub trbs_of : ℕ → ℕ
trbs_of pieces = if pieces == 1 then 1 else pieces + 1

-- What is left by a successful call: rounds that placed pieces which follow each other and cover the
-- TD's bytes, then the end of _createTransfer.
pub record Covered (dma : ℕ → Option Segment) (p : TransferPlan) (r : Ring) (w : Work)
    : Type 0 where
  pub valid : IsValid w.ring
  pub size_kept : w.ring.num_trbs ≡ r.num_trbs
  pub dequeue_kept : w.ring.dequeue_index ≡ r.dequeue_index
  pub pieces : List (ℕ × ℕ)
  pub looped : Work
  pub finished : Work
  pub rounds : Rounds dma p (start_layout p r) pieces looped
  pub all_placed : looped.bytes_left ≡ 0
  pub ends : finish p looped ≡ placed finished
  pub closes : w ≡ close_last finished
  pub covers : Follow p.offset pieces (p.offset + p.bytes)
  pub counts : w.count ≡ trbs_of (length pieces)

pub record TakenBack (r s : Ring) : Type 0 where
  pub size_kept : s.num_trbs ≡ r.num_trbs
  pub dequeue_kept : s.dequeue_index ≡ r.dequeue_index
  pub enqueue_in : s.enqueue_index < r.num_trbs

unfoldable pub Tells : (ℕ → Option Segment) → TransferPlan → Ring → TransferResult → Type 0
Tells dma p r (created w) = Covered dma p r w
Tells dma p r (refused e s) = TakenBack r s

module _ (p : TransferPlan) (r : Ring) where
  -- A state behind the loop whose ring may have got more TRBs, for a number of pieces.
  record Finished (pieces : ℕ) (w : Work) : Type 0 where
    keeps : Keeps r.num_trbs r.dequeue_index w.ring w.first
    counts : w.count ≡ trbs_of pieces

  close_last_count : (w : Work) → (close_last w).count ≡ w.count
  unfolding close_last
  close_last_count w =
      if_both (λ (v : Work). v.count ≡ w.count) (w.count_in_fragment == 0) _ _ refl refl

  undo_ends :
      (back : ℕ) (e : Error) (s : Ring) (first : Option ℕ)
      → Keeps r.num_trbs r.dequeue_index s first
      → r.num_trbs < back
      → (o : TransferResult) × (undo back e s first ≡ some o)
        × ((dma : ℕ → Option Segment) → Tells dma p r o)
  unfolding undo Tells put_back_trb
  undo_ends back e s none k enough =
      let v = k.valid in
      (
        refused e s,
        refl,
        λ dma. record {
          size_kept = k.size_kept;
          dequeue_kept = k.dequeue_kept;
          enqueue_in = omega (arith, v.enqueue_in, k.size_kept);
        },
      )
  undo_ends back e s (some f) k enough =
      let (s', run, walks, ends) =
        put_back_trb_ends s f back k.valid (omega (arith, k.start_in, k.size_kept))
          (omega (arith, k.size_kept)) in
      (
        refused e s',
        rw (undo, run) refl,
        λ dma. record {
          size_kept = walks.num_kept ∙ k.size_kept;
          dequeue_kept = walks.dequeue_kept ∙ k.dequeue_kept;
          enqueue_in = omega (arith, walks.enqueue_in, k.size_kept);
        },
      )

  finish_single-Finished :
      (pieces : ℕ) (w : Work)
      → Keeps r.num_trbs r.dequeue_index w.ring w.first
      → w.count ≡ 1
      → w.count ≡ pieces
      → Finished pieces (finish_single p w)
  unfolding finish_single
  finish_single-Finished pieces w k one c =
      let same : (finish_single p w).count ≡ w.count =
        if_both (λ (v : Work). v.count ≡ w.count) p.ring_found _ _ refl refl in
      let one_piece : w.count ≡ trbs_of pieces = ground arith in
      record {
        keeps = finish_single-Keeps r.num_trbs r.dequeue_index p w k;
        counts = same ∙ one_piece;
      }

  -- What holds behind the loop's last round and the end.
  After : ℕ → RoundResult → Type 0
  After pieces (placed w) = Finished pieces w
  After pieces (failed e s first) = Keeps r.num_trbs r.dequeue_index s first

  finish_long-After :
      (pieces : ℕ) (w : Work) (result : Option Next)
      → Keeps r.num_trbs r.dequeue_index w.ring w.first
      → w.count ≢ 1
      → w.count ≡ pieces
      → get_next_trb w.ring
          (p.final_td_in_transaction || not p.multi_td_transaction)
          w.first
          (w.is_first_fragment && p.bytes_preceeding == 0)
        ≡ result
      → After pieces (elim result [
        | none ↦ failed no_trb w.ring w.first
        | some n ↦ placed (place_event p w n)
      ])
  unfolding After place_event
  finish_long-After pieces w none k ne c e = k
  finish_long-After pieces w (some n) k ne c e =
      let t =
        took r.num_trbs r.dequeue_index w n
          (p.final_td_in_transaction || not p.multi_td_transaction)
          (w.is_first_fragment && p.bytes_preceeding == 0) k e in
      record { keeps = place_event-Keeps r.num_trbs r.dequeue_index p w n t; counts = ground arith }

  finish-After :
      (pieces : ℕ) (w : Work)
      → Keeps r.num_trbs r.dequeue_index w.ring w.first
      → w.count ≡ pieces
      → After pieces (finish p w)
  unfolding finish finish_long After
  finish-After pieces w k c =
      if_cases (After pieces) (w.count == 1) _ _
        (λ one. finish_single-Finished pieces w k (ground arith) c)
        (λ more. finish_long-After pieces w _ k (ground arith) c refl)

  module _ (dma : ℕ → Option Segment) (mapped : IsMapped dma) where
    abbrev Looped : Work → Type 0
    Looped u = Good r.num_trbs r.dequeue_index dma p mapped (start_layout p r) u

    conclude-Tells :
        (back : ℕ) (u : Work) (x : RoundResult) (g : Looped u)
        → u.bytes_left ≡ 0
        → finish p u ≡ x
        → After (length g.pieces) x
        → r.num_trbs < back
        → (o : TransferResult) × (conclude back x ≡ some o) × Tells dma p r o
    unfolding conclude After Tells
    conclude-Tells back u (placed w) g z e a enough =
        let k = close_last-Keeps r.num_trbs r.dequeue_index w a.keeps in
        let l = g.laid in
        let at_end : u.offset ≡ p.offset + p.bytes = omega (arith, l.rest) in
        (
          created (close_last w),
          refl,
          record {
            valid = k.valid;
            size_kept = k.size_kept;
            dequeue_kept = k.dequeue_kept;
            pieces = g.pieces;
            looped = u;
            finished = w;
            rounds = g.rounds;
            all_placed = z;
            ends = e;
            closes = refl;
            covers = subst (Follow p.offset g.pieces) at_end l.to_here;
            counts = close_last_count w ∙ a.counts;
          },
        )
    conclude-Tells back u (failed e s first) g z q a enough =
        let (o, run, tells) = undo_ends back e s first a enough in (o, run, tells dma)

    after_loop-Tells :
        (back : ℕ) (x : RoundResult)
        → Ended r.num_trbs r.dequeue_index dma p mapped (start_layout p r) x
        → r.num_trbs < back
        → (o : TransferResult) × (after_loop back p x ≡ some o) × Tells dma p r o
    unfolding after_loop Ended
    after_loop-Tells back (placed w) ((g, z)) enough =
        let l = g.laid in
        conclude-Tells back w (finish p w) g z refl
          (finish-After (length g.pieces) w g.keeps l.counted) enough
    after_loop-Tells back (failed e s first) k enough =
        let (o, run, tells) = undo_ends back e s first k enough in (o, run, tells dma)

  pub create_transfer_covers :
      (fuel back : ℕ) (dma : ℕ → Option Segment)
      → IsValid r
      → p.max_packet_size ≢ 0
      → IsMapped dma
      → p.bytes < fuel
      → r.num_trbs < back
      → (o : TransferResult) × (create_transfer fuel back dma p r ≡ some o) × Tells dma p r o
  unfolding create_transfer start_layout
  create_transfer_covers fuel back dma v some_size mapped enough enough' =
      let good : Good r.num_trbs r.dequeue_index dma p mapped (start_layout p r)
          (start_layout p r) =
        record {
          pieces = [];
          rounds = none_yet;
          keeps = record { valid = v; start_in = tt; size_kept = refl; dequeue_kept = refl };
          laid = record { to_here = refl; rest = refl; counted = refl };
        } in
      let (x, run, ended) =
        layout_loop_ends r.num_trbs r.dequeue_index dma p mapped (start_layout p r) fuel
          (start_layout p r) good enough in
      let (o, run', tells) = after_loop-Tells dma mapped back x ended enough' in
      (o, rw (ne→== p.max_packet_size 0 some_size, run) run', tells)
