-- ===== src/Layout/Valid.antt =====
-- The rings that the rounds of _createTransfer leave are valid.
use os_x_generic_usb.Base.{
  ℕ, ◌-◌, ◌≡◌, Option, none, some, arith, length-set, set, subst, sym, if_both, ◌==◌,
}
use os_x_generic_usb.Trb.{Trb}
use os_x_generic_usb.Ring.{Ring, link_index}
use os_x_generic_usb.Ring.Fragment.{Next, close_fragment}
use os_x_generic_usb.Ring.Fragment.Inv.{IsValid, IsStart, Took}
use os_x_generic_usb.Layout.{TransferPlan, Work, place_trb, end_fragment, ends_fragment}
use os_x_generic_usb.Layout.Finish.{finish_single, place_event, close_last}

-- What every step keeps, on a ring of `num` TRBs with the dequeue index `dequeue`.
pub record Keeps (num dequeue : ℕ) (r : Ring) (first : Option ℕ) : Type 0 where
  pub valid : IsValid r
  pub start_in : IsStart (num - 1) first
  pub size_kept : r.num_trbs ≡ num
  pub dequeue_kept : r.dequeue_index ≡ dequeue

set-Keeps :
    (num dequeue : ℕ) (r : Ring) (first : Option ℕ) (i : ℕ) (t : Trb)
    → Keeps num dequeue r first
    → Keeps num dequeue (record r { trbs = set r.trbs i t }) first
set-Keeps num dequeue r first i t k =
    let v = k.valid in
    let valid' : IsValid (record r { trbs = set r.trbs i t }) =
      ground (arith, length-set r.trbs i t) in
    record {
      valid = valid';
      start_in = k.start_in;
      size_kept = k.size_kept;
      dequeue_kept = k.dequeue_kept;
    }

pub close_fragment-Keeps :
    (num dequeue : ℕ) (r : Ring) (first : Option ℕ) (fourth : ℕ)
    → Keeps num dequeue r first
    → Keeps num dequeue (close_fragment r first fourth) first
unfolding close_fragment
close_fragment-Keeps num dequeue r none fourth k = k
close_fragment-Keeps num dequeue r (some f) fourth k = set-Keeps num dequeue r (some f) f _ k

pub Took-Keeps :
    (num dequeue : ℕ) (n : Next) → Took num dequeue n → Keeps num dequeue n.ring n.first
Took-Keeps num dequeue n k =
    let (f, e, lt) = k.starts in
    record {
      valid = k.valid;
      start_in = subst (IsStart (num - 1)) (sym e) lt;
      size_kept = k.size_kept;
      dequeue_kept = k.dequeue_kept;
    }

written-Keeps :
    (num dequeue : ℕ) (n : Next) (t : Trb)
    → Took num dequeue n
    → Keeps num dequeue (record n.ring { trbs = set n.ring.trbs n.index t }) n.first
written-Keeps num dequeue n t k =
    set-Keeps num dequeue n.ring n.first n.index t (Took-Keeps num dequeue n k)

end_fragment-Keeps :
    (num dequeue : ℕ) (p : TransferPlan) (w : Work)
    → Keeps num dequeue w.ring w.first
    → Keeps num dequeue (end_fragment p w).ring (end_fragment p w).first
unfolding end_fragment
end_fragment-Keeps num dequeue p w k =
    let c = close_fragment-Keeps num dequeue w.ring w.first w.fourth k in
    if_both (λ (w : Work). Keeps num dequeue w.ring w.first) (ends_fragment p w.offset w.bytes_left)
      _ _
      (record {
        valid = c.valid;
        start_in = tt;
        size_kept = c.size_kept;
        dequeue_kept = c.dequeue_kept;
      })
      k

pub place_trb-Keeps :
    (num dequeue : ℕ) (p : TransferPlan) (w : Work) (n : Next) (u : Trb) (got : ℕ)
    → Took num dequeue n
    → Keeps num dequeue (place_trb p w n u got).ring (place_trb p w n u got).first
unfolding place_trb
place_trb-Keeps num dequeue p w n u got k =
    end_fragment-Keeps num dequeue p _ (written-Keeps num dequeue n _ k)

pub place_event-Keeps :
    (num dequeue : ℕ) (p : TransferPlan) (w : Work) (n : Next)
    → Took num dequeue n
    → Keeps num dequeue (place_event p w n).ring (place_event p w n).first
unfolding place_event
place_event-Keeps num dequeue p w n k = written-Keeps num dequeue n _ k

pub finish_single-Keeps :
    (num dequeue : ℕ) (p : TransferPlan) (w : Work)
    → Keeps num dequeue w.ring w.first
    → Keeps num dequeue (finish_single p w).ring (finish_single p w).first
unfolding finish_single
finish_single-Keeps num dequeue p w k =
    if_both (λ (w : Work). Keeps num dequeue w.ring w.first) p.ring_found _ _
      (if_both (λ (r : Ring). Keeps num dequeue r w.first) (w.last_index == w.ring.num_trbs - 2) _ _
        (set-Keeps num dequeue w.ring w.first (link_index w.ring) _ k) k)
      k

pub close_last-Keeps :
    (num dequeue : ℕ) (w : Work)
    → Keeps num dequeue w.ring w.first
    → Keeps num dequeue (close_last w).ring (close_last w).first
unfolding close_last
close_last-Keeps num dequeue w k =
    if_both (λ (w : Work). Keeps num dequeue w.ring w.first) (w.count_in_fragment == 0) _ _ k
      (close_fragment-Keeps num dequeue w.ring w.first w.fourth k)
