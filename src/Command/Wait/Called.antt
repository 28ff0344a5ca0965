-- ===== src/Command/Wait/Called.antt =====
-- What a completion event of Command.cpp does to the callback entries.
use os_x_generic_usb.Base.{
  ℕ, ◌-◌, ◌<◌, ◌≡◌, inl, inr, refl, none, arith, length, set, ltb, ◌==◌, ℤ, pos, negsuc, Bool-cases,
}
use os_x_generic_usb.Trb.{Trb, trb_error, get_trb_addr64, diff_trb_index}
use os_x_generic_usb.Command.{
  CommandRing, callback_at, Completion, error_cmd_ring_stop, complete_at, complete_if_inside,
  do_cmd_completion,
}
use os_x_generic_usb.Command.Inv.{IsValid}

-- What DoCMDCompletion does to the callback entries: nothing, or one is cleared and called.
pub data Called (r : CommandRing) (c : Completion) : Type 0 where
  kept : c.call ≡ none → c.ring.callbacks ≡ r.callbacks → Called r c
  cleared :
      (i : ℕ)
      → i < length r.callbacks
      → c.call ≡ callback_at r i
      → c.ring.callbacks ≡ set r.callbacks i none
      → Called r c

complete_at-Called :
    (r : CommandRing) (trb : Trb) (i : ℕ) → i < length r.callbacks → Called r (complete_at r trb i)
unfolding complete_at
complete_at-Called r trb i lt = elim (Bool-cases (trb_error trb == error_cmd_ring_stop)) [
  | inl e ↦ rw e (kept refl refl)
  | inr e ↦ rw e (cleared i lt refl refl)
]

complete_if_inside-Called :
    (r : CommandRing) (trb : Trb) (i : ℤ) → IsValid r → Called r (complete_if_inside r trb i)
unfolding complete_if_inside
complete_if_inside-Called r trb (negsuc n) v = kept refl refl
complete_if_inside-Called r trb (pos i) v = elim (Bool-cases (ltb i (r.num_trbs - 1))) [
  | inl e ↦ rw e (complete_at-Called r trb i (ground (arith, v.callbacks_size)))
  | inr e ↦ rw e (kept refl refl)
]

pub do_cmd_completion-Called :
    (r : CommandRing) (trb : Trb) → IsValid r → Called r (do_cmd_completion r trb)
unfolding do_cmd_completion
do_cmd_completion-Called r trb v = elim (Bool-cases (get_trb_addr64 trb == 0)) [
  | inl e ↦ rw e (kept refl refl)
  | inr e ↦ rw e (complete_if_inside-Called r trb _ v)
]

num_trbs-complete_at :
    (r : CommandRing) (trb : Trb) (i : ℕ) → (complete_at r trb i).ring.num_trbs ≡ r.num_trbs
unfolding complete_at
num_trbs-complete_at r trb i = ground arith

num_trbs-complete_if_inside :
    (r : CommandRing) (trb : Trb) (i : ℤ) → (complete_if_inside r trb i).ring.num_trbs ≡ r.num_trbs
unfolding complete_if_inside
num_trbs-complete_if_inside r trb (negsuc n) = refl
num_trbs-complete_if_inside r trb (pos i) = ground (arith, num_trbs-complete_at r trb i)

pub num_trbs-do_cmd_completion :
    (r : CommandRing) (trb : Trb) → (do_cmd_completion r trb).ring.num_trbs ≡ r.num_trbs
unfolding do_cmd_completion
num_trbs-do_cmd_completion r trb =
    ground
      (arith, num_trbs-complete_if_inside r trb (diff_trb_index (get_trb_addr64 trb) r.phys_addr))
