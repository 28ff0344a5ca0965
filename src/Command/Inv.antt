-- ===== src/Command/Inv.antt =====
-- The command ring's invariant, and that each operation keeps it.
use os_x_generic_usb.Base.{
  ℕ, ◌-◌, ◌≤◌, ◌<◌, ◌≡◌, ◌≢◌, Option, none, some, arith, length, length-set, length-replicate,
  get_or, set, replicate, refl, ℤ, pos, negsuc, ◌==◌, guard-eq-some, Bool-cases, inl, inr, put_bit,
  not,
}
use Prim.Native.Nat.{bit_or}
use os_x_generic_usb.Ring.{link_toggle}
use os_x_generic_usb.Trb.{Trb, zero_trb, set_trb_addr64, get_trb_addr64, diff_trb_index}
use os_x_generic_usb.Command.{
  CommandRing, trb_at, init_cmd_ring, next_enqueue, command_fourth, write_command, toggle_link,
  with_command, enque_cmd, complete_at, complete_if_inside, do_cmd_completion,
}

pub record IsValid (r : CommandRing) : Type 0 where
  pub size : length r.trbs ≡ r.num_trbs
  pub callbacks_size : length r.callbacks ≡ r.num_trbs
  pub room : 3 ≤ r.num_trbs
  pub small : r.num_trbs ≤ 65535
  pub enqueue_in : r.enqueue_index < r.num_trbs - 1
  pub dequeue_in : r.dequeue_index < r.num_trbs - 1
  pub cycle_in : r.cycle_state ≤ 1

write_command-IsValid :
    (r : CommandRing) (trb : Trb) (trb_type param : ℕ)
    → IsValid r
    → IsValid (write_command r trb trb_type param)
unfolding write_command
write_command-IsValid r trb trb_type param v =
    let l = length-set r.trbs r.enqueue_index (record {
      a = trb.a;
      b = trb.b;
      c = trb.c;
      d = command_fourth r.cycle_state trb_type trb.d;
    }) in
    let m = length-set r.callbacks r.enqueue_index (some param) in ground arith

toggle_link-IsValid : (r : CommandRing) → IsValid r → IsValid (toggle_link r)
unfolding toggle_link
toggle_link-IsValid r v =
    let t = trb_at r (r.num_trbs - 1) in
    let l =
      length-set r.trbs (r.num_trbs - 1)
        (record t { d = put_bit 0 (not (r.cycle_state == 0)) t.d }) in
    ground arith

-- What the writes of EnqueCMD keep.
pub record Keeps (r s : CommandRing) : Type 0 where
  pub valid : IsValid s
  pub enqueue_kept : s.enqueue_index ≡ r.enqueue_index
  pub dequeue_kept : s.dequeue_index ≡ r.dequeue_index
  pub size_kept : s.num_trbs ≡ r.num_trbs
  pub addr_kept : s.phys_addr ≡ r.phys_addr

pub callbacks-with_command :
    (r : CommandRing) (trb : Trb) (trb_type param next : ℕ)
    → (with_command r trb trb_type param next).callbacks
      ≡ set r.callbacks r.enqueue_index (some param)
unfolding with_command toggle_link write_command
callbacks-with_command r trb trb_type param next = elim (Bool-cases (next == 0)) [
  | inl e ↦ rw e
  | inr e ↦ rw e
]

module _ (r : CommandRing) (trb : Trb) (trb_type param : ℕ) (v : IsValid r) where
  pub with_command-Keeps : (next : ℕ) → Keeps r (with_command r trb trb_type param next)
  unfolding with_command toggle_link write_command
  with_command-Keeps next = elim (Bool-cases (next == 0)) [
    | inl e ↦ rw e (record {
      valid =
          toggle_link-IsValid (write_command r trb trb_type param)
            (write_command-IsValid r trb trb_type param v);
      enqueue_kept = refl;
      dequeue_kept = refl;
      size_kept = refl;
      addr_kept = refl;
    })
    | inr e ↦ rw e (record {
      valid = write_command-IsValid r trb trb_type param v;
      enqueue_kept = refl;
      dequeue_kept = refl;
      size_kept = refl;
      addr_kept = refl;
    })
  ]

  -- Where EnqueCMD succeeds on a valid ring, the ring is valid and its indices differ, so that equal
  -- indices mean that no command is pending. Size, dequeue index and bus address stay.
  pub enque_cmd-IsValid :
      (s : CommandRing)
      → enque_cmd r trb trb_type param ≡ some s
      → IsValid s
        × (s.enqueue_index ≢ s.dequeue_index)
        × (s.dequeue_index ≡ r.dequeue_index)
        × (s.num_trbs ≡ r.num_trbs)
        × (s.phys_addr ≡ r.phys_addr)
  unfolding enque_cmd next_enqueue
  enque_cmd-IsValid s e =
      guard-eq-some
        (λ s.
          IsValid s
          × (s.enqueue_index ≢ s.dequeue_index)
          × (s.dequeue_index ≡ r.dequeue_index)
          × (s.num_trbs ≡ r.num_trbs)
          × (s.phys_addr ≡ r.phys_addr))
        (next_enqueue r == r.dequeue_index) _ e
        λ ne. ground (arith, with_command-Keeps (next_enqueue r))

-- EnqueCMD writes one callback entry, at the enqueue index.
pub enque_cmd-callbacks :
    (r : CommandRing) (trb : Trb) (trb_type param : ℕ) (s : CommandRing)
    → enque_cmd r trb trb_type param ≡ some s
    → s.callbacks ≡ set r.callbacks r.enqueue_index (some param)
unfolding enque_cmd
enque_cmd-callbacks r trb trb_type param s e =
    guard-eq-some (λ s. s.callbacks ≡ set r.callbacks r.enqueue_index (some param))
      (next_enqueue r == r.dequeue_index) _ e
      λ ne. callbacks-with_command r trb trb_type param (next_enqueue r)

complete_at-IsValid :
    (r : CommandRing) (trb : Trb) (idx : ℕ)
    → IsValid r
    → idx < r.num_trbs - 1
    → IsValid (complete_at r trb idx).ring
unfolding complete_at
complete_at-IsValid r trb idx v lt = ground (arith, length-set r.callbacks idx none)

complete_if_inside-IsValid :
    (r : CommandRing) (trb : Trb) (i : ℤ) → IsValid r → IsValid (complete_if_inside r trb i).ring
unfolding complete_if_inside
complete_if_inside-IsValid r trb (pos idx) v = ground (arith, complete_at-IsValid r trb idx)
complete_if_inside-IsValid r trb (negsuc n) v = v

-- DoCMDCompletion keeps a valid ring valid, whatever the event says.
pub do_cmd_completion-IsValid :
    (r : CommandRing) (trb : Trb) → IsValid r → IsValid (do_cmd_completion r trb).ring
unfolding do_cmd_completion
do_cmd_completion-IsValid r trb v =
    ground
      (arith, complete_if_inside-IsValid r trb (diff_trb_index (get_trb_addr64 trb) r.phys_addr) v)

-- InitCMDRing makes a ring of 3 to 65535 TRBs valid.
pub init_cmd_ring-IsValid :
    (r : CommandRing) → 3 ≤ r.num_trbs → r.num_trbs ≤ 65535 → IsValid (init_cmd_ring r).0
unfolding init_cmd_ring
init_cmd_ring-IsValid r room small =
    let ts = replicate r.num_trbs zero_trb in
    let t = set_trb_addr64 (get_or ts (r.num_trbs - 1) zero_trb) r.phys_addr in
    let l = length-set ts (r.num_trbs - 1) (record t { d = bit_or t.d link_toggle }) in
    let m = length-replicate r.num_trbs zero_trb in
    let n = length-replicate {A = Option ℕ} r.num_trbs none in ground arith
