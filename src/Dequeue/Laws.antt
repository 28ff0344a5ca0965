-- ===== src/Dequeue/Laws.antt =====
-- The command of SetTRDQPtr says what the driver means, and the ring follows the controller.
use mathlib.Core.Bool.{true≢false}
use os_x_generic_usb.Base.{
  ◌∙◌, ◌≤◌, ◌⊎◌, sym, not, ◌&&◌, ◌==◌, ltb, ℤ, pos, negsuc, ℕ, ◌+◌, ◌*◌, ◌%◌, ◌^◌, ◌<◌, ◌≡◌, inl,
  inr, refl, Bool, true, false, arith, u16, if◌then◌else◌, Bool-cases,
}
use os_x_generic_usb.Trb.{trb_slot, trb_endpoint, set_trb_addr64, get_trb_addr64}
use os_x_generic_usb.Ring.{Ring}
use os_x_generic_usb.Command.Inv.{IsValid}
use os_x_generic_usb.Command.Wait.{World, Hardware, wait_for_cmd}
use os_x_generic_usb.Command.Wait.Waiting.{NoPointer}
use os_x_generic_usb.Command.Wait.Cell.{Left, wait_for_cmd-Left}
use os_x_generic_usb.Dequeue.{
  EpState, disabled, halted, dequeue_cycle, with_flags, dequeue_command, can_set, is_success, moved,
  set_on_ring, type_set_tr_dequeue,
}

-- The command of SetTRDQPtr for a ring at an aligned 64-bit address: its address is that of the TRB at
-- the index, its lowest bit is the cycle state that goes with the index, and it names the slot and the
-- endpoint.
pub dequeue_command_says :
    (r : Ring) (slot endpoint stream_id index : ℕ)
    → r.phys_addr % 16 ≡ 0
    → r.phys_addr + index * 16 < 2 ^ 64
    → slot < 256
    → endpoint < 32
    → let t = dequeue_command r slot endpoint stream_id index in
      (get_trb_addr64 t ≡ r.phys_addr + index * 16)
      × (t.a % 2 ≡ (if dequeue_cycle r index then 1 else 0))
      × (trb_slot t ≡ slot)
      × (trb_endpoint t ≡ endpoint)
unfolding dequeue_command with_flags set_trb_addr64 get_trb_addr64
dequeue_command_says r slot endpoint stream_id index al lt s e = ground arith

-- The values that WaitForCMD returns for a command that failed: -1, and -1000 and below.
abbrev pub HasFailed : ℤ → Type 0
HasFailed (pos n) = ⊥
HasFailed (negsuc n) = (n ≡ 0) ⊎ (999 ≤ n)

is_success-HasFailed :
    (ret : ℤ) → (HasFailed ret → is_success ret ≡ false) × (¬ HasFailed ret → is_success ret ≡ true)
unfolding is_success
is_success-HasFailed (pos n) = (λ h. elim h [ ], λ h. refl)
is_success-HasFailed (negsuc n) = (
  λ h. ground (arith, h),
  λ h. elim (Bool-cases (not (n == 0) && ltb n 999)) [
    | inl e ↦ e
    | inr e ↦ absurd (h (ground arith))
  ],
)

-- SetTRDQPtr on a valid command ring, with a variable whose address no callback entry holds: whatever
-- the controller does, the command ring is valid again and no callback entry holds the address. The
-- transfer ring is as before if the call returns -1, a value of -1000 or below, or finds the endpoint
-- disabled or halted, when no command is issued either; with any other value it differs in its dequeue
-- index alone, which is the given one.
pub set_on_ring_follows :
    (hw : Hardware) (state : EpState) (is_streams : Bool) (w : World) (cell : ℕ) (r : Ring)
    (slot endpoint stream_id index : ℕ)
    → IsValid w.ring
    → NoPointer cell w.ring
    → let out = set_on_ring hw state is_streams w cell r slot endpoint stream_id index in
      Left cell (out.world, out.ret)
      × (HasFailed out.ret → out.ring ≡ r)
      × (¬ HasFailed out.ret → out.ring ≡ record r { dequeue_index = u16 index })
      × ((state ≡ disabled) ⊎ (state ≡ halted) → (out.ring ≡ r) × (out.world ≡ w))
unfolding set_on_ring moved can_set
set_on_ring_follows hw state is_streams w cell r slot endpoint stream_id index v np =
    let left =
      wait_for_cmd-Left hw (dequeue_command r slot endpoint stream_id index) type_set_tr_dequeue
        cell w v np in
    let told =
      is_success-HasFailed
        (wait_for_cmd hw (dequeue_command r slot endpoint stream_id index) type_set_tr_dequeue cell
          w).1 in
    let never : (state ≡ disabled) ⊎ (state ≡ halted) → can_set state is_streams r ≡ false =
      λ h. elim h [ inl e ↦ rw e refl | inr e ↦ rw e refl ] in
    elim (Bool-cases (can_set state is_streams r)) [
      | inl e ↦
          rw (e, set_on_ring)
            (
              left,
              λ h. rw (told.0 h) refl,
              λ h. rw (told.1 h) refl,
              λ h. absurd (true≢false (sym e ∙ never h)),
            )
      | inr e ↦
          rw (e, set_on_ring)
            (
              record { valid = v; no_pointer = np },
              λ h. refl,
              λ h. absurd (h (inr (omega arith))),
              λ h. (refl, refl),
            )
    ]
