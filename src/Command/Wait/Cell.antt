-- ===== src/Command/Wait/Cell.antt =====
-- The variable that a command's callback writes: when WaitForCMD returns, no callback entry holds
-- its address any more, so that no later completion writes to a dead stack frame.
use os_x_generic_usb.Base.{
  not, ℕ, ◌≡◌, ◌≢◌, inl, inr, refl, ap, List, Option, none, some, true, false, arith, length-set,
  get_or, get_or-set, if_both, if_cases, ◌==◌, if◌then◌else◌, ℤ, pos, negsuc, eqbℤ, Option-cases,
}
use os_x_generic_usb.Trb.{Trb}
use os_x_generic_usb.Command.{CommandRing, type_stop_ep, enque_cmd}
use os_x_generic_usb.Command.Inv.{IsValid, enque_cmd-callbacks, enque_cmd-IsValid}
use os_x_generic_usb.Command.Wait.Waiting.{
  NoPointer, Waiting, cleared-NoPointer, deliver_all-Waiting, stop-Waiting,
}
use os_x_generic_usb.Command.Wait.{
  World, Hardware, store, deliver_all, stop_command_ring, command_abort, no_answer, wipe_callback,
  give_up, await_answer, issue, wait_for_cmd,
}

-- What WaitForCMD promises: a valid ring, in which no entry holds the address.
pub record Left (cell : ℕ) (out : World × ℤ) : Type 0 where
  pub valid : IsValid out.0.ring
  pub no_pointer : NoPointer cell out.0.ring

eqbℤ-ne : (a b : ℤ) → eqbℤ a b ≡ false → a ≢ b
eqbℤ-ne (pos a) (pos b) h = ground arith
eqbℤ-ne (pos a) (negsuc b) h = ground arith
eqbℤ-ne (negsuc a) (pos b) h = ground arith
eqbℤ-ne (negsuc a) (negsuc b) h = ground arith

wiped-Left :
    (cell prev : ℕ) (w : World) (a : ℤ) → Waiting cell prev w → Left cell (wipe_callback prev w, a)
wiped-Left cell prev w a h = record {
  valid = ground (arith, h.valid, length-set w.ring.callbacks prev none);
  no_pointer =
      cleared-NoPointer cell prev w.ring (wipe_callback prev w).ring
        (omega (arith, h.inside, h.valid.callbacks_size)) refl h.only;
}

answered-Left :
    (cell prev : ℕ) (w : World)
    → Waiting cell prev w
    → eqbℤ (w.cells cell) no_answer ≡ false
    → Left cell (w, w.cells cell)
answered-Left cell prev w h e = record {
  valid = h.valid;
  no_pointer = h.answered (eqbℤ-ne (w.cells cell) no_answer e);
}

give_up-Left :
    (hw : Hardware) (cell prev : ℕ) (w : World)
    → Waiting cell prev w
    → Left cell (give_up hw cell prev w)
unfolding give_up command_abort
give_up-Left hw cell prev w h =
    let w' = (stop_command_ring hw.crcr hw.during_abort w).0 in
    let h' = stop-Waiting cell prev hw.crcr hw.during_abort w h in
    if_cases (Left cell) (eqbℤ (w'.cells cell) no_answer) (wipe_callback prev w', w'.cells cell)
      (w', w'.cells cell) (λ _. wiped-Left cell prev w' (w'.cells cell) h')
      (λ e. answered-Left cell prev w' h' e)

await_answer-Left :
    (hw : Hardware) (trb_type cell prev : ℕ) (w : World)
    → Waiting cell prev w
    → Left cell (await_answer hw trb_type cell prev w)
unfolding await_answer
await_answer-Left hw trb_type cell prev w h =
    let waited = deliver_all hw.during_wait w in
    let h' = deliver_all-Waiting cell prev hw.during_wait w h in
    let polled = if trb_type == type_stop_ep then deliver_all hw.during_poll waited else waited in
    let h'' : Waiting cell prev polled =
      if_both (Waiting cell prev) (trb_type == type_stop_ep) (deliver_all hw.during_poll waited)
        waited (deliver_all-Waiting cell prev hw.during_poll waited h') h' in
    if_cases (Left cell) (eqbℤ (polled.cells cell) no_answer) (give_up hw cell prev polled)
      (polled, polled.cells cell) (λ _. give_up-Left hw cell prev polled h'')
      (λ e. answered-Left cell prev polled h'' e)

-- The command enters the ring: its callback entry is the one place that holds the address.
issued-Waiting :
    (cell : ℕ) (trb : Trb) (trb_type : ℕ) (w : World) (s : CommandRing)
    → IsValid w.ring
    → NoPointer cell w.ring
    → w.cells cell ≡ no_answer
    → enque_cmd w.ring trb trb_type cell ≡ some s
    → Waiting cell w.ring.enqueue_index (record w { ring = s })
issued-Waiting cell trb trb_type w s v np blank e =
    let kept = enque_cmd-IsValid w.ring trb trb_type cell v s e in
    record {
      valid = kept.0;
      inside = omega (arith, kept.3, v.enqueue_in);
      only = λ i ne. ground (
        arith,
        ap (λ (cs : List (Option ℕ)). get_or cs i none)
            (enque_cmd-callbacks w.ring trb trb_type cell s e),
        get_or-set w.ring.callbacks w.ring.enqueue_index i (some cell) none
            (omega (arith, v.enqueue_in, v.callbacks_size)),
        np i,
      );
      answered = λ ne. absurd (ne blank);
    }

issue-Left :
    (hw : Hardware) (trb : Trb) (trb_type cell : ℕ) (w : World)
    → IsValid w.ring
    → NoPointer cell w.ring
    → w.cells cell ≡ no_answer
    → Left cell (issue hw trb trb_type cell w)
unfolding issue
issue-Left hw trb trb_type cell w v np blank =
    elim (Option-cases (enque_cmd w.ring trb trb_type cell)) [
      | inl e ↦ rw (e, issue) (record { valid = v; no_pointer = np })
      | inr (s, e) ↦
          rw (e, issue)
            (await_answer-Left hw trb_type cell w.ring.enqueue_index (record w { ring = s })
              (issued-Waiting cell trb trb_type w s v np blank e))
    ]

-- WaitForCMD, for a variable whose address no callback entry holds, on a valid ring, and whatever
-- events the controller sends while it waits: when it returns, the ring is valid and again no
-- callback entry holds the address, so that no later event writes to the variable.
pub wait_for_cmd-Left :
    (hw : Hardware) (trb : Trb) (trb_type cell : ℕ) (w : World)
    → IsValid w.ring
    → NoPointer cell w.ring
    → Left cell (wait_for_cmd hw trb trb_type cell w)
unfolding wait_for_cmd
wait_for_cmd-Left hw trb trb_type cell w v np =
    let started = store cell no_answer w in
    let noted : World = if hw.host_error then record started { hse_detected = true } else started in
    let same : (noted.ring ≡ w.ring) × (noted.cells cell ≡ no_answer) = ground arith in
    if_both (Left cell) (not hw.regs_valid) (started, no_answer)
      (if not hw.available then (noted, no_answer) else issue hw trb trb_type cell noted)
      (record { valid = v; no_pointer = np })
      (if_both (Left cell) (not hw.available) (noted, no_answer) (issue hw trb trb_type cell noted)
        (record { valid = rw same.0 v; no_pointer = rw same.0 np })
        (issue-Left hw trb trb_type cell noted (rw same.0 v) (rw same.0 np) same.1))
