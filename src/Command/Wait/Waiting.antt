-- ===== src/Command/Wait/Waiting.antt =====
-- The callback entries while WaitForCMD of Command.cpp waits: which of them may hold the address of
-- its variable.
use os_x_generic_usb.Base.{
  ℕ, ◌<◌, ◌≡◌, ◌≢◌, ◌∙◌, inl, inr, sym, ap, List, [], ◌∷◌, Option, none, some, Bool, true, false,
  arith, length, set, get_or-set, if_both, ◌==◌, if◌then◌else◌, Option-cases,
}
use native.Mathlib.Decide.{ℕ_discrete}
use os_x_generic_usb.Trb.{Trb}
use os_x_generic_usb.Command.{CommandRing, callback_at, do_cmd_completion, complete_slot_command}
use os_x_generic_usb.Command.Inv.{IsValid, do_cmd_completion-IsValid}
use os_x_generic_usb.Command.Wait.Called.{
  Called, kept, cleared, do_cmd_completion-Called, num_trbs-do_cmd_completion,
}
use os_x_generic_usb.Command.Wait.{
  World, deliver, deliver_all, set_stop_pending, await_stop, stop_command_ring, no_answer, success,
  StopResult, timeout,
}

-- No callback entry holds the address.
abbrev pub NoPointer : ℕ → CommandRing → Type 0
NoPointer cell r = (i : ℕ) → callback_at r i ≢ some cell

-- Only the entry at `prev` may.
abbrev pub OnlyAt : ℕ → ℕ → CommandRing → Type 0
OnlyAt cell prev r = (i : ℕ) → i ≢ prev → callback_at r i ≢ some cell

complete_slot_command-ne : (trb : Trb) → complete_slot_command trb ≢ no_answer
unfolding complete_slot_command
complete_slot_command-ne trb = ground arith

-- What holds while the thread waits: the entry at `prev` may hold the address, and only until there
-- is an answer.
pub record Waiting (cell prev : ℕ) (w : World) : Type 0 where
  pub valid : IsValid w.ring
  pub inside : prev < w.ring.num_trbs
  pub only : OnlyAt cell prev w.ring
  pub answered : w.cells cell ≢ no_answer → NoPointer cell w.ring

-- The entries after one is cleared.
callback_cleared :
    (r s : CommandRing) (i j : ℕ)
    → i < length r.callbacks
    → s.callbacks ≡ set r.callbacks i none
    → callback_at s j ≡ (if i == j then none else callback_at r j)
callback_cleared r s i j lt e = rw e (get_or-set r.callbacks i j none none lt)

pub cleared-NoPointer :
    (cell i : ℕ) (r s : CommandRing)
    → i < length r.callbacks
    → s.callbacks ≡ set r.callbacks i none
    → OnlyAt cell i r
    → NoPointer cell s
cleared-NoPointer cell i r s lt e only j = ground (arith, callback_cleared r s i j lt e, only j)

cleared_keeps :
    (cell i j : ℕ) (r s : CommandRing)
    → i < length r.callbacks
    → s.callbacks ≡ set r.callbacks i none
    → callback_at r j ≢ some cell
    → callback_at s j ≢ some cell
cleared_keeps cell i j r s lt e ne = ground (arith, callback_cleared r s i j lt e)

module _ (cell prev : ℕ) (trb : Trb) (w : World) (h : Waiting cell prev w) where
  -- An event that calls nothing.
  deliver-none :
      let c = do_cmd_completion w.ring trb in
      c.call ≡ none
      → ((j : ℕ) → callback_at w.ring j ≢ some cell → callback_at c.ring j ≢ some cell)
      → Waiting cell prev (deliver trb w)
  unfolding deliver
  deliver-none e keeps =
      rw (e, deliver)
        (record {
          valid = do_cmd_completion-IsValid w.ring trb h.valid;
          inside = rw (num_trbs-do_cmd_completion w.ring trb) h.inside;
          only = λ i ne. keeps i (h.only i ne);
          answered = λ ne i. keeps i (h.answered ne i);
        })

  owned_cleared :
      (i : ℕ) {p : ℕ}
      → let c = do_cmd_completion w.ring trb in
        cell ≡ p
        → i < length w.ring.callbacks
        → callback_at w.ring i ≡ some p
        → c.ring.callbacks ≡ set w.ring.callbacks i none
        → NoPointer cell c.ring
  owned_cleared i same lt at_i cbs = elim (ℕ_discrete i prev) [
    | yes e ↦
        cleared-NoPointer cell i w.ring (do_cmd_completion w.ring trb).ring lt cbs (rw e h.only)
    | no ne ↦ absurd (h.only i ne (at_i ∙ ap some (sym same)))
  ]

  -- An event that calls the callback of an entry, which it clears.
  deliver-some :
      (i p : ℕ)
      → let c = do_cmd_completion w.ring trb in
        c.call ≡ some p
        → i < length w.ring.callbacks
        → callback_at w.ring i ≡ some p
        → c.ring.callbacks ≡ set w.ring.callbacks i none
        → Waiting cell prev (deliver trb w)
  unfolding deliver
  deliver-some i p e lt at_i cbs =
      let s = (do_cmd_completion w.ring trb).ring in
      rw (e, deliver)
        (record {
          valid = do_cmd_completion-IsValid w.ring trb h.valid;
          inside = rw (num_trbs-do_cmd_completion w.ring trb) h.inside;
          only = λ j ne. cleared_keeps cell i j w.ring s lt cbs (h.only j ne);
          answered = λ ne. elim (ℕ_discrete cell p) [
            | yes same ↦ λ j. owned_cleared i same lt at_i cbs j
            | no other ↦ λ j. cleared_keeps cell i j w.ring s lt cbs (h.answered (ground arith) j)
          ];
        })

deliver-Waiting :
    (cell prev : ℕ) (trb : Trb) (w : World)
    → Waiting cell prev w
    → Waiting cell prev (deliver trb w)
deliver-Waiting cell prev trb w h = by_call (do_cmd_completion-Called w.ring trb h.valid)
  where
    by_call : Called w.ring (do_cmd_completion w.ring trb) → Waiting cell prev (deliver trb w)
    by_call (kept e cbs) = deliver-none cell prev trb w h e (λ j ne. rw cbs ne)
    by_call (cleared i lt e cbs) = elim (Option-cases (callback_at w.ring i)) [
      | inl empty ↦
          deliver-none cell prev trb w h (e ∙ empty)
            (λ j ne. cleared_keeps cell i j w.ring (do_cmd_completion w.ring trb).ring lt cbs ne)
      | inr (p, full) ↦ deliver-some cell prev trb w h i p (e ∙ full) lt full cbs
    ]

pub deliver_all-Waiting :
    (cell prev : ℕ) (ts : List Trb) (w : World)
    → Waiting cell prev w
    → Waiting cell prev (deliver_all ts w)
unfolding deliver_all
deliver_all-Waiting cell prev [] w h = h
deliver_all-Waiting cell prev (t ∷ ts) w h =
    deliver_all-Waiting cell prev ts (deliver t w) (deliver-Waiting cell prev t w h)

pub pending-Waiting :
    (cell prev : ℕ) (b : Bool) (w : World)
    → Waiting cell prev w
    → Waiting cell prev (set_stop_pending b w)
pending-Waiting cell prev b w h = record {
  valid = ground (arith, h.valid);
  inside = h.inside;
  only = h.only;
  answered = h.answered;
}

pub stop-Waiting :
    (cell prev : ℕ) (crcr : Option Bool) (ts : List Trb) (w : World)
    → Waiting cell prev w
    → Waiting cell prev (stop_command_ring crcr ts w).0
unfolding stop_command_ring await_stop
stop-Waiting cell prev none ts w h = h
stop-Waiting cell prev (some false) ts w h = h
stop-Waiting cell prev (some true) ts w h =
    let w' = deliver_all ts (set_stop_pending true w) in
    let h' =
      deliver_all-Waiting cell prev ts (set_stop_pending true w)
        (pending-Waiting cell prev true w h) in
    if_both (λ (out : World × StopResult). Waiting cell prev out.0) w'.ring.stop_pending
      (set_stop_pending false w', timeout) (w', success) (pending-Waiting cell prev false w' h') h'
