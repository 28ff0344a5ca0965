-- ===== src/Status/Laws.antt =====
-- Which completion codes count as success.
use os_x_generic_usb.Base.{
  ℕ, ◌≡◌, ◌≢◌, ◌⊎◌, inl, inr, refl, [], ◌∷◌, Bool, true, false, arith, ◌&&◌, if◌then◌else◌, ℤ, pos,
  negsuc, if_cases, Bool-cases, ltb, leb,
}
use os_x_generic_usb.Trb.{Trb, trb_error}
use os_x_generic_usb.Command.{complete_slot_command, error_success}
use os_x_generic_usb.Status.{
  IoReturn, success, timeout, internal_error, Device, member, Rows, switch, status_rows,
  translate_xhci_status, translate_command_completion, usb_high_speed_split_error, not_responding,
}

-- No row returns success.
NoSuccess : Rows → Type 0
NoSuccess [] = Unit {0}
NoSuccess ((codes, result) ∷ rows) = (result ≢ success) × NoSuccess rows

switch-NoSuccess :
    (rows : Rows) (default : IoReturn) (x : ℕ)
    → NoSuccess rows
    → default ≢ success
    → switch rows default x ≢ success
unfolding switch NoSuccess
switch-NoSuccess [] default x h ne = ne
switch-NoSuccess ((codes, result) ∷ rows) default x h ne =
    if_cases (λ (r : IoReturn). r ≢ success) (member x codes) result (switch rows default x)
      (λ _. h.0) (λ _. switch-NoSuccess rows default x h.1 ne)

-- The rows after the first.
abbrev later_rows : Device → ℕ → Bool → Rows
later_rows dev slot direction = elim (status_rows dev slot direction) [ [] ↦ [] | _ ∷ rows ↦ rows ]

if-ne_success :
    (b : Bool) (r s : IoReturn) → r ≢ success → s ≢ success → (if b then r else s) ≢ success
if-ne_success true r s h k = h
if-ne_success false r s h k = k

later_rows-NoSuccess :
    (dev : Device) (slot : ℕ) (direction : Bool) → NoSuccess (later_rows dev slot direction)
unfolding NoSuccess status_rows
later_rows-NoSuccess dev slot direction = (
  if-ne_success direction _ _ (ground arith) (ground arith),
  (
    ground arith,
    (
      if-ne_success (ltb 0 slot && leb slot dev.num_slots && dev.behind_tt slot)
          usb_high_speed_split_error not_responding (ground arith) (ground arith),
      (
        ground arith,
        (
          ground arith,
          (
            ground arith,
            (
              ground arith,
              (
                ground arith,
                (
                  ground arith,
                  (
                    ground arith,
                    (
                      ground arith,
                      (
                        ground arith,
                        (
                          ground arith,
                          (
                            ground arith,
                            (
                              ground arith,
                              (
                                if-ne_success dev.is_intel _ _ (ground arith) (ground arith),
                                (
                                  if-ne_success dev.is_intel _ _ (ground arith) (ground arith),
                                  (
                                    if-ne_success dev.is_intel _ _ (ground arith) (ground arith),
                                    tt,
                                  ),
                                ),
                              ),
                            ),
                          ),
                        ),
                      ),
                    ),
                  ),
                ),
              ),
            ),
          ),
        ),
      ),
    ),
  ),
)

translate_other :
    (dev : Device) (x slot : ℕ) (direction : Bool)
    → member x (1 ∷ 13 ∷ []) ≡ false
    → translate_xhci_status dev (pos x) slot direction ≢ success
unfolding translate_xhci_status switch status_rows
translate_other dev x slot direction e =
    rw (e, switch)
      (switch-NoSuccess (later_rows dev slot direction) internal_error x
        (later_rows-NoSuccess dev slot direction) (ground arith))

translate_success :
    (dev : Device) (x slot : ℕ) (direction : Bool)
    → member x (1 ∷ 13 ∷ []) ≡ true
    → translate_xhci_status dev (pos x) slot direction ≡ success
unfolding translate_xhci_status switch status_rows
translate_success dev x slot direction e = rw (e, switch) refl

member_iff :
    (x : ℕ)
    → (member x (1 ∷ 13 ∷ []) ≡ true → (pos x ≡ pos 1) ⊎ (pos x ≡ pos 13))
      × ((pos x ≡ pos 1) ⊎ (pos x ≡ pos 13) → member x (1 ∷ 13 ∷ []) ≡ true)
unfolding member
member_iff x = ground arith

-- TranslateXHCIStatus reports success for the codes SUCCESS and SHORT_PKT, and for no other code,
-- whatever the slot, the direction and the vendor.
pub translate_xhci_status-success :
    (dev : Device) (code : ℤ) (slot : ℕ) (direction : Bool)
    → ((code ≡ pos 1) ⊎ (code ≡ pos 13) → translate_xhci_status dev code slot direction ≡ success)
      × (translate_xhci_status dev code slot direction ≡ success → (code ≡ pos 1) ⊎ (code ≡ pos 13))
unfolding translate_xhci_status
translate_xhci_status-success dev (pos x) slot direction = (
  λ h. translate_success dev x slot direction ((member_iff x).1 h),
  λ e. elim (Bool-cases (member x (1 ∷ 13 ∷ []))) [
    | inl yes_it_is ↦ (member_iff x).0 yes_it_is
    | inr not_it ↦ absurd (translate_other dev x slot direction not_it e)
  ],
)
translate_xhci_status-success dev (negsuc n) slot direction = ground arith

-- For the event of a command, TranslateCommandCompletion of
-- the value that CompleteSlotCommand stores reports success exactly where the event does, and never a
-- timeout.
pub translate_completed :
    (trb : Trb)
    → let r = translate_command_completion (complete_slot_command trb) in
      (r ≢ timeout)
      × (trb_error trb ≡ error_success → r ≡ success)
      × (r ≡ success → trb_error trb ≡ error_success)
unfolding translate_command_completion complete_slot_command
translate_completed trb = ground arith
