-- ===== src/Status.antt =====
-- TranslateXHCIStatus and TranslateCommandCompletion of Leaf_Methods.cpp: the completion codes of the
-- controller as return codes of IOKit.
pub mod Laws
mod Tests
use os_x_generic_usb.Base.{
  ℕ, zero, suc, ◌+◌, List, [], ◌∷◌, Bool, true, false, ◌==◌, ◌||◌, ◌&&◌, not, leb, ltb,
  if◌then◌else◌, ℤ, pos, negsuc,
}

-- The values of `IOReturn` that the two functions return.
pub data IoReturn : Type 0 where
  success overrun not_responding no_resources no_bandwidth invalid offline underrun : IoReturn
  bad_argument device_error aborted unsupported not_open internal_error timeout : IoReturn
  not_permitted usb_high_speed_split_error usb_pipe_stalled usb_device_count_exceeded : IoReturn
  -- `kIOUSBBufferOverrunErr`, and that code with its bit 0 set.
  usb_buffer_overrun usb_buffer_overrun_odd : IoReturn

-- What TranslateXHCIStatus reads besides its arguments: whether the slot, if it is one of the
-- controller's, has a context whose field TT_HUB_SID is not 0, and whether the vendor is Intel.
pub record Device : Type 0 where
  pub num_slots : ℕ
  pub behind_tt : ℕ → Bool
  pub is_intel : Bool

unfoldable pub member : ℕ → List ℕ → Bool
member x [] = false
member x (y ∷ ys) = x == y || member x ys

-- A row of a `switch` statement: the codes, and what is returned for them.
abbrev pub Rows : Type 0
Rows = List (List ℕ × IoReturn)

unfoldable pub switch : Rows → IoReturn → ℕ → IoReturn
switch [] default x = default
switch ((codes, result) ∷ rows) default x = if member x codes then result else switch rows default x

abbrev pub intel_or_internal : Device → IoReturn → IoReturn
intel_or_internal dev r = if dev.is_intel then r else internal_error

unfoldable pub status_rows : Device → ℕ → Bool → Rows
status_rows dev slot direction =
    (1 ∷ 13 ∷ [], success)
    ∷ (2 ∷ [], (if direction then usb_buffer_overrun else usb_buffer_overrun_odd))
    ∷ (3 ∷ 15 ∷ 16 ∷ 21 ∷ 23 ∷ 31 ∷ 32 ∷ [], overrun)
    ∷ (
      4 ∷ [],
      (if ltb 0 slot && leb slot dev.num_slots && dev.behind_tt slot
          then usb_high_speed_split_error
          else not_responding),
    )
    ∷ (6 ∷ [], usb_pipe_stalled)
    ∷ (7 ∷ [], no_resources)
    ∷ (8 ∷ 18 ∷ 35 ∷ [], no_bandwidth)
    ∷ (9 ∷ [], usb_device_count_exceeded)
    ∷ (10 ∷ [], invalid)
    ∷ (11 ∷ 12 ∷ 24 ∷ [], offline)
    ∷ (14 ∷ [], underrun)
    ∷ (17 ∷ 19 ∷ 29 ∷ 34 ∷ [], bad_argument)
    ∷ (20 ∷ [], not_responding)
    ∷ (22 ∷ [], device_error)
    ∷ (25 ∷ 26 ∷ 27 ∷ [], aborted)
    ∷ (36 ∷ [], usb_high_speed_split_error)
    ∷ (193 ∷ [], intel_or_internal dev unsupported)
    ∷ (199 ∷ [], intel_or_internal dev not_open)
    ∷ (200 ∷ [], intel_or_internal dev no_bandwidth)
    ∷ []

-- A negative code is none of the rows'.
unfoldable pub translate_xhci_status : Device → ℤ → ℕ → Bool → IoReturn
translate_xhci_status dev (pos x) slot direction =
    switch (status_rows dev slot direction) internal_error x
translate_xhci_status dev (negsuc n) slot direction = internal_error

-- The argument is what WaitForCMD returns: -1 is `negsuc 0`, and -1000 - e is `negsuc (999 + e)`.
unfoldable pub translate_command_completion : ℤ → IoReturn
translate_command_completion (pos n) = success
translate_command_completion (negsuc n) =
    if n == 0
    then timeout
    else if ltb n 999
    then success
    else if n == 1019
    then not_permitted
    else if n == 1016
    then bad_argument
    else internal_error
