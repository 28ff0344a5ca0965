-- ===== src/Status/Tests.antt =====
-- Small runs of the translations of completion codes.
use os_x_generic_usb.Base.{◌≡◌, ◌≢◌, true, false}
use os_x_generic_usb.Trb.{Trb, trb_error}
use os_x_generic_usb.Command.{complete_slot_command, error_success}
use os_x_generic_usb.Status.{success, timeout, Device, translate_command_completion}
use os_x_generic_usb.Status.Laws.{translate_completed}

abbrev sample_device : Device
sample_device = record { num_slots = 8; behind_tt = λ s. true; is_intel = false }

-- A completion event with the code CONTEXT_STATE.
abbrev refused : Trb
refused = record { a = 0; b = 0; c = 0x13000000; d = 0 }

translate_completed_example :
    let r = translate_command_completion (complete_slot_command refused) in
    (r ≢ timeout)
    × (trb_error refused ≡ error_success → r ≡ success)
    × (r ≡ success → trb_error refused ≡ error_success)
translate_completed_example = translate_completed refused
