-- ===== src/Slots/Tests.antt =====
-- Small runs of the functions on an endpoint's rings, with three streams.
use os_x_generic_usb.Base.{◌≤◌, refl, List, [], ◌∷◌, none, some, arith}
use os_x_generic_usb.Slots.{Entry, blank_entry, EndpointRings, restart_streams}
use os_x_generic_usb.Slots.Rings.{Listed, IsBusy, restart_streams-Listed}

abbrev busy_entry : Entry
busy_entry = record blank_entry { enqueue_index = 3 }

abbrev sample_rings : List Entry
sample_rings = blank_entry ∷ busy_entry ∷ blank_entry ∷ busy_entry ∷ []

abbrev three_in_use : EndpointRings
three_in_use = record { rings = some sample_rings; max_stream = 3; last_stream = 3 }

restart_streams-Listed_example :
    (Listed 3 (restart_streams three_in_use 1) → (1 ≤ 3) × (3 ≤ 3) × IsBusy sample_rings 1 3)
    × ((1 ≤ 3) × (3 ≤ 3) × IsBusy sample_rings 1 3 → Listed 3 (restart_streams three_in_use 1))
restart_streams-Listed_example =
    restart_streams-Listed three_in_use sample_rings 1 3 refl (omega arith)

abbrev no_rings : EndpointRings
no_rings = record { rings = none; max_stream = 0; last_stream = 0 }
