-- ===== src/Retry/Tests.antt =====
-- Small runs of the retries and of the splitting into segments.
use os_x_generic_usb.Trb.{Trb}
use os_x_generic_usb.Retry.{SoftRetries, Segment}

abbrev no_errors : SoftRetries
no_errors = record { addr = 0; shortfall = 0; count = 0 }

-- A segment that begins 16 bytes before a multiple of 2 ^ 16.
abbrev sample_segment : Segment
sample_segment = record { num_segments = 1; addr = 65520; length = 4096 }

abbrev filled : Trb
filled = record { a = 65520; b = 0; c = 0; d = 0 }
