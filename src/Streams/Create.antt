-- ===== src/Streams/Create.antt =====
-- CreateStream and CleanupPartialStreamAllocations of Streams.cpp, and UIMCreateStreams of
-- V3Overrides.cpp, which makes the streams of an endpoint.
pub mod Whole
mod Tests
use os_x_generic_usb.Base.{
  ℕ, zero, suc, ◌+◌, Option, none, some, Bool, true, false, not, ◌&&◌, ◌||◌, ◌==◌, leb, ltb, u16,
  if◌then◌else◌,
}

-- What the functions return.
pub data CreateResult : Type 0 where
  success bad_argument internal_error no_memory not_supported : CreateResult

-- What `withParameters` is given of the endpoint.
pub record AsyncParams : Type 0 where
  pub max_packet_size : ℕ
  pub max_burst : ℕ
  pub multiple : ℕ

-- What the functions use of the `ringStruct` of a stream, the number 0 being the endpoint's own. The
-- descriptor `md` is 0 if there is none.
pub record StreamEntry : Type 0 where
  pub md : ℕ
  pub has_memory : Bool
  pub num_trbs : ℕ
  pub ep_type : ℕ
  pub async_endpoint : Option AsyncParams
  pub next_isoc_frame : ℕ
  pub return_in_progress : Bool
  pub delete_in_progress : Bool
  pub needs_doorbell : Bool

-- The array by stream.
abbrev pub Entries : Type 0
Entries = ℕ → StreamEntry

unfoldable pub put_entry : Entries → ℕ → StreamEntry → Entries
put_entry ps id p i = if i == id then p else ps i

unfoldable pub fresh_stream : StreamEntry → StreamEntry
fresh_stream p = record p {
  next_isoc_frame = 0;
  return_in_progress = false;
  delete_in_progress = false;
  needs_doorbell = false;
}

-- A stream gets the descriptor and the type of the endpoint's own ring, and an endpoint object with its
-- parameters, if there is memory for one.
unfoldable pub with_stream : Bool → StreamEntry → StreamEntry → StreamEntry
with_stream memory main p = record (fresh_stream p) {
  md = main.md;
  ep_type = main.ep_type;
  async_endpoint = if memory then main.async_endpoint else none;
}

-- CreateStream for the streams of a ring; `memory` is whether there is memory for the endpoint object of
-- a stream.
unfoldable pub create_stream : (ℕ → Bool) → Entries → ℕ → Entries × CreateResult
create_stream memory ps id =
    let main = ps 0 in
    let made = put_entry ps id (with_stream (memory id) main (ps id)) in
    if leb main.num_trbs id || not main.has_memory
    then (ps, bad_argument)
    else if not ((ps id).md == 0)
    then (put_entry ps id (fresh_stream (ps id)), internal_error)
    else if memory id
    then (made, success)
    else (made, no_memory)

unfoldable pub cleaned : StreamEntry → StreamEntry
cleaned p = record p { async_endpoint = none; md = 0 }

-- CleanupPartialStreamAllocations.
unfoldable pub cleanup_partial_stream_allocations : Entries → ℕ → Entries
cleanup_partial_stream_allocations ps zero = ps
cleanup_partial_stream_allocations ps (suc last) =
    let before = cleanup_partial_stream_allocations ps last in
    put_entry before (suc last) (cleaned (before (suc last)))

-- An endpoint's part of the slot; `cleared` counts the calls of ClearEndpoint.
pub record StreamsEndpoint : Type 0 where
  pub entries : Entries
  pub last_stream : ℕ
  pub max_stream : ℕ
  pub cleared : ℕ

-- A step of the loop of UIMCreateStreams, on the outcome of CreateStream.
unfoldable pub on_made :
    StreamsEndpoint → ℕ → Entries × CreateResult → StreamsEndpoint × CreateResult
on_made s id (ps, success) = (record s { entries = ps }, success)
on_made s id (ps, bad_argument) =
    (record s { entries = cleanup_partial_stream_allocations ps id; last_stream = 0 }, bad_argument)
on_made s id (ps, internal_error) = (
  record s { entries = cleanup_partial_stream_allocations ps id; last_stream = 0 },
  internal_error,
)
on_made s id (ps, no_memory) =
    (record s { entries = cleanup_partial_stream_allocations ps id; last_stream = 0 }, no_memory)
on_made s id (ps, not_supported) = (
  record s { entries = cleanup_partial_stream_allocations ps id; last_stream = 0 },
  not_supported,
)

abbrev pub is_made : CreateResult → Bool
is_made success = true
is_made bad_argument = false
is_made internal_error = false
is_made no_memory = false
is_made not_supported = false

-- The loop, for a number of streams from `id` on.
unfoldable pub streams_loop : (ℕ → Bool) → ℕ → StreamsEndpoint → ℕ → StreamsEndpoint × CreateResult
streams_loop memory zero s id = (record s { cleared = s.cleared + 1 }, success)
streams_loop memory (suc n) s id =
    let step = on_made s id (create_stream memory s.entries id) in
    let rest = streams_loop memory n step.0 (id + 1) in if is_made step.1 then rest else step

-- UIMCreateStreams, for what GetSlotID and TranslateEndpoint return; the endpoint has a ring.
unfoldable pub uim_create_streams :
    (ℕ → Bool) → ℕ → ℕ → ℕ → StreamsEndpoint → ℕ → StreamsEndpoint × CreateResult
uim_create_streams memory max_psa_size slot endpoint s max_stream =
    let created = streams_loop memory max_stream (record s { last_stream = u16 max_stream }) 1 in
    if max_psa_size == 0
    then (s, not_supported)
    else if slot == 0
    then (s, internal_error)
    else if ltb endpoint 2 || leb 32 endpoint
    then (s, bad_argument)
    else if not (s.last_stream == 0)
    then (s, (if max_stream == 0 then internal_error else bad_argument))
    else if max_stream == 0
    then (s, bad_argument)
    else if max_stream == 1
    then if not (ltb 1 s.max_stream) then (s, success) else created
    else if ltb s.max_stream max_stream
    then (s, bad_argument)
    else created
