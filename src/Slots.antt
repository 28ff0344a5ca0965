-- ===== src/Slots.antt =====
-- GetRing, CreateRing and DeallocRing of Rings.cpp and RestartStreams of Streams.cpp: the rings that a
-- slot keeps for one endpoint, one of them for each stream.
pub mod Rings
mod Tests
use os_x_generic_usb.Base.{
  ℕ, zero, suc, ◌+◌, ◌-◌, ◌%◌, List, [], ◌∷◌, Option, none, some, Bool, true, false, not, ◌&&◌,
  ◌==◌, ltb, leb, get_or, replicate, u16, if◌then◌else◌,
}

-- What these functions use of a `ringStruct`; `memory` is whether it has a memory descriptor.
pub record Entry : Type 0 where
  pub slot : ℕ
  pub endpoint : ℕ
  pub memory : Bool
  pub phys_addr : ℕ
  pub num_trbs : ℕ
  pub enqueue_index : ℕ
  pub dequeue_index : ℕ

-- What `bzero` leaves.
abbrev pub blank_entry : Entry
blank_entry = record {
  slot = 0;
  endpoint = 0;
  memory = false;
  phys_addr = 0;
  num_trbs = 0;
  enqueue_index = 0;
  dequeue_index = 0;
}

-- An endpoint's part of `SlotStruct`; `none` is the null pointer.
pub record EndpointRings : Type 0 where
  pub rings : Option (List Entry)
  pub max_stream : ℕ
  pub last_stream : ℕ

abbrev pub entry_at : List Entry → ℕ → Entry
entry_at rings i = get_or rings i blank_entry

unfoldable pub get_ring : EndpointRings → ℕ → Option Entry
get_ring s stream_id =
    if leb stream_id s.last_stream
    then elim s.rings [ none ↦ none | some rings ↦ some (entry_at rings stream_id) ]
    else none

unfoldable pub dealloc_ring : Entry → Entry
dealloc_ring e = record e { memory = false; phys_addr = 0; num_trbs = 0 }

-- The array that CreateRing makes.
unfoldable pub new_rings : ℕ → ℕ → ℕ → List Entry
new_rings slot endpoint max_stream =
    replicate (1 + max_stream) (record blank_entry { slot = slot % 256; endpoint = endpoint % 256 })

-- CreateRing: what it leaves, and whether it returns a ring; `malloc` is whether there is memory.
unfoldable pub create_ring : Bool → EndpointRings → ℕ → ℕ → ℕ → EndpointRings × Bool
create_ring malloc s slot endpoint max_stream = elim s.rings [
  | some rings ↦ (s, not (ltb s.max_stream max_stream))
  | none ↦
      if malloc
      then (
        record {
          rings = some (new_rings slot endpoint max_stream);
          max_stream = u16 max_stream;
          last_stream = 0;
        },
        true,
      )
      else (s, false)
]

-- Whether RestartStreams rings the doorbell of a stream.
unfoldable pub wants_doorbell : List Entry → ℕ → ℕ → Bool
wants_doorbell rings stream_id sid =
    not (sid == stream_id)
    && not ((entry_at rings sid).dequeue_index == (entry_at rings sid).enqueue_index)

-- The loop over `n` streams from `sid` on: the streams whose doorbells are rung, in order.
unfoldable pub restart_from : ℕ → List Entry → ℕ → ℕ → List ℕ
restart_from zero rings stream_id sid = []
restart_from (suc n) rings stream_id sid =
    let rest = restart_from n rings stream_id (sid + 1) in
    if wants_doorbell rings stream_id sid then sid ∷ rest else rest

unfoldable pub restart_streams : EndpointRings → ℕ → List ℕ
restart_streams s stream_id = elim s.rings [
  | none ↦ []
  | some rings ↦ if ltb s.last_stream 2 then [] else restart_from s.last_stream rings stream_id 1
]
