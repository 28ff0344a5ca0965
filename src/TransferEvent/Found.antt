-- ===== src/TransferEvent/Found.antt =====
-- processTransferEvent2 and DoStopCompletion from the event on: which ring it is for, if any.
use os_x_generic_usb.Base.{
  ℕ, zero, suc, ◌+◌, ◌-◌, List, [], ◌∷◌, Option, none, some, Bool, true, false, not, ◌&&◌, ◌||◌,
  ◌==◌, leb, set, map, u32, if◌then◌else◌, ℤ, pos, negsuc,
}
use os_x_generic_usb.Trb.{Trb, diff_trb_index}
use os_x_generic_usb.Streams.{StreamRing, find_stream}
use os_x_generic_usb.Schedule.{Control, Context, Pipe}
use os_x_generic_usb.TransferEvent.{Words, words_of, Setting, update_dq, on_async}

-- What the code uses of a `GenericUSBXHCIIsochEP`.
pub record IsochState : Type 0 where
  pub active_tds : ℕ
  pub out_slot : ℕ
  pub in_slot : ℕ
  pub scheduling_delayed : Bool

-- A ring with its endpoint: whether it has memory, is of an isochronous type, and has an
-- asynchronous endpoint; `isoch` is its isochronous endpoint, if it has one.
pub record Site (C : Type 0) : Type 0 where
  pub pipe : Pipe C
  pub has_memory : Bool
  pub is_isoch_type : Bool
  pub has_async : Bool
  pub isoch : Option IsochState
  pub stop_trb : Trb

-- The slots: how many, which are active, and by slot and endpoint whether it has streams, the last
-- stream, and the rings by stream (none is the null pointer).
pub record Bus (C : Type 0) : Type 0 where
  pub num_slots : ℕ
  pub is_active : ℕ → Bool
  pub has_streams : ℕ → ℕ → Bool
  pub last_stream : ℕ → ℕ → ℕ
  pub sites : ℕ → ℕ → List (Site C)
  pub bad_doorbells : ℕ

module _ {C : Type 0} where
  unfoldable pub put_site : Bus C → ℕ → ℕ → ℕ → Site C → Bus C
  put_site b slot endpoint stream site = record b {
    sites = λ s e.
        if s == slot && e == endpoint then set (b.sites slot endpoint) stream site else b.sites s e;
  }

  unfoldable pub nth : List (Site C) → ℕ → Option (Site C)
  nth [] i = none
  nth (s ∷ ss) zero = some s
  nth (s ∷ ss) (suc i) = nth ss i

  unfoldable pub site_at : Bus C → ℕ → ℕ → ℕ → Option (Site C)
  site_at b slot endpoint stream = nth (b.sites slot endpoint) stream

  -- What FindStream reads of a ring.
  unfoldable pub stream_ring : Site C → StreamRing
  stream_ring s = record { phys_addr = s.pipe.ring.phys_addr; num_trbs = s.pipe.ring.num_trbs }

  -- The slot is one of the controller's and active.
  unfoldable pub is_known : Bus C → Words → Bool
  is_known b e =
      not (e.slot == 0) && leb e.slot b.num_slots && b.is_active e.slot && not (e.endpoint == 0)

  -- The stream of the ring that DoStopCompletion finds: `none` without fuel, `some none` for no ring.
  unfoldable pub stop_stream : ℕ → Bus C → Words → Option (Option ℕ)
  stop_stream fuel b e =
      if b.has_streams e.slot e.endpoint
      then elim (find_stream fuel (map stream_ring (b.sites e.slot e.endpoint))
          (b.last_stream e.slot e.endpoint) e.addr) [
            | none ↦ none
            | some none ↦ some none
            | some (some (stream, index)) ↦ some (some stream)
          ]
      else some (some 0)

  unfoldable pub note_stop : Bus C → Words → Trb → ℕ → Bus C
  note_stop b e t stream = elim (site_at b e.slot e.endpoint stream) [
    | none ↦ b
    | some site ↦ put_site b e.slot e.endpoint stream (record site { stop_trb = t })
  ]

  -- DoStopCompletion, with what it returns.
  unfoldable pub do_stop_completion : ℕ → Bus C → Trb → Option (Bus C × Bool)
  do_stop_completion fuel b t =
      let e = words_of t in
      let noted : Option (Bus C × Bool) = elim (stop_stream fuel b e) [
        | none ↦ none
        | some none ↦ some (b, true)
        | some (some stream) ↦ some (note_stop b e t stream, true)
      ] in
      if not (is_known b e) || b.has_streams e.slot e.endpoint && e.addr == 0
      then some (b, false)
      else noted

-- An overrun or underrun of an isochronous ring; `schedule` is AddIsocFramesToSchedule.
unfoldable pub after_xrun : (IsochState → IsochState) → IsochState → IsochState
after_xrun schedule i =
    let idle : IsochState =
      if i.active_tds == 0 then record i { out_slot = 129; in_slot = 129 } else i in
    if idle.scheduling_delayed then schedule (record idle { scheduling_delayed = false }) else idle

module _ {C : Type 0} (ctl : ℕ → ℕ → Control C) (x : ℕ → ℕ → Context) (g : Setting)
    (schedule : IsochState → IsochState) (fuel : ℕ) where
  unfoldable pub xrun : Site C → Site C
  xrun site = elim site.isoch [
    | none ↦ site
    | some i ↦
        if site.is_isoch_type then record site { isoch = some (after_xrun schedule i) } else site
  ]

  -- An event for the TRB at the index of a ring.
  unfoldable pub on_site : Bus C → Words → ℕ → Site C → ℕ → Option (Bus C × Bool)
  on_site b e stream site index =
      let c = ctl e.slot e.endpoint in
      let context = x e.slot e.endpoint in
      let after =
        if site.is_isoch_type || not site.has_async
        then some (update_dq c context g site.pipe index)
        else on_async c context g fuel e site.pipe index in
      elim after [
        | none ↦ none
        | some pipe ↦ some (put_site b e.slot e.endpoint stream (record site { pipe = pipe }), true)
      ]

  -- An event for the TRB at a number of TRBs from the ring's start.
  unfoldable pub on_index : Bus C → Words → Site C → ℤ → Option (Bus C × Bool)
  on_index b e site (negsuc n) = some (b, true)
  on_index b e site (pos index) =
      let handled = on_site b e 0 site index in
      if leb (site.pipe.ring.num_trbs - 1) index then some (b, true) else handled

  -- An event for an endpoint without streams.
  unfoldable pub on_plain : Bus C → Words → Option (Bus C × Bool)
  on_plain b e = elim (site_at b e.slot e.endpoint 0) [
    | none ↦ some (b, false)
    | some site ↦
        if e.err == 14 || e.err == 15
        then some (put_site b e.slot e.endpoint 0 (xrun site), true)
        else if not site.has_memory
        then some (b, false)
        else on_index b e site (diff_trb_index e.addr site.pipe.ring.phys_addr)
  ]

  -- An event for an endpoint with streams.
  unfoldable pub on_stream : Bus C → Words → Option (Bus C × Bool)
  on_stream b e =
      let found =
        find_stream fuel (map stream_ring (b.sites e.slot e.endpoint))
          (b.last_stream e.slot e.endpoint) e.addr in
      let handled : Option (Bus C × Bool) = elim found [
        | none ↦ none
        | some none ↦ some (b, false)
        | some (some (stream, index)) ↦ elim (site_at b e.slot e.endpoint stream) [
          | none ↦ some (b, false)
          | some site ↦ on_site b e stream site index
        ]
      ] in
      if e.addr == 0 then some (b, false) else handled

  -- processTransferEvent2, with what it returns.
  unfoldable pub process_transfer_event2 : Bus C → Trb → Option (Bus C × Bool)
  process_transfer_event2 b t =
      let e = words_of t in
      if e.err == 26 || e.err == 27
      then do_stop_completion fuel b t
      else if e.err == 12
      then some (record b { bad_doorbells = u32 (b.bad_doorbells + 1) }, true)
      else if not (is_known b e)
      then some (b, false)
      else if b.has_streams e.slot e.endpoint
      then on_stream b e
      else on_plain b e
